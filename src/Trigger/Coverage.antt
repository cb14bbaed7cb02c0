-- ===== src/Trigger/Coverage.antt =====
-- Which bus events run which device triggers.
use centralite_ha.Base.{
  ℕ, zero, suc, ◌≤◌, ◌<◌, ℤ, pos, Bool, true, false, ◌||◌, some, List, [], ◌∷◌, ◌++◌, ◌≡◌, refl, ap,
  sym, ◌∙◌, drop, arith, All, Bool-cases, inl, inr, if◌then◌else◌,
}
use centralite_ha.Text.{Text, text_eq, slice}
use centralite_ha.Text.Number.{int, pad_int, show_int}
use centralite_ha.Text.Number.Laws.{pad_three, show_one, int-split_three, int-digit}
use centralite_ha.Dict.{int_beq, int_beq_iff, text_eq_iff, int_eq}
use centralite_ha.Protocol.Event.{Action, tap, press, release}
use centralite_ha.Protocol.Elegance.Events.{switch_line_event}
use centralite_ha.Coordinator.Handlers.{ButtonEvent, button_subtype, fire_button_event}
use centralite_ha.Sets.{insert_sorted, sorted_set, int_order}
use centralite_ha.Trigger.{
  Entry, collect, button_triggers, device_triggers, known_devices, get_triggers, action_eq, fires,
}

abbrev pub any : {A : Type 0} → (A → Bool) → List A → Bool
any p [] = false
any p (a ∷ as') = p a || any p as'

any-append :
    {A : Type 0} (p : A → Bool) (xs ys : List A) → any p (xs ++ ys) ≡ (any p xs || any p ys)
any-append p [] ys = refl
any-append p (x ∷ xs) ys = ground (arith, any-append p xs ys)

any-collect :
    {A B : Type 0} (q : B → Bool) (f : A → List B) (xs : List A)
    → any q (collect f xs) ≡ any (λ x. any q (f x)) xs
any-collect q f [] = refl
any-collect q f (x ∷ xs) =
    any-append q (f x) (collect f xs) ∙ ap (λ b. any q (f x) || b) (any-collect q f xs)

any-insert_sorted :
    (p : ℤ → Bool) (k : ℤ) (xs : List ℤ) → any p (insert_sorted k xs) ≡ (p k || any p xs)
unfolding insert_sorted
any-insert_sorted p k [] = refl
any-insert_sorted p k (j ∷ xs) = elim (Bool-cases (int_beq k j)) [
  | inl same ↦ let e : p k ≡ p j = ap p ((int_beq_iff k j).0 same) in rw same (ground arith)
  | inr other ↦ rw other (ground (arith, any-insert_sorted p k xs))
]

any-sorted_set : (p : ℤ → Bool) (xs : List ℤ) → any p (sorted_set xs) ≡ any p xs
unfolding sorted_set
any-sorted_set p [] = refl
any-sorted_set p (k ∷ xs) =
    any-insert_sorted p k (sorted_set xs) ∙ ap (λ b. p k || b) (any-sorted_set p xs)

-- What holds of a listed id holds of some id in the list.
any-listed :
    (q : ℤ → Bool) (k : ℤ) (xs : List ℤ) → any (int_beq k) xs ≡ true → q k ≡ true → any q xs ≡ true
any-listed q k [] h t = cc
any-listed q k (j ∷ xs) h t = elim (Bool-cases (int_beq k j)) [
  | inl same ↦ let e : q j ≡ true = ap q (sym ((int_beq_iff k j).0 same)) ∙ t in ground arith
  | inr other ↦ ground (arith, any-listed q k xs (ground arith) t)
]

text_eq_refl : (t : Text) → text_eq t t ≡ true
text_eq_refl t = (text_eq_iff t t).1 refl

-- The bus event of a button.
abbrev bus_event : Action → ℤ → ℤ → ButtonEvent
bus_event a idx button = record { action = a; subtype = button_subtype idx button }

any-device_triggers :
    (a : Action) (d : ℤ) (button : ℕ)
    → 1 ≤ button
    → button ≤ 3
    → any (fires (bus_event a d (pos button))) (device_triggers d) ≡ true
any-device_triggers a d zero low high = absurd (omega arith)
any-device_triggers tap d (suc zero) low high =
    ground (arith, text_eq_refl (button_subtype d (pos 1)))
any-device_triggers press d (suc zero) low high =
    ground (arith, text_eq_refl (button_subtype d (pos 1)))
any-device_triggers release d (suc zero) low high =
    ground (arith, text_eq_refl (button_subtype d (pos 1)))
any-device_triggers tap d (suc (suc zero)) low high =
    ground (arith, text_eq_refl (button_subtype d (pos 2)))
any-device_triggers press d (suc (suc zero)) low high =
    ground (arith, text_eq_refl (button_subtype d (pos 2)))
any-device_triggers release d (suc (suc zero)) low high =
    ground (arith, text_eq_refl (button_subtype d (pos 2)))
any-device_triggers tap d (suc (suc (suc zero))) low high =
    ground (arith, text_eq_refl (button_subtype d (pos 3)))
any-device_triggers press d (suc (suc (suc zero))) low high =
    ground (arith, text_eq_refl (button_subtype d (pos 3)))
any-device_triggers release d (suc (suc (suc zero))) low high =
    ground (arith, text_eq_refl (button_subtype d (pos 3)))
any-device_triggers a d (suc (suc (suc (suc n)))) low high = absurd (omega arith)

-- On a JetStream entry, every bus event of a button 1 to 3 of a device that the entry knows, as a load
-- or by a button switch, runs some enumerated trigger.
pub get_triggers-jetstream :
    (entry : Entry) (registered : Bool) (a : Action) (d board : ℤ) (button : ℕ)
    → entry.is_jetstream ≡ true
    → any (int_beq d) (known_devices entry) ≡ true
    → 1 ≤ button
    → button ≤ 3
    → All
        (λ event. any (fires event) (get_triggers (some entry)) ≡ true)
        (fire_button_event registered
          (record { idx = d; action = a; board = board; button = pos button }))
unfolding get_triggers fire_button_event
get_triggers-jetstream entry false a d board button j known low high = tt
get_triggers-jetstream entry true a d board button j known low high = (
  rw j (
      any-collect (fires (bus_event a d (pos button))) device_triggers
        (sorted_set (known_devices entry))
      ∙ any-sorted_set (λ k. any (fires (bus_event a d (pos button))) (device_triggers k))
          (known_devices entry)
      ∙ any-listed (λ k. any (fires (bus_event a d (pos button))) (device_triggers k)) d
          (known_devices entry) known (any-device_triggers a d button low high)),
  tt,
)

any-switch_triggers :
    (pressed : Bool) (idx : ℤ)
    → any
        (fires (bus_event (if pressed then press else release) idx (pos 0)))
        (button_triggers (press ∷ release ∷ []) idx (pos 0))
      ≡ true
any-switch_triggers true idx = ground (arith, text_eq_refl (button_subtype idx (pos 0)))
any-switch_triggers false idx = ground (arith, text_eq_refl (button_subtype idx (pos 0)))

-- On an Elegance entry, every bus event of the press or the release of a switch that the entry lists
-- runs some enumerated trigger.
pub get_triggers-elegance :
    (entry : Entry) (registered pressed : Bool) (board idx : ℕ)
    → entry.is_jetstream ≡ false
    → any (int_beq (pos idx)) entry.switch_ids ≡ true
    → All
        (λ event. any (fires event) (get_triggers (some entry)) ≡ true)
        (fire_button_event registered (switch_line_event pressed board idx))
unfolding get_triggers fire_button_event
get_triggers-elegance entry false pressed board idx j known = tt
get_triggers-elegance entry true pressed board idx j known = (
  rw j (
      any-collect (fires (bus_event (if pressed then press else release) (pos idx) (pos 0)))
        (λ k. button_triggers (press ∷ release ∷ []) k (pos 0)) entry.switch_ids
      ∙ any-listed
          (λ k.
            any (fires (bus_event (if pressed then press else release) (pos idx) (pos 0)))
              (button_triggers (press ∷ release ∷ []) k (pos 0)))
          (pos idx) entry.switch_ids known (any-switch_triggers pressed (pos idx))),
  tt,
)

subtype-device :
    (d m : ℕ) → d < 1000 → int (slice 7 10 (button_subtype (pos d) (pos m))) ≡ some (pos d)
unfolding button_subtype pad_int
subtype-device d m h = rw (pad_three d h) (int-split_three d h)

subtype-button :
    (d m : ℕ) → d < 1000 → m < 10 → int (drop 18 (button_subtype (pos d) (pos m))) ≡ some (pos m)
unfolding button_subtype pad_int show_int
subtype-button d m h k = rw (pad_three d h, show_one m k) (int-digit m k)

pos-eq : (m n : ℕ) → some (pos m) ≡ some (pos n) → m ≡ n
pos-eq m n h = cc

-- A trigger of one button runs on no event of another: where it fires, the device, the button and the
-- action are its own, for devices up to 999 and buttons up to 9.
pub fires-own_button :
    (a b : Action) (d e m n : ℕ)
    → d < 1000
    → e < 1000
    → m < 10
    → n < 10
    → fires
        (record { action = b; subtype = button_subtype (pos e) (pos n) })
        (record { trigger_type = a; subtype = button_subtype (pos d) (pos m) })
      ≡ true
    → (action_eq a b ≡ true) × (d ≡ e) × (m ≡ n)
fires-own_button a b d e m n p q r s h =
    let same : button_subtype (pos d) (pos m) ≡ button_subtype (pos e) (pos n) =
      (text_eq_iff _ _).0 (ground arith) in
    (
      ground arith,
      pos-eq d e
          (sym (subtype-device d m p) ∙ ap (λ t. int (slice 7 10 t)) same ∙ subtype-device e n q),
      pos-eq m n
          (sym (subtype-button d m p r) ∙ ap (λ t. int (drop 18 t)) same ∙ subtype-button e n q s),
    )
