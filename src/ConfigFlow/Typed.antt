-- ===== src/ConfigFlow/Typed.antt =====
-- custom_components/centralite/config_flow.py: the import step with ids typed by hand alone.
use centralite_ha.Base.{
  ℕ, zero, suc, ltb, ℤ, pos, negsuc, Bool, true, false, ◌&&◌, Option, List, [], ◌∷◌, ◌++◌, map, ◌≡◌,
  refl, sym, ap, ◌∙◌, arith, within_one, if◌then◌else◌, Bool-cases, inl, inr, ok,
}
use centralite_ha.Text.{Text, strip}
use centralite_ha.Dict.{Dict, int_eq, pair_eq, int_beq, int_beq_iff}
use centralite_ha.Sets.{
  member, add, update, difference, intersection, keep, sorted_set, int_order, pair_order,
}
use centralite_ha.Sets.Sorted.{member-update, member-sorted_set}
use centralite_ha.Parsers.Csv.{parse_csv_ids}
use centralite_ha.Parsers.Jts.Tree.{Element}
use centralite_ha.ConfigFlow.Draft.{
  System, elegance, jetstream, load, scene, switch, limit, Attempt, done, fails, ids_out_of_range,
  all_within, Draft, nothing,
}
use centralite_ha.ConfigFlow.Steps.{
  UserInput, import_text, import_csv, Entry, device_numbers, all_pairs, buttons_of, make_entry,
  step_import, is_jetstream,
}
use centralite_ha.ConfigFlow.Limits.{all_within-member}

all_within-append :
    (hi : ℕ) (s t : List ℤ) → all_within hi (s ++ t) ≡ (all_within hi s && all_within hi t)
unfolding all_within
all_within-append hi [] t = refl
all_within-append hi (x ∷ s) t = ground (arith, all_within-append hi s t)

all_within-add :
    (hi : ℕ) (s : List ℤ) (x : ℤ) → all_within hi (add x s) ≡ (all_within hi s && within_one hi x)
unfolding add all_within
all_within-add hi s x = elim (Bool-cases (member x s)) [
  | inl old ↦
      rw old (absorb (all_within hi s) (within_one hi x) (λ a. all_within-member hi s x a old))
  | inr new ↦ rw new (all_within-append hi s (x ∷ []) ∙ ground arith)
]
  where
    absorb : (a b : Bool) → (a ≡ true → b ≡ true) → a ≡ (a && b)
    absorb true b h = sym (h refl)
    absorb false b h = refl

all_within-update :
    (hi : ℕ) (s xs : List ℤ) → all_within hi (update s xs) ≡ (all_within hi s && all_within hi xs)
unfolding update all_within
all_within-update hi s [] = ground arith
all_within-update hi s (x ∷ xs) =
    all_within-update hi (add x s) xs ∙ ground (arith, all_within-add hi s x)

-- {(idx, 1) for idx in xs}
abbrev ones : List ℤ → List (ℤ × ℤ)
ones [] = []
ones (x ∷ xs) = (x, pos 1) ∷ ones xs

ones-map : (xs : List ℤ) → map (λ idx. (idx, pos 1)) xs ≡ ones xs
ones-map [] = refl
ones-map (x ∷ xs) = let first : ℤ × ℤ = (x, pos 1) in ap (◌∷◌ first) (ones-map xs)

all_within-device_numbers :
    (hi : ℕ) (pairs : List (ℤ × ℤ))
    → ((d b : ℤ) → member (d, b) pairs ≡ true → within_one hi d ≡ true)
    → all_within hi (device_numbers pairs) ≡ true
unfolding all_within member
all_within-device_numbers hi [] h = refl
all_within-device_numbers hi ((d, b) ∷ pairs) h =
    let first : within_one hi d ≡ true = h d b (ground (arith, int_beq_iff d d, int_beq_iff b b)) in
    rw first (all_within-device_numbers hi pairs (λ e c m. h e c (ground (arith, m))))

-- What the form asks for.
pub record Typed : Type 0 where
  pub loads : List ℤ
  pub scenes : List ℤ
  pub switches : List ℤ

-- The ids 1 to `hi`.
abbrev pub accepts : ℕ → ℤ → Bool
accepts hi (pos zero) = false
accepts hi (pos (suc n)) = ltb n hi
accepts hi (negsuc n) = false

abbrev pub accepts_all : ℕ → List ℤ → Bool
accepts_all hi [] = true
accepts_all hi (x ∷ xs) = accepts hi x && accepts_all hi xs

-- Every id is one that the bridge of the system has.
abbrev pub in_range : System → Typed → Bool
in_range elegance t =
    accepts_all 192 t.loads && (accepts_all 256 t.scenes && accepts_all 384 t.switches)
in_range jetstream t =
    accepts_all 199 t.loads && (accepts_all 100 t.scenes && accepts_all 199 t.switches)

within-accepts : (hi : ℕ) (x : ℤ) → within_one hi x ≡ accepts hi x
within-accepts hi (pos zero) = refl
within-accepts hi (pos (suc n)) = ground arith
within-accepts hi (negsuc n) = refl

all_within-accepts_all : (hi : ℕ) (xs : List ℤ) → all_within hi xs ≡ accepts_all hi xs
unfolding all_within
all_within-accepts_all hi [] = refl
all_within-accepts_all hi (x ∷ xs) =
    ground (arith, within-accepts hi x, all_within-accepts_all hi xs)

-- The checks of the three lists.
abbrev checked : System → Typed → Bool
checked system t =
    all_within (limit system load) t.loads
    && (all_within (limit system scene) t.scenes && all_within (limit system switch) t.switches)

checked-in_range : (system : System) (t : Typed) → checked system t ≡ in_range system t
checked-in_range elegance t =
    rw
      (
        all_within-accepts_all 192 t.loads,
        all_within-accepts_all 256 t.scenes,
        all_within-accepts_all 384 t.switches,
      )
      refl
checked-in_range jetstream t =
    rw
      (
        all_within-accepts_all 199 t.loads,
        all_within-accepts_all 100 t.scenes,
        all_within-accepts_all 199 t.switches,
      )
      refl

-- The ids of an entry: on Elegance each switch, on JetStream button 1 of each switch.
abbrev HoldsSwitches : System → List ℤ → List ℤ → List (ℤ × ℤ) → Type 0
HoldsSwitches elegance switches switch_ids button_ids =
    (y : ℤ) → member y switch_ids ≡ member y switches
HoldsSwitches jetstream switches switch_ids button_ids =
    (y b : ℤ) → member (y, b) button_ids ≡ (int_beq b (pos 1) && member y switches)

abbrev pub Enters : System → Typed → Attempt Entry → Type 0
Enters system t (done e) =
    (in_range system t ≡ true)
    × ((y : ℤ) → member y e.load_ids ≡ member y t.loads)
    × ((y : ℤ) → member y e.scene_ids ≡ member y t.scenes)
    × HoldsSwitches system t.switches e.switch_ids e.button_ids
    × (e.disabled_loads ≡ [])
Enters system t (fails x) = (in_range system t ≡ false) × (x ≡ ids_out_of_range)

-- The draft of the three lists.
abbrev draft_of : Typed → Draft
draft_of t = record nothing {
  load_ids = update [] t.loads;
  scene_ids = update [] t.scenes;
  switch_ids = update [] t.switches;
}

member-update_nil : (y : ℤ) (xs : List ℤ) → member y (update [] xs) ≡ member y xs
unfolding member
member-update_nil y xs = member-update y [] xs ∙ ground arith

-- The buttons of JetStream devices that are in range, and the members of their list.
member-ones : (y b : ℤ) (xs : List ℤ) → member (y, b) (ones xs) ≡ (int_beq b (pos 1) && member y xs)
unfolding member
member-ones y b [] = ground arith
member-ones y b (x ∷ xs) = ground (arith, member-ones y b xs)

member-all_pairs :
    (t : Typed) (y b : ℤ)
    → member (y, b) (all_pairs (draft_of t)) ≡ (int_beq b (pos 1) && member y t.switches)
unfolding member
member-all_pairs t y b =
    member-update (y, b) [] (map (λ idx. (idx, pos 1)) (update [] t.switches))
    ∙ rw
        (
          ones-map (update [] t.switches),
          member-ones y b (update [] t.switches),
          member-update_nil y t.switches,
        )
        (ground arith)

within_typed : (hi : ℕ) (xs : List ℤ) → all_within hi (update [] xs) ≡ all_within hi xs
unfolding all_within
within_typed hi xs = all_within-update hi [] xs

-- The buttons of a form whose switches are in range.
abbrev HoldsButtons : System → List ℤ → List (ℤ × ℤ) → Type 0
HoldsButtons elegance switches pairs = Unit
HoldsButtons jetstream switches pairs =
    (y b : ℤ) → member (y, b) pairs ≡ (int_beq b (pos 1) && member y switches)

buttons_of-done :
    (system : System) (t : Typed)
    → all_within (limit system switch) t.switches ≡ true
    → (pairs : List (ℤ × ℤ)) × (buttons_of system (draft_of t) ≡ done pairs)
      × HoldsButtons system t.switches pairs
buttons_of-done elegance t h = ([], refl, tt)
buttons_of-done jetstream t h = (
  sorted_set (all_pairs (draft_of t)),
  rw
      (all_within-device_numbers (limit jetstream switch) (all_pairs (draft_of t)) (λ d b m.
        all_within-member (limit jetstream switch) t.switches d h
          (ground (arith, m, member-all_pairs t d b))))
      refl,
  λ y b. member-sorted_set (y, b) (all_pairs (draft_of t)) ∙ member-all_pairs t y b,
)

member-sorted_typed : (y : ℤ) (xs : List ℤ) → member y (sorted_set (update [] xs)) ≡ member y xs
member-sorted_typed y xs = member-sorted_set y (update [] xs) ∙ member-update_nil y xs

holds_switches :
    (system : System) (t : Typed) (pairs : List (ℤ × ℤ))
    → HoldsButtons system t.switches pairs
    → HoldsSwitches system t.switches
        (if is_jetstream system then [] else sorted_set (update [] t.switches))
        pairs
holds_switches elegance t pairs h = λ y. member-sorted_typed y t.switches
holds_switches jetstream t pairs h = h

make_entry-Enters : (system : System) (t : Typed) → Enters system t (make_entry system (draft_of t))
unfolding make_entry sorted_set intersection keep
make_entry-Enters system t =
    let loads = within_typed (limit system load) t.loads in
    let scenes = within_typed (limit system scene) t.scenes in
    let switches = within_typed (limit system switch) t.switches in
    let known = sym (checked-in_range system t) in
    elim (Bool-cases (all_within (limit system load) t.loads)) [
      | inr bad ↦ rw (loads, bad) (known ∙ rw bad refl, refl)
      | inl a ↦ elim (Bool-cases (all_within (limit system scene) t.scenes)) [
        | inr bad ↦ rw (loads, a, scenes, bad) (known ∙ rw (a, bad) refl, refl)
        | inl b ↦ elim (Bool-cases (all_within (limit system switch) t.switches)) [
          | inr bad ↦ rw (loads, a, scenes, b, switches, bad) (known ∙ rw (a, b, bad) refl, refl)
          | inl c ↦
              let (pairs, made, held) = buttons_of-done system t c in
              rw (loads, a, scenes, b, switches, c, made)
                (
                  known ∙ rw (a, b, c) refl,
                  λ y. member-sorted_typed y t.loads,
                  λ y. member-sorted_typed y t.scenes,
                  holds_switches system t pairs held,
                  refl,
                )
        ]
      ]
    ]

-- With no file and no scan, and lists of ids in its three fields, the import step makes an entry exactly
-- where every id is one that the bridge of the system has: it has the loads, the scenes and the
-- switches that were typed and no others, on JetStream button 1 of each switch, and no disabled load. Where
-- some id is not, the step shows that ids are out of range.
pub step_import-Enters :
    (fromstring : Text → Option Element) (system : System) (input : UserInput)
    (scan : Attempt (Dict ℤ Text)) (t : Typed)
    → strip input.elg_text ≡ []
    → input.scan_jetstream ≡ false
    → parse_csv_ids input.load_ids_csv ≡ ok t.loads
    → parse_csv_ids input.scene_ids_csv ≡ ok t.scenes
    → parse_csv_ids input.switch_ids_csv ≡ ok t.switches
    → Enters system t (step_import fromstring system input scan)
unfolding step_import import_text import_csv difference keep
step_import-Enters fromstring system input scan t blank no_scan loads scenes switches =
    rw (blank, loads, scenes, switches, no_scan) (make_entry-Enters system t)
