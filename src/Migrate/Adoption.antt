-- ===== src/Migrate/Adoption.antt =====
-- The unique ids of version 1, and those of the entities that take their place.
use centralite_ha.Base.{ℕ, ◌+◌, ◌/◌, ◌%◌, ◌<◌, pos, true, [], ◌∷◌, ◌++◌, ◌≡◌, refl, ap, ◌∙◌, arith}
use centralite_ha.Text.{Text, codes}
use centralite_ha.Text.Number.{pad, pad_int}
use centralite_ha.Text.Number.Laws.{pad_two, pad_three, int-split, int-split_three}
use centralite_ha.Light
use centralite_ha.Switch
use centralite_ha.Switch.{elegance_button, jetstream_button}
use centralite_ha.Text.Match.{is_digit, group_value, value_or_zero}
use centralite_ha.Migrate.{migrate, numbered, button_suffix, classify}

-- The unique ids that version 1 gave, and those of the entities that take their place.
pub data Legacy : Type 0 where
  elegance_load elegance_switch jetstream_load : ℕ → Legacy
  jetstream_press : ℕ → ℕ → Legacy

abbrev pub legacy_id : Legacy → Text
legacy_id (elegance_load n) = codes "elegance.L" ++ pad 3 n
legacy_id (elegance_switch n) = codes "elegance.SW" ++ pad 3 n
legacy_id (jetstream_load n) = codes "jetstream.JSL" ++ pad 3 n
legacy_id (jetstream_press d b) = codes "jetstream.JSSW" ++ (pad 3 d ++ pad 2 b)

abbrev pub InRange : Legacy → Type 0
InRange (elegance_load n) = n < 1000
InRange (elegance_switch n) = n < 1000
InRange (jetstream_load n) = n < 1000
InRange (jetstream_press d b) = (d < 1000) × (b < 100)

abbrev pub successor_id : Text → Legacy → Text
successor_id entry_id (elegance_load n) =
    Light.unique_id entry_id (record { idx = pos n; dimmable = true })
successor_id entry_id (elegance_switch n) = Switch.unique_id entry_id (elegance_button (pos n))
successor_id entry_id (jetstream_load n) =
    Light.unique_id entry_id (record { idx = pos n; dimmable = true })
successor_id entry_id (jetstream_press d b) =
    Switch.unique_id entry_id (jetstream_button (pos d) (pos b))

digit_ok : (k : ℕ) → k < 10 → is_digit (b'0' + k) ≡ true
digit_ok k h = ground arith

abbrev three : ℕ → Text
three n = (b'0' + n / 100) ∷ (b'0' + n / 10 % 10) ∷ (b'0' + n % 10) ∷ []

abbrev two : ℕ → Text
two n = (b'0' + n / 10) ∷ (b'0' + n % 10) ∷ []

numbered-three :
    (label : Text) (n : ℕ) → n < 1000 → numbered label (three n ∷ []) ≡ label ++ three n
unfolding pad_int
numbered-three label n h =
    ap (λ o. label ++ pad_int 3 (value_or_zero o)) (int-split_three n h)
    ∙ ap (λ t. label ++ t) (pad_three n h)

button_suffix-digits :
    (d b : ℕ)
    → d < 1000
    → b < 100
    → button_suffix (three d ∷ two b ∷ []) ≡ codes "button_" ++ (three d ++ (codes "_" ++ two b))
unfolding pad_int
button_suffix-digits d b h k =
    ap
      (λ o.
        codes "button_"
        ++ (pad_int 3 (value_or_zero o) ++ (codes "_" ++ pad_int 2 (group_value (two b)))))
      (int-split_three d h)
    ∙ ap (λ o. codes "button_" ++ (pad 3 d ++ (codes "_" ++ pad_int 2 (value_or_zero o))))
        (int-split b k)
    ∙ rw (pad_three d h, pad_two b k)

-- A load, switch or button of version 1 is migrated to the unique id of the entity that takes its place,
-- for load, switch and device numbers of three digits and button numbers of two.
pub classify-legacy :
    (entry_id : Text) (l : Legacy)
    → InRange l
    → (suffix : Text) × (classify (legacy_id l) ≡ migrate suffix)
      × (entry_id ++ (codes "_" ++ suffix) ≡ successor_id entry_id l)
unfolding classify Light.unique_id Switch.unique_id pad_int
classify-legacy entry_id (elegance_load n) h = (
  codes "load_" ++ pad 3 n,
  rw
      (
        pad_three n h,
        digit_ok (n / 100) (omega (arith, h)),
        digit_ok (n / 10 % 10) (omega arith),
        digit_ok (n % 10) (omega arith),
      )
      (ap migrate (numbered-three (codes "load_") n h)),
  refl,
)
classify-legacy entry_id (elegance_switch n) h = (
  codes "switch_" ++ pad 3 n,
  rw
      (
        pad_three n h,
        digit_ok (n / 100) (omega (arith, h)),
        digit_ok (n / 10 % 10) (omega arith),
        digit_ok (n % 10) (omega arith),
      )
      (ap migrate (numbered-three (codes "switch_") n h)),
  refl,
)
classify-legacy entry_id (jetstream_load n) h = (
  codes "load_" ++ pad 3 n,
  rw
      (
        pad_three n h,
        digit_ok (n / 100) (omega (arith, h)),
        digit_ok (n / 10 % 10) (omega arith),
        digit_ok (n % 10) (omega arith),
      )
      (ap migrate (numbered-three (codes "load_") n h)),
  refl,
)
classify-legacy entry_id (jetstream_press d b) (h, k) = (
  codes "button_" ++ (pad 3 d ++ (codes "_" ++ pad 2 b)),
  rw
      (
        pad_three d h,
        pad_two b k,
        digit_ok (d / 100) (omega (arith, h)),
        digit_ok (d / 10 % 10) (omega arith),
        digit_ok (d % 10) (omega arith),
        digit_ok (b / 10) (omega (arith, k)),
        digit_ok (b % 10) (omega arith),
      )
      (ap migrate (button_suffix-digits d b h k)),
  refl,
)
