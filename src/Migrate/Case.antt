-- ===== src/Migrate/Case.antt =====
-- The classification and the case of letters.
use centralite_ha.Base.{
  ℕ, zero, suc, true, ◌&&◌, Bool, Option, none, some, List, [], ◌∷◌, ◌==◌, if◌then◌else◌,
  option_bind, map, ◌≡◌, refl, ap, sym, ◌∙◌, arith, Bool-cases, inl, inr,
}
use mathlib.Core.Option
use centralite_ha.Text.{Text}
use centralite_ha.Text.Match.{is_digit, add_digit, span_digits, at_end}
use centralite_ha.Migrate.{
  lower, match_literal, exact_digits, Groups, number, device_button, one_group, match_groups,
  Pattern, close, match_pattern, Rule, rules, first_match, classify_by, classify,
}

lower-lower : (c : ℕ) → lower (lower c) ≡ lower c
lower-lower c = ground arith

is_digit-lower : (c : ℕ) → is_digit (lower c) ≡ is_digit c
is_digit-lower c = ground arith

lower_digit : (c : ℕ) → is_digit c ≡ true → lower c ≡ c
lower_digit c h = ground arith

match_literal-lower :
    (i : Bool) (p t : Text)
    → i ≡ true
    → match_literal i p (map lower t) ≡ Option.map (map lower) (match_literal i p t)
unfolding match_literal
match_literal-lower i [] t e = refl
match_literal-lower i (p ∷ ps) [] e = refl
match_literal-lower i (p ∷ ps) (c ∷ t) e = elim (Bool-cases (lower p == lower c)) [
  | inl same ↦ rw (e, lower-lower c, same) (match_literal-lower i ps t e)
  | inr other ↦ rw (e, lower-lower c, other)
]

-- The digits stay, and what is behind them is in lower case.
abbrev lower_rest : {A : Type 0} → A × Text → A × Text
lower_rest (ds, rest) = (ds, map lower rest)

span_digits-lower : (t : Text) → span_digits (map lower t) ≡ lower_rest (span_digits t)
unfolding span_digits
span_digits-lower [] = refl
span_digits-lower (c ∷ t) = elim (Bool-cases (is_digit c)) [
  | inl digit ↦
      rw (is_digit-lower c, digit, lower_digit c digit) (ap (add_digit c) (span_digits-lower t))
  | inr other ↦ rw (is_digit-lower c, other)
]

map-add_digit :
    (c : ℕ) (o : Option (Text × Text))
    → Option.map (add_digit c) (Option.map lower_rest o)
      ≡ Option.map lower_rest (Option.map (add_digit c) o)
map-add_digit c none = refl
map-add_digit c (some x) = refl

exact_digits-lower :
    (n : ℕ) (t : Text) → exact_digits n (map lower t) ≡ Option.map lower_rest (exact_digits n t)
unfolding exact_digits
exact_digits-lower zero t = refl
exact_digits-lower (suc n) [] = refl
exact_digits-lower (suc n) (c ∷ t) = elim (Bool-cases (is_digit c)) [
  | inl digit ↦
      rw (is_digit-lower c, digit, lower_digit c digit)
        (ap (Option.map (add_digit c)) (exact_digits-lower n t)
          ∙ map-add_digit c (exact_digits n t))
  | inr other ↦ rw (is_digit-lower c, other)
]

at_end-lower : (t : Text) → at_end (map lower t) ≡ at_end t
at_end-lower [] = refl
at_end-lower (c ∷ []) = ground arith
at_end-lower (c ∷ d ∷ t) = refl

module _ {A B C : Type 0} where
  bind-map :
      (f : B → Option C) (g : A → B) (h : A → Option C)
      → ((a : A) → f (g a) ≡ h a)
      → (o : Option A) → option_bind (Option.map g o) f ≡ option_bind o h
  bind-map f g h e none = refl
  bind-map f g h e (some a) = e a

  map-bind :
      (k : B → C) (f : A → Option B) (o : Option A)
      → option_bind o (λ a. Option.map k (f a)) ≡ Option.map k (option_bind o f)
  map-bind k f none = refl
  map-bind k f (some a) = refl

one_group-lower : (x : Text × Text) → one_group (lower_rest x) ≡ Option.map lower_rest (one_group x)
one_group-lower ([], rest) = refl
one_group-lower (d ∷ ds, rest) = refl

match_groups-lower :
    (g : Groups) (t : Text)
    → match_groups g (map lower t) ≡ Option.map lower_rest (match_groups g t)
unfolding match_groups
match_groups-lower number t = ap one_group (span_digits-lower t) ∙ one_group-lower (span_digits t)
match_groups-lower device_button t =
    let pair : Text × Text → Text × Text → Option (List Text × Text) =
      λ first second. some (first.0 ∷ second.0 ∷ [], second.1) in
    let button : Text × Text → Option (List Text × Text) =
      λ first. option_bind (exact_digits 2 first.1) (pair first) in
    let step : (first : Text × Text)
        → button (lower_rest first) ≡ Option.map lower_rest (button first) =
      λ first.
        ap (λ o. option_bind o (pair first)) (exact_digits-lower 2 first.1)
        ∙ bind-map (pair first) lower_rest (λ second. Option.map lower_rest (pair first second))
            (λ second. refl) (exact_digits 2 first.1)
        ∙ map-bind lower_rest (pair first) (exact_digits 2 first.1) in
    ap (λ o. option_bind o button) (exact_digits-lower 3 t)
    ∙ bind-map button lower_rest (λ first. Option.map lower_rest (button first)) step
        (exact_digits 3 t)
    ∙ map-bind lower_rest button (exact_digits 3 t)

close-lower :
    (p : Pattern) (x : List Text × Text) → p.ignore_case ≡ true → close p (lower_rest x) ≡ close p x
close-lower p (gs, rest) i =
    ap (λ o. option_bind o (λ e. if at_end e then some gs else none))
      (match_literal-lower p.ignore_case p.tail rest i)
    ∙ bind-map (λ e. if at_end e then some gs else none) (map lower)
        (λ e. if at_end e then some gs else none)
        (λ e. ap (λ b. if b then some gs else none) (at_end-lower e))
        (match_literal p.ignore_case p.tail rest)

match_pattern-lower :
    (p : Pattern) (t : Text)
    → p.ignore_case ≡ true
    → match_pattern p (map lower t) ≡ match_pattern p t
unfolding match_pattern
match_pattern-lower p t i =
    ap (λ o. option_bind o (λ r. option_bind (match_groups p.groups r) (close p)))
      (match_literal-lower p.ignore_case p.head t i)
    ∙ bind-map (λ r. option_bind (match_groups p.groups r) (close p)) (map lower)
        (λ r. option_bind (match_groups p.groups r) (close p))
        (λ r.
          ap (λ o. option_bind o (close p)) (match_groups-lower p.groups r)
          ∙ bind-map (close p) lower_rest (close p) (λ x. close-lower p x i)
              (match_groups p.groups r))
        (match_literal p.ignore_case p.head t)

-- Every rule has the flag.
abbrev all_ignore_case : List Rule → Bool
all_ignore_case [] = true
all_ignore_case ((p, transform) ∷ rs) = p.ignore_case && all_ignore_case rs

classify_by-lower :
    (rs : List Rule) (t : Text)
    → all_ignore_case rs ≡ true
    → classify_by rs (map lower t) ≡ classify_by rs t
unfolding classify_by
classify_by-lower [] t i = refl
classify_by-lower ((p, transform) ∷ rs) t i =
    ap (first_match transform (classify_by rs (map lower t)))
      (match_pattern-lower p t (ground arith))
    ∙ ap (λ r. first_match transform r (match_pattern p t)) (classify_by-lower rs t (ground arith))

-- Two unique ids that differ in the case of letters only are classified alike, the new suffix included.
pub classify-lower : (s t : Text) → map lower s ≡ map lower t → classify s ≡ classify t
unfolding classify
classify-lower s t h =
    sym (classify_by-lower rules s refl) ∙ ap (classify_by rules) h ∙ classify_by-lower rules t refl
