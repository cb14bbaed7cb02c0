-- ===== src/Migrate.antt =====
-- custom_components/centralite/migrate.py: the classification of the unique ids of version 1. Its
-- regular expressions all read: a literal, digits, a literal, the end. A unique
-- id is ASCII, and its numbers are within Python's limit on `int`.
pub mod Case
pub mod Adoption
pub mod Registry
pub mod Effect
pub mod Rows
pub mod Candidate
pub mod Once
pub mod Again
pub mod Tests
use centralite_ha.Base.{
  ℕ, zero, suc, ◌+◌, ℤ, pos, Bool, true, false, ◌&&◌, Option, none, some, List, [], ◌∷◌, ◌++◌, leb,
  ◌==◌, if◌then◌else◌, option_bind,
}
use mathlib.Core.Option
use centralite_ha.Text.{Text, codes}
use centralite_ha.Text.Number.{pad_int}
use centralite_ha.Text.Match.{is_digit, add_digit, span_digits, at_end, group_value}

-- MigrationResult: its action, with the new suffix where there is one.
pub data MigrationResult : Type 0 where
  migrate : Text → MigrationResult
  delete skip : MigrationResult

abbrev pub lower : ℕ → ℕ
lower c = if leb b'A' c && leb c b'Z' then c + 32 else c

-- One letter, with re.IGNORECASE in any case.
abbrev pub same_letter : Bool → ℕ → ℕ → Bool
same_letter ignore_case p c = if ignore_case then lower p == lower c else p == c

-- What is left of a text behind a literal.
unfoldable pub match_literal : Bool → Text → Text → Option Text
match_literal ignore_case [] t = some t
match_literal ignore_case (p ∷ ps) [] = none
match_literal ignore_case (p ∷ ps) (c ∷ t) =
    let rest = match_literal ignore_case ps t in if same_letter ignore_case p c then rest else none

-- \d{n}
unfoldable pub exact_digits : ℕ → Text → Option (Text × Text)
exact_digits zero t = some ([], t)
exact_digits (suc n) [] = none
exact_digits (suc n) (c ∷ t) =
    let rest = exact_digits n t in if is_digit c then Option.map (add_digit c) rest else none

-- The groups of a pattern: (\d+), or (\d{3})(\d{2}).
pub data Groups : Type 0 where
  number device_button : Groups

abbrev pub one_group : Text × Text → Option (List Text × Text)
one_group ([], rest) = none
one_group (d ∷ ds, rest) = some ((d ∷ ds) ∷ [], rest)

unfoldable pub match_groups : Groups → Text → Option (List Text × Text)
unfolding span_digits exact_digits
match_groups number t = one_group (span_digits t)
match_groups device_button t = option_bind (exact_digits 3 t) (λ first.
    option_bind (exact_digits 2 first.1) (λ second. some (first.0 ∷ second.0 ∷ [], second.1)))

pub record Pattern : Type 0 where
  pub head : Text
  pub groups : Groups
  pub tail : Text
  pub ignore_case : Bool

abbrev pub close : Pattern → List Text × Text → Option (List Text)
close p (gs, rest) =
    option_bind (match_literal p.ignore_case p.tail rest) (λ e. if at_end e then some gs else none)

unfoldable pub match_pattern : Pattern → Text → Option (List Text)
unfolding match_literal match_groups
match_pattern p t =
    option_bind (match_literal p.ignore_case p.head t)
      (λ r. option_bind (match_groups p.groups r) (close p))

-- f"{label}{int(m.group(1)):03d}"
abbrev pub numbered : Text → List Text → Text
numbered label [] = label
numbered label (g ∷ gs) = label ++ pad_int 3 (group_value g)

abbrev pub button_suffix : List Text → Text
button_suffix (d ∷ b ∷ gs) =
    codes "button_" ++ (pad_int 3 (group_value d) ++ (codes "_" ++ pad_int 2 (group_value b)))
button_suffix gs = codes "button_"

-- A rule without a transform deletes.
abbrev pub Rule : Type 0
Rule = Pattern × Option (List Text → Text)

abbrev pub number_rule : Text → Text → Option (List Text → Text) → Rule
number_rule head tail transform =
    (record { head = head; groups = number; tail = tail; ignore_case = true }, transform)

-- _RULES
abbrev pub rules : List Rule
rules =
    number_rule (codes "elegance.L") [] (some (numbered (codes "load_")))
    ∷ number_rule (codes "elegance.SW") [] (some (numbered (codes "switch_")))
    ∷ number_rule (codes "elegance.scene") (codes "OFF") none
    ∷ number_rule (codes "elegance.scene") (codes "ON") none
    ∷ number_rule (codes "elegance.scene") [] none
    ∷ number_rule (codes "jetstream.JSL") [] (some (numbered (codes "load_")))
    ∷ (
      record {
        head = codes "jetstream.JSSW";
        groups = device_button;
        tail = [];
        ignore_case = true;
      },
      some button_suffix,
    )
    ∷ number_rule (codes "jetstream.SW") [] (some (numbered (codes "switch_")))
    ∷ number_rule (codes "jetstream.scene") (codes "OFF") none
    ∷ number_rule (codes "jetstream.scene") (codes "ON") none
    ∷ number_rule (codes "jetstream.scene") [] none
    ∷ []

abbrev pub apply_rule : Option (List Text → Text) → List Text → MigrationResult
apply_rule none gs = delete
apply_rule (some transform) gs = migrate (transform gs)

-- `continue` where the pattern does not match; `rest` is the verdict of the rules behind.
abbrev pub first_match :
    Option (List Text → Text) → MigrationResult → Option (List Text) → MigrationResult
first_match transform rest none = rest
first_match transform rest (some gs) = apply_rule transform gs

unfoldable pub classify_by : List Rule → Text → MigrationResult
unfolding match_pattern
classify_by [] t = skip
classify_by ((p, transform) ∷ rest) t =
    first_match transform (classify_by rest t) (match_pattern p t)

unfoldable pub classify : Text → MigrationResult
unfolding classify_by
classify = classify_by rules
