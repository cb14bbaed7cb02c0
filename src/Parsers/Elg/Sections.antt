-- ===== src/Parsers/Elg/Sections.antt =====
-- custom_components/centralite/parsers/elg.py: the headers of the sections, and the loop over the lines.
use centralite_ha.Base.{
  ℕ, ◌-◌, ℤ, Bool, true, false, ◌&&◌, Option, none, some, List, [], ◌∷◌, leb, ◌==◌, if◌then◌else◌,
  option_bind,
}
use mathlib.Core.Option
use centralite_ha.Text.{Text, codes, is_space, strip, rstrip_cr}
use centralite_ha.Text.Match.{after, span_digits, some_digits, skip_blanks, at_end, group_value}
use centralite_ha.Dict.{int_eq, text_key}

unfoldable pub all_blank : Text → Bool
unfolding is_space
all_blank [] = true
all_blank (c ∷ t) = let rest = all_blank t in if is_space c then rest else false

-- ]\s*$
abbrev pub closes : Text → Bool
closes [] = false
closes (c ∷ t) = c == b']' && all_blank t

-- (.+?) before that: the shortest group, of one character at least
unfoldable pub section_body : Text → Option Text
unfolding all_blank
section_body [] = none
section_body (c ∷ t) =
    let rest = section_body t in if closes t then some (c ∷ []) else Option.map (◌∷◌ c) rest

-- SECTION_RE
unfoldable pub section_match : Text → Option Text
unfolding section_body
section_match [] = none
section_match (c ∷ t) = if c == b'[' then section_body t else none

-- section_match.group(1).strip()
abbrev pub section_of : Text → Option Text
section_of line = Option.map strip (section_match line)

abbrev pub ended : Text × Text → Option ℤ
ended (ds, rest) = if at_end rest then some (group_value ds) else none

-- LOAD_HEADER_RE
unfoldable pub load_header : Text → Option ℤ
unfolding after skip_blanks span_digits
load_header section =
    option_bind (after (codes "LOAD") section)
      (λ a. option_bind (skip_blanks a) (λ b. option_bind (some_digits (span_digits b)) ended))

-- -\s*(.+)$ behind the digits; the name is stripped
abbrev pub scene_name : Text × Text → Option (ℤ × Text)
scene_name (ds, []) = none
scene_name (ds, c ∷ []) = none
scene_name (ds, c ∷ d ∷ t) = if c == b'-' then some (group_value ds, strip (d ∷ t)) else none

-- SCENE_HEADER_RE
unfoldable pub scene_header : Text → Option (ℤ × Text)
unfolding after skip_blanks span_digits
scene_header section =
    option_bind (after (codes "SCENE") section)
      (λ a. option_bind (skip_blanks a) (λ b. option_bind (some_digits (span_digits b)) scene_name))

-- BUTTON_HEADER_RE: the place of the letter behind A, and the number
unfoldable pub button_header : Text → Option (ℕ × ℤ)
unfolding span_digits
button_header [] = none
button_header (c ∷ t) =
    let number = option_bind (some_digits (span_digits t)) ended in
    if leb b'A' c && leb c b'P' then Option.map (λ n. (c - b'A', n)) number else none

abbrev pub is_button : Text → Bool
is_button section = elim (button_header section) [ none ↦ false | some b ↦ true ]

abbrev pub dashed : Text × Text → Option ℤ
dashed (ds, []) = none
dashed (ds, c ∷ t) = if c == b'-' then some (group_value ds) else none

-- SCENE_LOAD_RE
unfoldable pub scene_load : Text → Option ℤ
unfolding after span_digits
scene_load line =
    option_bind (after (codes "LOAD_") line) (λ a. option_bind (some_digits (span_digits a)) dashed)

abbrev pub section_is_button : Option Text → Bool
section_is_button none = false
section_is_button (some section) = is_button section

-- for raw_line in text.splitlines()
unfoldable pub each_line {ℓ} : {S : Type ℓ} → (Text → S → S) → List Text → S → S
each_line body [] s = s
each_line body (raw_line ∷ rest) s = each_line body rest (body (rstrip_cr raw_line) s)
