-- ===== src/Text/Match.antt =====
-- The pieces of the regular expressions of the source, on ASCII text, and `str.partition`.
use centralite_ha.Base.{
  ℕ, ℤ, pos, Bool, true, false, ◌&&◌, Option, none, some, [], ◌∷◌, leb, ◌==◌, if◌then◌else◌,
}
use centralite_ha.Text.{Text, is_space, lstrip}
use centralite_ha.Text.Number.{int}

abbrev pub is_digit : ℕ → Bool
is_digit c = leb b'0' c && leb c b'9'

-- What is left of a text behind a literal.
unfoldable pub after : Text → Text → Option Text
after [] t = some t
after (p ∷ ps) [] = none
after (p ∷ ps) (c ∷ t) = let rest = after ps t in if p == c then rest else none

abbrev pub add_digit : ℕ → Text × Text → Text × Text
add_digit c (ds, rest) = (c ∷ ds, rest)

-- \d*: as many digits as there are. No literal behind one begins with a digit, so a match never has
-- fewer.
unfoldable pub span_digits : Text → Text × Text
span_digits [] = ([], [])
span_digits (c ∷ t) =
    let rest = span_digits t in if is_digit c then add_digit c rest else ([], c ∷ t)

-- (\d+)
abbrev pub some_digits : Text × Text → Option (Text × Text)
some_digits ([], rest) = none
some_digits (d ∷ ds, rest) = some (d ∷ ds, rest)

-- \s+, before something that does not begin with a blank
unfoldable pub skip_blanks : Text → Option Text
unfolding is_space lstrip
skip_blanks [] = none
skip_blanks (c ∷ t) = if is_space c then some (lstrip t) else none

-- `$`, which also stands before a newline that ends the text.
abbrev pub at_end : Text → Bool
at_end [] = true
at_end (c ∷ []) = c == 10
at_end (c ∷ d ∷ t) = false

abbrev pub value_or_zero : Option ℤ → ℤ
value_or_zero none = pos 0
value_or_zero (some z) = z

-- int(m.group(i)); a group of digits is never refused
abbrev pub group_value : Text → ℤ
group_value t = value_or_zero (int t)

-- `c in s`
unfoldable pub has_char : ℕ → Text → Bool
has_char c [] = false
has_char c (d ∷ t) = let rest = has_char c t in if c == d then true else rest

abbrev pub before_cons : ℕ → Text × Text → Text × Text
before_cons d (before, behind) = (d ∷ before, behind)

-- s.partition(c): what stands before the first c and behind it; all of s and nothing without one.
unfoldable pub partition : ℕ → Text → Text × Text
partition c [] = ([], [])
partition c (d ∷ t) = let rest = partition c t in if c == d then ([], t) else before_cons d rest

-- s.isdigit()
unfoldable pub all_digits : Text → Bool
all_digits [] = true
all_digits (c ∷ t) = let rest = all_digits t in if is_digit c then rest else false

abbrev pub is_number : Text → Bool
is_number [] = false
is_number (c ∷ t) = all_digits (c ∷ t)
