-- ===== src/Text/Number.antt =====
-- `int(s)`, `int(s, 16)` and the formats `{n:0wd}` of Python, on ASCII text.
pub mod Laws
pub mod Padded
pub mod Shown
pub mod Injective
use centralite_ha.Base.{
  ℕ, zero, suc, ◌+◌, ◌-◌, ◌*◌, ◌/◌, ◌%◌, ℤ, pos, negsuc, neg, Bool, true, false, ◌&&◌, ◌||◌, Option,
  none, some, List, [], ◌∷◌, ◌++◌, map, ◌==◌, leb, ltb, length, replicate, if◌then◌else◌, ◌≡◌, refl,
}
use mathlib.Core.Option
use centralite_ha.Text.{Text, codes, strip}

-- The value of a digit in a base up to sixteen.
unfoldable pub digit_value : ℕ → ℕ → Option ℕ
digit_value base c =
    if leb b'0' c && leb c b'9' && ltb (c - b'0') base
    then some (c - b'0')
    else if leb b'a' c && leb c b'f' && ltb (c - b'a' + 10) base
    then some (c - b'a' + 10)
    else if leb b'A' c && leb c b'F' && ltb (c - b'A' + 10) base
    then some (c - b'A' + 10)
    else none

-- Digits with single underscores between them; `after` says that a digit stands before.
unfoldable pub scan_digits : ℕ → ℕ → Bool → Text → Option ℕ
unfolding digit_value
scan_digits base acc after [] = if after then some acc else none
scan_digits base acc after (c ∷ s) =
    if c == b'_'
    then (elim after [ true ↦ scan_digits base acc false s | false ↦ none ])
    else elim (digit_value base c) [
      | none ↦ none
      | some d ↦ scan_digits base (acc * base + d) true s
    ]

-- `0x` or `0X`, and one underscore behind it, may stand before digits in base 16.
unfoldable pub drop_prefix : ℕ → Text → Text
drop_prefix base (z ∷ x ∷ u ∷ s) =
    if base == 16 && z == b'0' && (x == b'x' || x == b'X')
    then (if u == b'_' then s else u ∷ s)
    else z ∷ x ∷ u ∷ s
drop_prefix base s = s

unfoldable pub scan_unsigned : ℕ → Text → Option ℕ
unfolding scan_digits drop_prefix
scan_unsigned base s = scan_digits base 0 false (drop_prefix base s)

unfoldable pub scan_signed : ℕ → Text → Option ℤ
unfolding scan_unsigned
scan_signed base [] = none
scan_signed base (c ∷ s) =
    if c == b'-'
    then Option.map neg (scan_unsigned base s)
    else if c == b'+'
    then Option.map pos (scan_unsigned base s)
    else Option.map pos (scan_unsigned base (c ∷ s))

-- The blanks that int skips; the separators 28 to 31, which `strip` takes off, it does not.
abbrev pub is_int_space : ℕ → Bool
is_int_space c = (leb 9 c && leb c 13) || c == 32

unfoldable pub drop_spaces : Text → Text
drop_spaces [] = []
drop_spaces (c ∷ s) = let rest = drop_spaces s in if is_int_space c then rest else c ∷ s

unfoldable pub drop_last_spaces : Text → Text
drop_last_spaces [] = []
drop_last_spaces (c ∷ s) = elim (drop_last_spaces s) [
  | [] ↦ if is_int_space c then [] else c ∷ []
  | d ∷ r ↦ c ∷ d ∷ r
]

-- int(s, base), `none` for its ValueError.
unfoldable pub int_base : ℕ → Text → Option ℤ
unfolding scan_signed drop_spaces drop_last_spaces
int_base base s = scan_signed base (drop_last_spaces (drop_spaces s))

-- int(s)
unfoldable pub int : Text → Option ℤ
unfolding int_base
int = int_base 10

unfoldable pub show_digits : ℕ → ℕ → Text → Text
show_digits zero n out = out
show_digits (suc fuel) n out =
    let rest = show_digits fuel (n / 10) ((b'0' + n % 10) ∷ out) in
    if ltb n 10 then (b'0' + n) ∷ out else rest

-- str(n), for a number that is not negative; n + 1 rounds are enough.
unfoldable pub show : ℕ → Text
unfolding show_digits
show n = show_digits (suc n) n []

-- str(z)
unfoldable pub show_int : ℤ → Text
unfolding show
show_int (pos n) = show n
show_int (negsuc n) = b'-' ∷ show (n + 1)

-- f"{n:0wd}": zeros up to the width w, behind a minus sign.
unfoldable pub pad : ℕ → ℕ → Text
unfolding show
pad w n = replicate (w - length (show n)) b'0' ++ show n

unfoldable pub pad_int : ℕ → ℤ → Text
unfolding pad
pad_int w (pos n) = pad w n
pad_int w (negsuc n) = b'-' ∷ pad (w - 1) (n + 1)

int_test :
    (int (codes " 42 ") ≡ some (pos 42))
    × (int (codes "-7") ≡ some (negsuc 6))
    × (int (codes "1_0") ≡ some (pos 10))
    × (int (codes "1__0") ≡ none)
    × (int (codes "") ≡ none)
    × (int_base 16 (codes "fF") ≡ some (pos 255))
    × (int_base 16 (codes "0x") ≡ none)
    × (int_base 16 (codes "+1") ≡ some (pos 1))
unfolding int
int_test = (refl, refl, refl, refl, refl, refl, refl, refl)

pad_test :
    (pad 3 7 ≡ codes "007") × (pad 3 1234 ≡ codes "1234") × (pad_int 3 (negsuc 0) ≡ codes "-01")
unfolding pad_int
pad_test = (refl, refl, refl)
