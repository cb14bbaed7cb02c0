-- ===== src/Text.antt =====
-- Python's `str` as its code points, and the methods of `str` that the code calls. The character
-- classes are those of ASCII: a line from the bridge has no other character but U+FFFD.
pub mod Number
pub mod Match
pub mod Strip
use Prim.Native.Char.{code}
use Prim.Native.String.{String}
use centralite_ha.Base.{
  ℕ, zero, suc, ◌-◌, Bool, true, false, Option, none, some, ◌&&◌, ◌||◌, List, [], ◌∷◌, ◌==◌, leb,
  take, drop, if◌then◌else◌, ◌≡◌, refl, arith,
}

abbrev pub Text : Type 0
Text = List ℕ

-- A literal of the source.
abbrev pub codes : String → Text
codes String.[] = []
codes (String.◌∷◌ c s) = code c ∷ codes s

-- `str.isspace` on ASCII: tab to carriage return, the four separators, the blank.
unfoldable pub is_space : ℕ → Bool
is_space c = (leb 9 c && leb c 13) || (leb 28 c && leb c 32)

-- s == t
abbrev pub text_eq : Text → Text → Bool
text_eq [] [] = true
text_eq [] (y ∷ ys) = false
text_eq (x ∷ xs) [] = false
text_eq (x ∷ xs) (y ∷ ys) = x == y && text_eq xs ys

-- s.startswith(p)
abbrev pub starts_with : Text → Text → Bool
starts_with s [] = true
starts_with [] (p ∷ ps) = false
starts_with (c ∷ s) (p ∷ ps) = c == p && starts_with s ps

abbrev pub is_empty : Text → Bool
is_empty [] = true
is_empty (c ∷ t) = false

-- s or None
abbrev pub or_none : Text → Option Text
or_none [] = none
or_none (c ∷ t) = some (c ∷ t)

-- s[start:stop]
abbrev pub slice : ℕ → ℕ → Text → Text
slice start stop s = take (stop - start) (drop start s)

unfoldable pub lstrip : Text → Text
unfolding is_space
lstrip [] = []
lstrip (c ∷ s) = let rest = lstrip s in if is_space c then rest else c ∷ s

unfoldable pub rstrip : Text → Text
unfolding is_space
rstrip [] = []
rstrip (c ∷ s) = elim (rstrip s) [ [] ↦ if is_space c then [] else c ∷ [] | d ∷ r ↦ c ∷ d ∷ r ]

-- s.strip()
unfoldable pub strip : Text → Text
unfolding lstrip rstrip
strip s = rstrip (lstrip s)

-- s.splitlines(); `after_cr` says that the line before ended in CR.
abbrev pub is_break : ℕ → Bool
is_break c = (leb 10 c && leb c 13) || (leb 28 c && leb c 30)

abbrev pub cons_head : ℕ → List Text → List Text
cons_head c [] = (c ∷ []) ∷ []
cons_head c (l ∷ ls) = (c ∷ l) ∷ ls

unfoldable pub lines_after : Bool → Text → List Text
lines_after after_cr [] = []
lines_after after_cr (c ∷ t) =
    let behind = lines_after (c == 13) t in
    let within = lines_after false t in
    if after_cr && c == 10 then within else if is_break c then [] ∷ behind else cons_head c within

unfoldable pub splitlines : Text → List Text
unfolding lines_after
splitlines = lines_after false

-- s.split(c)
unfoldable pub split : ℕ → Text → List Text
split c [] = [] ∷ []
split c (d ∷ t) = let rest = split c t in if c == d then [] ∷ rest else cons_head d rest

-- s.rstrip("\r")
unfoldable pub rstrip_cr : Text → Text
rstrip_cr [] = []
rstrip_cr (c ∷ t) = elim (rstrip_cr t) [ [] ↦ if c == 13 then [] else c ∷ [] | d ∷ r ↦ c ∷ d ∷ r ]

-- s.upper()
abbrev pub upper : ℕ → ℕ
upper c = if leb b'a' c && leb c b'z' then c - 32 else c

splitlines_test : splitlines (codes "a\r\n\nb\r") ≡ codes "a" ∷ [] ∷ codes "b" ∷ []
unfolding splitlines
splitlines_test = refl

strip_test : strip (codes " \tGAME RM  ") ≡ codes "GAME RM"
unfolding strip
strip_test = refl
