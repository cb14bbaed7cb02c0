-- ===== src/Parsers/Elg/Lines.antt =====
-- custom_components/centralite/parsers/elg.py: the lines of a printed load section, one by one.
use centralite_ha.Text.Strip.{rstrip-cons, rstrip-end}
use centralite_ha.Base.{
  ℕ, ℤ, Bool, true, false, not, ◌&&◌, some, List, [], ◌∷◌, ◌++◌, ◌≡◌, refl, ap, ◌∙◌, arith, ◌==◌,
  if◌then◌else◌,
}
use centralite_ha.Text.{
  Text, codes, is_space, is_break, strip, lstrip, rstrip, rstrip_cr, lines_after, splitlines,
}
use centralite_ha.Text.Match.{is_digit, has_char, partition, group_value}
use centralite_ha.Dict.{put, int_eq}
use centralite_ha.Parsers.Elg.Sections.{section_match, load_header}
use centralite_ha.Parsers.Elg.Slots.{Slots, open_load, field_line, elg_line}

-- No character of the text ends a line.
abbrev pub is_unbroken : Text → Bool
is_unbroken [] = true
is_unbroken (c ∷ t) = not (is_break c) && is_unbroken t

lines_after-line :
    (l rest : Text)
    → is_unbroken l ≡ true
    → lines_after false (l ++ 13 ∷ 10 ∷ rest) ≡ l ∷ lines_after false rest
unfolding lines_after
lines_after-line [] rest h = refl
lines_after-line (c ∷ l) rest h = ground (arith, lines_after-line l rest)

-- Every line ended by CRLF.
unfoldable pub crlf_lines : List Text → Text
crlf_lines [] = []
crlf_lines (l ∷ ls) = l ++ 13 ∷ 10 ∷ crlf_lines ls

abbrev pub all_unbroken : List Text → Bool
all_unbroken [] = true
all_unbroken (l ∷ ls) = is_unbroken l && all_unbroken ls

pub splitlines-crlf_lines :
    (ls : List Text) → all_unbroken ls ≡ true → splitlines (crlf_lines ls) ≡ ls
unfolding splitlines crlf_lines lines_after
splitlines-crlf_lines [] h = refl
splitlines-crlf_lines (l ∷ ls) h =
    lines_after-line l (crlf_lines ls) (ground arith)
    ∙ ap (◌∷◌ l) (splitlines-crlf_lines ls (ground arith))

pub rstrip_cr_unbroken : (l : Text) → is_unbroken l ≡ true → rstrip_cr l ≡ l
unfolding rstrip_cr
rstrip_cr_unbroken [] h = refl
rstrip_cr_unbroken (c ∷ []) h = ground arith
rstrip_cr_unbroken (c ∷ d ∷ l) h = rw (rstrip_cr_unbroken (d ∷ l) (ground arith)) refl

-- What a digit is not.
pub digit_space : (x : ℕ) → is_digit x ≡ true → is_space x ≡ false
unfolding is_space
digit_space x h = ground arith

digit_bracket : (x : ℕ) → is_digit x ≡ true → (x == b']') ≡ false
digit_bracket x h = ground arith

-- The line [LOAD xyz].
abbrev pub load_line : ℕ → ℕ → ℕ → Text
load_line x y z = codes "[LOAD " ++ x ∷ y ∷ z ∷ codes "]"

section_match-load_line :
    (x y z : ℕ)
    → is_digit x ≡ true
    → is_digit y ≡ true
    → is_digit z ≡ true
    → section_match (load_line x y z) ≡ some (codes "LOAD " ++ x ∷ y ∷ z ∷ [])
unfolding section_match
section_match-load_line x y z p q r =
    rw (digit_bracket x p, digit_bracket y q, digit_bracket z r) refl

pub strip-load :
    (x y z : ℕ)
    → is_digit z ≡ true
    → strip (codes "LOAD " ++ x ∷ y ∷ z ∷ []) ≡ codes "LOAD " ++ x ∷ y ∷ z ∷ []
unfolding strip lstrip
strip-load x y z r = rstrip-end (codes "LOAD " ++ x ∷ y ∷ []) z (digit_space z r)

pub load_header-load :
    (x y z : ℕ)
    → is_digit x ≡ true
    → is_digit y ≡ true
    → is_digit z ≡ true
    → load_header (codes "LOAD " ++ x ∷ y ∷ z ∷ []) ≡ some (group_value (x ∷ y ∷ z ∷ []))
unfolding load_header lstrip
load_header-load x y z p q r = rw (digit_space x p) (rw (p, q, r) refl)

strip-load_line : (x y z : ℕ) → strip (load_line x y z) ≡ load_line x y z
unfolding strip lstrip rstrip
strip-load_line x y z = refl

pub elg_line-load_line :
    (x y z : ℕ) (s : Slots)
    → is_digit x ≡ true
    → is_digit y ≡ true
    → is_digit z ≡ true
    → elg_line (load_line x y z) s ≡ open_load (group_value (x ∷ y ∷ z ∷ [])) s
unfolding elg_line
elg_line-load_line x y z s p q r =
    rw
      (
        strip-load_line x y z,
        section_match-load_line x y z p q r,
        strip-load x y z r,
        load_header-load x y z p q r,
      )
      refl

-- A text without a blank at either end.
abbrev pub IsStripped : Text → Type 0
IsStripped t = (lstrip t ≡ t) × (rstrip t ≡ t)

pub strip-field :
    (name : Text) → IsStripped name → strip (codes "NAME=" ++ name) ≡ codes "NAME=" ++ name
unfolding strip lstrip is_space
strip-field name (l, r) =
    rw
      (
        rstrip-cons b'N' (codes "AME=" ++ name) refl,
        rstrip-cons b'A' (codes "ME=" ++ name) refl,
        rstrip-cons b'M' (codes "E=" ++ name) refl,
        rstrip-cons b'E' (codes "=" ++ name) refl,
        rstrip-cons b'=' name refl,
        r,
      )
      refl

pub strip-stripped : (t : Text) → IsStripped t → strip t ≡ t
unfolding strip
strip-stripped t (l, r) = rw l r

-- The line NAME=name.
pub elg_line-name :
    (name : Text) (n : ℤ) (s : Slots)
    → IsStripped name
    → s.current_load ≡ some n
    → elg_line (codes "NAME=" ++ name) s ≡ record s { loads = put s.loads n name }
unfolding elg_line section_match has_char partition strip
elg_line-name name n s h c = rw (strip-field name h) (
    ap (λ current. field_line current (codes "NAME=" ++ name) s) c
    ∙ ap (λ t. record s { loads = put s.loads n t }) (strip-stripped name h))

pub elg_line-dimmer :
    (dimmer : Bool) (n : ℤ) (s : Slots)
    → s.current_load ≡ some n
    → elg_line (codes "DIMMER=" ++ (if dimmer then codes "Y" else codes "N")) s
      ≡ record s { dimmable = put s.dimmable n dimmer }
unfolding elg_line section_match has_char partition strip
elg_line-dimmer true n s c = rw c refl
elg_line-dimmer false n s c = rw c refl
