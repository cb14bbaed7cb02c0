-- ===== src/Parsers/Elg/Headers.antt =====
-- custom_components/centralite/parsers/elg.py: a section header, and what the three passes make of it.
use centralite_ha.Text.Strip.{rstrip-cons}
use centralite_ha.Base.{ℕ, ◌+◌, ◌<◌, true, false, none, some, List, [], ◌∷◌, ◌++◌, ◌≡◌, refl, arith}
use centralite_ha.Text.{Text, is_space, is_break, is_empty, strip, lstrip}
use centralite_ha.Text.Number.{pad}
use centralite_ha.Text.Number.Laws.{pad_three}
use centralite_ha.Text.Match.{is_digit}
use centralite_ha.Parsers.Elg.Sections.{
  each_line, all_blank, section_body, section_match, section_of, load_header,
}
use centralite_ha.Parsers.Elg.Slots.{Slots, elg_line, open_section}
use centralite_ha.Parsers.Elg.Referenced.{References, reference_line, flush_button}
use centralite_ha.Parsers.Elg.Switches.{Named, switch_line, flush}
use centralite_ha.Parsers.Elg.Lines.{all_unbroken, rstrip_cr_unbroken, is_unbroken}

-- [body]
abbrev pub bracketed : Text → Text
bracketed body = b'[' ∷ body ++ b']' ∷ []

all_blank-bracket : (t : Text) → all_blank (t ++ b']' ∷ []) ≡ false
unfolding all_blank is_space
all_blank-bracket [] = refl
all_blank-bracket (c ∷ t) = ground (arith, all_blank-bracket t)

section_body-bracket : (c : ℕ) (t : Text) → section_body (c ∷ t ++ b']' ∷ []) ≡ some (c ∷ t)
unfolding section_body
section_body-bracket c [] = refl
section_body-bracket c (d ∷ t) = rw (all_blank-bracket t, section_body-bracket d t) (ground arith)

-- A text that begins and ends with characters that are no blanks.
abbrev pub IsBody : Text → Type 0
IsBody body = (is_empty body ≡ false) × (strip body ≡ body)

pub section_of-bracketed : (body : Text) → IsBody body → section_of (bracketed body) ≡ some body
unfolding section_match
section_of-bracketed [] (full, s) = cc
section_of-bracketed (c ∷ t) (full, s) = rw (section_body-bracket c t, s) refl

strip-bracketed : (body : Text) → is_empty (strip (bracketed body)) ≡ false
unfolding strip lstrip is_space
strip-bracketed body = rw (rstrip-cons b'[' (body ++ b']' ∷ []) refl) refl

pub elg_line-bracketed :
    (body : Text) (s : Slots)
    → IsBody body
    → elg_line (bracketed body) s ≡ open_section (load_header body) body s
unfolding elg_line
elg_line-bracketed body s b = rw (strip-bracketed body, section_of-bracketed body b) refl

pub reference_line-bracketed :
    (body : Text) (r : References)
    → IsBody body
    → reference_line (bracketed body) r
      ≡ record (flush_button r) { section = some body; fields = [] }
unfolding reference_line
reference_line-bracketed body r b = rw (reference_line, section_of-bracketed body b) refl

pub switch_line-bracketed :
    (body : Text) (r : Named)
    → IsBody body
    → switch_line (bracketed body) r ≡ record (flush r) { section = some body; name = none }
unfolding switch_line
switch_line-bracketed body r b = rw (section_of-bracketed body b) refl

pub unbroken-append :
    (s t : Text) → is_unbroken s ≡ true → is_unbroken t ≡ true → is_unbroken (s ++ t) ≡ true
unbroken-append [] t h k = k
unbroken-append (c ∷ s) t h k = ground (arith, unbroken-append s t)

pub digit : (k : ℕ) → k < 10 → (is_digit (b'0' + k) ≡ true) × (is_break (b'0' + k) ≡ false)
digit k h = ground arith

pub pad_three-unbroken : (n : ℕ) → n < 1000 → is_unbroken (pad 3 n) ≡ true
pad_three-unbroken n h = rw (pad_three n h) (ground arith)

-- The loop over lines that end in no CR.
abbrev pub run {ℓ} : {S : Type ℓ} → (Text → S → S) → List Text → S → S
run body [] s = s
run body (l ∷ ls) s = run body ls (body l s)

pub each_line-run :
    {S : Type 0} (body : Text → S → S) (ls : List Text) (s : S)
    → all_unbroken ls ≡ true
    → each_line body ls s ≡ run body ls s
unfolding each_line
each_line-run body [] s h = refl
each_line-run body (l ∷ ls) s h =
    rw (rstrip_cr_unbroken l (ground arith)) (each_line-run body ls (body l s) (ground arith))

pub run-append :
    {S : Type 0} (body : Text → S → S) (ls ms : List Text) (s : S)
    → run body (ls ++ ms) s ≡ run body ms (run body ls s)
run-append body [] ms s = refl
run-append body (l ∷ ls) ms s = run-append body ls ms (body l s)

pub all_unbroken-append :
    (ls ms : List Text)
    → all_unbroken ls ≡ true
    → all_unbroken ms ≡ true
    → all_unbroken (ls ++ ms) ≡ true
all_unbroken-append [] ms h k = k
all_unbroken-append (l ∷ ls) ms h k = ground (arith, all_unbroken-append ls ms)
