-- ===== src/Parsers/Elg/PrintSwitches.antt =====
-- custom_components/centralite/parsers/elg.py: _named_switches over a printed file.
use centralite_ha.Text.Strip.{strip-cons}
use centralite_ha.Base.{
  ℕ, ◌+◌, ◌*◌, ℤ, pos, true, false, none, some, List, [], ◌∷◌, ◌++◌, ◌≡◌, refl, ap, ◌∙◌, arith,
  ◌==◌, All, if◌then◌else◌, within_one,
}
use centralite_ha.Text.{Text, codes, strip, is_space, is_empty, or_none}
use centralite_ha.Text.Match.{span_digits, partition}
use centralite_ha.Dict.{Dict, put, int_eq}
use centralite_ha.Parsers.Elg.Sections.{section_match, button_header, section_is_button, is_button}
use centralite_ha.Parsers.Elg.Switches.{Named, switch_line, flush, flush_named}
use centralite_ha.Parsers.Elg.Lines.{IsStripped, strip-field, strip-stripped}
use centralite_ha.Parsers.Elg.Headers.{switch_line-bracketed, run, run-append}
use centralite_ha.Parsers.Elg.Bodies.{
  load_body, scene_body, button_body, load_body-IsBody, scene_body-IsBody, button_body-IsBody,
  button_header-body, is_button-body,
}
use centralite_ha.Parsers.Elg.Print.{
  Button, Part, load_part, scene_part, button_part, IsPart, IsButton, member_lines, part_lines,
  file_lines, switches_of,
}

-- A line that is no header, in a section that is no button.
quiet :
    (c : ℕ) (t : Text) (r : Named)
    → (c == b'[') ≡ false
    → section_is_button r.section ≡ false
    → switch_line (c ∷ t) r ≡ r
unfolding switch_line section_match
quiet c t r h n = rw (h, n) refl

member_lines-quiet :
    (ms : List (ℕ × Text)) (r : Named)
    → section_is_button r.section ≡ false
    → run switch_line (member_lines ms) r ≡ r
unfolding member_lines
member_lines-quiet [] r n = refl
member_lines-quiet (m ∷ ms) r n =
    ap (run switch_line (member_lines ms)) (quiet b'L' _ r refl n) ∙ member_lines-quiet ms r n

abbrev in_body : Text → Named → Named
in_body body r = record (flush r) { section = some body; name = none }

abbrev switches_after : Part → Dict ℤ Text → Dict ℤ Text
switches_after p d = switches_of (p ∷ []) d

-- Outside a button nothing is left to add.
body-flush : (body : Text) (r : Named) → (flush (in_body body r)).switches ≡ (flush r).switches
unfolding flush
body-flush body r = refl

name-read :
    (name : Text) → IsStripped name → strip (partition b'=' (codes "NAME=" ++ name)).1 ≡ name
unfolding partition
name-read name e = strip-stripped name e

-- A line that is no header and gives no name.
other_line :
    (c : ℕ) (t : Text) (r : Named)
    → (c == b'[') ≡ false
    → is_space c ≡ false
    → (c == b'N') ≡ false
    → switch_line (c ∷ t) r ≡ r
unfolding switch_line section_match
other_line c t r h blank n = rw (h, strip-cons c t blank, n) (ground arith)

button_name_line-read :
    (name body : Text) (r : Named)
    → IsStripped name
    → is_button body ≡ true
    → switch_line (codes "NAME=" ++ name) (in_body body r)
      ≡ record (in_body body r) { name = or_none name }
unfolding switch_line section_match
button_name_line-read name body r e b =
    rw (strip-field name e, b)
      (ap (λ t. record (in_body body r) { name = or_none t }) (name-read name e))

named-flush :
    (b : Button) (d : Dict ℤ Text)
    → IsButton b
    → flush_named (some (button_body b.letter b.number)) (or_none b.name) d
      ≡ switches_after (button_part b) d
named-flush b d (l, lo, hi, e, g) = by_name b.name
  where
    by_name :
        (name : Text)
        → flush_named (some (button_body b.letter b.number)) (or_none name) d
          ≡ (if is_empty name then d else put d (pos (b.letter * 24 + b.number)) name)
    by_name [] = refl
    by_name (c ∷ t) =
        let within : within_one 24 (pos b.number) ≡ true = ground arith in
        rw (button_header-body b.letter b.number l hi, within) refl

button-switches :
    (b : Button) (r : Named)
    → IsButton b
    → (flush (run switch_line (part_lines (button_part b)) r)).switches
      ≡ switches_after (button_part b) (flush r).switches
unfolding is_space flush
button-switches b r (l, lo, hi, (e, u), g) =
    let body : Text = button_body b.letter b.number in
    let named : Named = record (in_body body r) { name = or_none b.name } in
    let lines : run switch_line (part_lines (button_part b)) r ≡ named =
      rw
        (
          switch_line-bracketed body r (button_body-IsBody b.letter b.number l hi),
          button_name_line-read b.name body r e (is_button-body b.letter b.number l hi),
          other_line b'A' _ named refl refl refl,
          other_line b'L' _ named refl refl refl,
          other_line b'#' _ named refl refl refl,
        )
        refl in
    ap (λ (x : Named). (flush x).switches) lines
    ∙ named-flush b (flush r).switches (l, lo, hi, (e, u), g)

part-switches :
    (p : Part) (r : Named)
    → IsPart p
    → (flush (run switch_line (part_lines p) r)).switches ≡ switches_after p (flush r).switches
unfolding button_header span_digits
part-switches (load_part s) r (n, e, u) =
    let body : Text = load_body s.number in
    let lines : run switch_line (part_lines (load_part s)) r ≡ in_body body r =
      rw
        (
          switch_line-bracketed body r (load_body-IsBody s.number n),
          quiet b'N' (codes "AME=" ++ s.name) (in_body body r) refl refl,
          quiet b'D' _ (in_body body r) refl refl,
        )
        refl in
    ap (λ (x : Named). (flush x).switches) lines ∙ body-flush body r
part-switches (scene_part s) r (n, (e, u), full, ms) =
    let body : Text = scene_body s.number s.name in
    let lines : run switch_line (part_lines (scene_part s)) r ≡ in_body body r =
      ap (run switch_line (member_lines s.loads))
        (switch_line-bracketed body r (scene_body-IsBody s.number s.name e full))
      ∙ member_lines-quiet s.loads (in_body body r) refl in
    ap (λ (x : Named). (flush x).switches) lines ∙ body-flush body r
part-switches (button_part b) r h = button-switches b r h

pub file_lines-switches :
    (ps : List Part) (r : Named)
    → All IsPart ps
    → (flush (run switch_line (file_lines ps) r)).switches ≡ switches_of ps (flush r).switches
unfolding file_lines
file_lines-switches [] r h = refl
file_lines-switches (p ∷ ps) r (is, h) =
    ap (λ (x : Named). (flush x).switches) (run-append switch_line (part_lines p) (file_lines ps) r)
    ∙ file_lines-switches ps (run switch_line (part_lines p) r) h
    ∙ ap (switches_of ps) (part-switches p r is)
    ∙ split p
  where
    split :
        (q : Part)
        → switches_of ps (switches_after q (flush r).switches)
          ≡ switches_of (q ∷ ps) (flush r).switches
    split (load_part s) = refl
    split (scene_part s) = refl
    split (button_part b) = refl
