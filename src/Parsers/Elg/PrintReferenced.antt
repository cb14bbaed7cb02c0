-- ===== src/Parsers/Elg/PrintReferenced.antt =====
-- custom_components/centralite/parsers/elg.py: _referenced_load_ids over a printed file.
use centralite_ha.Base.{
  ℕ, ◌<◌, ℤ, pos, true, false, some, List, [], ◌∷◌, ◌++◌, ◌≡◌, refl, ap, ◌∙◌, ◌==◌, All,
}
use centralite_ha.Text.{Text, codes, starts_with}
use centralite_ha.Text.Number.{pad, show}
use centralite_ha.Text.Match.{span_digits}
use centralite_ha.Dict.{Dict, int_eq, text_key}
use centralite_ha.Sets.{add}
use centralite_ha.Parsers.Elg.Sections.{button_header, is_button}
use centralite_ha.Parsers.Elg.Referenced.{References, reference_line, flush_button}
use centralite_ha.Parsers.Elg.Headers.{reference_line-bracketed, run, run-append}
use centralite_ha.Parsers.Elg.Bodies.{
  load_body, scene_body, button_body, load_body-IsBody, scene_body-IsBody, button_body-IsBody,
  is_button-body, scene_load-member,
}
use centralite_ha.Parsers.Elg.Print.{
  Part, load_part, scene_part, button_part, IsPart, IsMember, member_line, member_lines, part_lines,
  file_lines, referenced_of, add_members, button_name_line, active_line, kind_line, target_line,
}
use centralite_ha.Parsers.Elg.PrintFields.{
  in_body, inside, fields_of, not_scene, button-fields, button-flush,
}

-- A line of a section that is neither a scene nor a button.
quiet :
    (c : ℕ) (t body : Text) (r : References)
    → (c == b'[') ≡ false
    → r.section ≡ some body
    → starts_with body (codes "SCENE ") ≡ false
    → is_button body ≡ false
    → reference_line (c ∷ t) r ≡ r
unfolding reference_line
quiet c t body r h s n b = inside c t body r h s ∙ rw (n, b) refl

body-flush :
    (body : Text) (fields : Dict Text Text) (ids : List ℤ)
    → is_button body ≡ false
    → (flush_button (record { section = some body; fields = fields; referenced = ids })).referenced
      ≡ ids
unfolding flush_button
body-flush body fields ids b = rw b refl

-- A load of a scene.
member_line-added :
    (m : ℕ × Text) (body : Text) (r : References)
    → m.0 < 1000
    → r.section ≡ some body
    → starts_with body (codes "SCENE ") ≡ true
    → reference_line (member_line m) r ≡ record r { referenced = add (pos m.0) r.referenced }
unfolding reference_line
member_line-added m body r h s n =
    inside b'L' (codes "OAD_" ++ (pad 3 m.0 ++ (codes "-" ++ m.1))) body r refl s
    ∙ rw (n, scene_load-member m.0 m.1 h) refl

member_lines-added :
    (ms : List (ℕ × Text)) (body : Text) (r : References)
    → All IsMember ms
    → r.section ≡ some body
    → starts_with body (codes "SCENE ") ≡ true
    → run reference_line (member_lines ms) r ≡ record r { referenced = add_members ms r.referenced }
unfolding member_lines
member_lines-added [] body r h s n = refl
member_lines-added (m ∷ ms) body r ((g, u), h) s n =
    ap (run reference_line (member_lines ms)) (member_line-added m body r g s n)
    ∙ member_lines-added ms body (record r { referenced = add (pos m.0) r.referenced }) h s n

abbrev referenced_after : Part → List ℤ → List ℤ
referenced_after p ids = referenced_of (p ∷ []) ids

part-referenced :
    (p : Part) (r : References)
    → IsPart p
    → (flush_button (run reference_line (part_lines p) r)).referenced
      ≡ referenced_after p (flush_button r).referenced
unfolding button_header span_digits
part-referenced (load_part s) r (n, e, u) =
    let body : Text = load_body s.number in
    let lines : run reference_line (part_lines (load_part s)) r ≡ in_body body r =
      rw
        (
          reference_line-bracketed body r (load_body-IsBody s.number n),
          quiet b'N' (codes "AME=" ++ s.name) body (in_body body r) refl refl refl refl,
          quiet b'D' _ body (in_body body r) refl refl refl refl,
        )
        refl in
    ap (λ (x : References). (flush_button x).referenced) lines
    ∙ body-flush body [] (flush_button r).referenced refl
part-referenced (scene_part s) r (n, (e, u), full, ms) =
    let body : Text = scene_body s.number s.name in
    let lines : run reference_line (part_lines (scene_part s)) r
        ≡ record (in_body body r) { referenced = add_members s.loads (flush_button r).referenced } =
      ap (run reference_line (member_lines s.loads))
        (reference_line-bracketed body r (scene_body-IsBody s.number s.name e full))
      ∙ member_lines-added s.loads body (in_body body r) ms refl refl in
    ap (λ (x : References). (flush_button x).referenced) lines
    ∙ body-flush body [] (add_members s.loads (flush_button r).referenced) refl
part-referenced (button_part b) r (l, lo, hi, (e, u), g) =
    let body : Text = button_body b.letter b.number in
    let is_one : is_button body ≡ true = is_button-body b.letter b.number l hi in
    let lines : run reference_line (part_lines (button_part b)) r
        ≡ record (in_body body r) { fields = fields_of b } =
      ap
        (run reference_line (button_name_line b ∷ active_line b ∷ kind_line b ∷ target_line b ∷ []))
        (reference_line-bracketed body r (button_body-IsBody b.letter b.number l hi))
      ∙ button-fields b body r (l, lo, hi, (e, u), g) (not_scene b.letter (show b.number) l)
          is_one in
    ap (λ (x : References). (flush_button x).referenced) lines ∙ button-flush b body r g is_one

pub file_lines-referenced :
    (ps : List Part) (r : References)
    → All IsPart ps
    → (flush_button (run reference_line (file_lines ps) r)).referenced
      ≡ referenced_of ps (flush_button r).referenced
unfolding file_lines
file_lines-referenced [] r h = refl
file_lines-referenced (p ∷ ps) r (is, h) =
    ap (λ (x : References). (flush_button x).referenced)
      (run-append reference_line (part_lines p) (file_lines ps) r)
    ∙ file_lines-referenced ps (run reference_line (part_lines p) r) h
    ∙ ap (referenced_of ps) (part-referenced p r is)
    ∙ split p
  where
    split :
        (q : Part)
        → referenced_of ps (referenced_after q (flush_button r).referenced)
          ≡ referenced_of (q ∷ ps) (flush_button r).referenced
    split (load_part s) = refl
    split (scene_part s) = refl
    split (button_part b) = refl
