-- ===== src/Parsers/Elg/Whole.antt =====
-- custom_components/centralite/parsers/elg.py: a printed file, read back by parse_elg.
use centralite_ha.Base.{
  ℕ, true, none, List, [], ◌∷◌, ◌++◌, ◌≡◌, refl, ap, ◌∙◌, arith, All, Bool-cases, inl, inr,
}
use centralite_ha.Text.{Text, codes, splitlines}
use centralite_ha.Text.Number.{pad}
use centralite_ha.Parsers.Elg.Sections.{each_line}
use centralite_ha.Parsers.Elg.Slots.{Slots, elg_line, read_slots}
use centralite_ha.Parsers.Elg.Referenced.{
  References, reference_line, no_references, referenced_load_ids, flush_button,
}
use centralite_ha.Parsers.Elg.Switches.{Named, switch_line, named_switches, flush}
use centralite_ha.Parsers.Elg.Lines.{is_unbroken, all_unbroken, splitlines-crlf_lines}
use centralite_ha.Parsers.Elg.RoundTrip.{header_unbroken, name_unbroken, dimmer_unbroken}
use centralite_ha.Parsers.Elg.Headers.{
  bracketed, each_line-run, unbroken-append, all_unbroken-append, pad_three-unbroken,
}
use centralite_ha.Parsers.Elg.Bodies.{scene_body, button_body, show-unbroken}
use centralite_ha.Parsers.Elg.Print.{
  Part, load_part, scene_part, button_part, Button, IsPart, IsMember, member_lines, part_lines,
  file_lines, print_elg, loads_of, dimmable_of, scenes_of, referenced_of, switches_of, active_line,
  kind_line,
}
use centralite_ha.Parsers.Elg.PrintSlots.{file_lines-slots}
use centralite_ha.Parsers.Elg.PrintReferenced.{file_lines-referenced}
use centralite_ha.Parsers.Elg.PrintSwitches.{file_lines-switches}
use centralite_ha.Parsers.Elg.{parse_elg}

bracketed-unbroken : (body : Text) → is_unbroken body ≡ true → is_unbroken (bracketed body) ≡ true
bracketed-unbroken body h = unbroken-append body (b']' ∷ []) h refl

member_lines-unbroken :
    (ms : List (ℕ × Text)) → All IsMember ms → all_unbroken (member_lines ms) ≡ true
unfolding member_lines
member_lines-unbroken [] h = refl
member_lines-unbroken ((n, t) ∷ ms) ((g, u), h) =
    rw
      (
        unbroken-append (pad 3 n) (codes "-" ++ t) (pad_three-unbroken n g) u,
        member_lines-unbroken ms h,
      )
      refl

kind-unbroken : (b : Button) → is_unbroken (kind_line b) ≡ true
kind-unbroken b = elim (Bool-cases b.of_load) [
  | inl load ↦ rw load refl
  | inr scene ↦ rw scene refl
]

active-unbroken : (b : Button) → is_unbroken (active_line b) ≡ true
active-unbroken b = elim (Bool-cases b.active) [ inl on ↦ rw on refl | inr off ↦ rw off refl ]

part_lines-unbroken : (p : Part) → IsPart p → all_unbroken (part_lines p) ≡ true
part_lines-unbroken (load_part s) (n, e, u) =
    rw (header_unbroken s n, name_unbroken s u, dimmer_unbroken s) refl
part_lines-unbroken (scene_part s) (n, (e, u), full, ms) =
    let body : is_unbroken (scene_body s.number s.name) ≡ true =
      unbroken-append (pad 3 s.number) (codes "- " ++ s.name) (pad_three-unbroken s.number n) u in
    rw (bracketed-unbroken (scene_body s.number s.name) body, member_lines-unbroken s.loads ms) refl
part_lines-unbroken (button_part b) (l, lo, hi, (e, u), g) =
    let body : is_unbroken (button_body b.letter b.number) ≡ true =
      ground (arith, show-unbroken b.number hi) in
    rw
      (
        bracketed-unbroken (button_body b.letter b.number) body,
        active-unbroken b,
        kind-unbroken b,
        u,
        pad_three-unbroken b.target g,
      )
      refl

file_lines-unbroken : (ps : List Part) → All IsPart ps → all_unbroken (file_lines ps) ≡ true
unfolding file_lines
file_lines-unbroken [] h = refl
file_lines-unbroken (p ∷ ps) (is, h) =
    all_unbroken-append (part_lines p) (file_lines ps) (part_lines-unbroken p is)
      (file_lines-unbroken ps h)

nothing_flushed : (flush_button no_references).referenced ≡ []
unfolding flush_button
nothing_flushed = refl

module _ (ps : List Part) (h : All IsPart ps) where
  lines : splitlines (print_elg ps) ≡ file_lines ps
  unfolding print_elg
  lines = splitlines-crlf_lines (file_lines ps) (file_lines-unbroken ps h)

  slots_read :
      ((read_slots (print_elg ps)).loads ≡ loads_of ps [])
      × ((read_slots (print_elg ps)).dimmable ≡ dimmable_of ps [])
      × ((read_slots (print_elg ps)).scenes ≡ scenes_of ps [])
  unfolding read_slots
  slots_read =
      let start : Slots = record { loads = []; scenes = []; dimmable = []; current_load = none } in
      rw (lines, each_line-run elg_line (file_lines ps) start (file_lines-unbroken ps h))
        (file_lines-slots ps start h)

  referenced_read : referenced_load_ids (print_elg ps) ≡ referenced_of ps []
  unfolding referenced_load_ids
  referenced_read =
      ap (λ ls. (flush_button (each_line reference_line ls no_references)).referenced) lines
      ∙ ap (λ (r : References). (flush_button r).referenced)
          (each_line-run reference_line (file_lines ps) no_references (file_lines-unbroken ps h))
      ∙ file_lines-referenced ps no_references h
      ∙ ap (referenced_of ps) nothing_flushed

  switches_read : named_switches (print_elg ps) ≡ switches_of ps []
  unfolding named_switches flush
  switches_read =
      let none_yet : Named = record { section = none; name = none; switches = [] } in
      ap (λ ls. (flush (each_line switch_line ls none_yet)).switches) lines
      ∙ ap (λ (r : Named). (flush r).switches)
          (each_line-run switch_line (file_lines ps) none_yet (file_lines-unbroken ps h))
      ∙ file_lines-switches ps none_yet h

-- A file as the Elegance software writes it, of load, scene and button sections in any order, their numbers
-- below 1000, the buttons in the tabs A to P with the numbers 1 to 24, and their names without a line break
-- or a blank at either end and those of scenes not empty, is read back as it is: the names and the dimmer
-- settings of its loads, the names of its scenes, the loads that some scene sets or some active button of a
-- load works, and the buttons with a name. Of two names or dimmer settings of one number the later counts.
pub parse_elg-print_elg :
    (ps : List Part)
    → All IsPart ps
    → parse_elg (print_elg ps) ≡ record {
      loads = loads_of ps [];
      scenes = scenes_of ps [];
      dimmable = dimmable_of ps [];
      referenced_loads = referenced_of ps [];
      switches = switches_of ps [];
    }
unfolding parse_elg
parse_elg-print_elg ps h =
    let (loads, dimmable, scenes) = slots_read ps h in
    rw (loads, dimmable, scenes, referenced_read ps h, switches_read ps h) refl
