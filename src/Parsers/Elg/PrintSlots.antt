-- ===== src/Parsers/Elg/PrintSlots.antt =====
-- custom_components/centralite/parsers/elg.py: the loop of parse_elg over a printed file.
use centralite_ha.Base.{
  ℕ, pos, false, none, List, [], ◌∷◌, ◌++◌, ◌≡◌, refl, ap, ◌∙◌, arith, ◌==◌, All,
}
use centralite_ha.Text.{Text, codes}
use centralite_ha.Dict.{put, int_eq}
use centralite_ha.Text.Match.{after}
use centralite_ha.Parsers.Elg.Sections.{section_match, load_header}
use centralite_ha.Parsers.Elg.Slots.{Slots, elg_line, open_scene, open_section}
use centralite_ha.Parsers.Elg.Lines.{rstrip_cr_unbroken}
use centralite_ha.Parsers.Elg.RoundTrip.{
  Section, IsSection, header_line, name_line, dimmer_line, entered, header_unbroken, name_unbroken,
  dimmer_unbroken, section-entered,
}
use centralite_ha.Parsers.Elg.Headers.{bracketed, elg_line-bracketed, run, run-append}
use centralite_ha.Parsers.Elg.Bodies.{
  scene_body, button_body, scene_body-IsBody, button_body-IsBody, scene_header-body,
  button_body-other,
}
use centralite_ha.Parsers.Elg.Print.{
  Part, load_part, scene_part, button_part, IsPart, member_lines, part_lines, file_lines, loads_of,
  dimmable_of, scenes_of,
}

-- A line that is no header, outside a load.
quiet :
    (c : ℕ) (t : Text) (s : Slots)
    → (c == b'[') ≡ false
    → s.current_load ≡ none
    → elg_line (c ∷ t) s ≡ s
unfolding elg_line section_match
quiet c t s h n = ground arith

member_lines-quiet :
    (ms : List (ℕ × Text)) (s : Slots)
    → s.current_load ≡ none
    → run elg_line (member_lines ms) s ≡ s
unfolding member_lines
member_lines-quiet [] s n = refl
member_lines-quiet (m ∷ ms) s n =
    ap (run elg_line (member_lines ms)) (quiet b'L' _ s refl n) ∙ member_lines-quiet ms s n

abbrev slots_after : Part → Slots → Slots
slots_after (load_part s) t = entered s t
slots_after (scene_part s) t = record t {
  current_load = none;
  scenes = put t.scenes (pos s.number) s.name;
}
slots_after (button_part b) t = record t { current_load = none }

load-slots :
    (s : Section) (t : Slots)
    → IsSection s
    → run elg_line (part_lines (load_part s)) t ≡ entered s t
load-slots s t (n, e, u) =
    rw
      (
        rstrip_cr_unbroken (dimmer_line s) (dimmer_unbroken s),
        rstrip_cr_unbroken (name_line s) (name_unbroken s u),
        rstrip_cr_unbroken (header_line s) (header_unbroken s n),
      )
      at (section-entered s t (n, e, u))

part-slots : (p : Part) (t : Slots) → IsPart p → run elg_line (part_lines p) t ≡ slots_after p t
unfolding load_header after
part-slots (load_part s) t h = load-slots s t h
part-slots (scene_part s) t (n, (e, u), full, ms) =
    let opened : elg_line (bracketed (scene_body s.number s.name)) t
        ≡ slots_after (scene_part s) t =
      elg_line-bracketed (scene_body s.number s.name) t (scene_body-IsBody s.number s.name e full)
      ∙ ap (λ o. open_scene o t) (scene_header-body s.number s.name n e full) in
    ap (run elg_line (member_lines s.loads)) opened ∙ member_lines-quiet s.loads _ refl
part-slots (button_part b) t (l, lo, hi, e, g) =
    let (no_load, no_scene) = button_body-other b.letter b.number hi in
    let closed : Slots = record t { current_load = none } in
    let opened : elg_line (bracketed (button_body b.letter b.number)) t ≡ closed =
      elg_line-bracketed (button_body b.letter b.number) t
        (button_body-IsBody b.letter b.number l hi)
      ∙ ap (λ o. open_section o (button_body b.letter b.number) t) no_load
      ∙ ap (λ o. open_scene o t) no_scene in
    rw
      (
        opened,
        quiet b'N' (codes "AME=" ++ b.name) closed refl refl,
        quiet b'A' _ closed refl refl,
        quiet b'L' _ closed refl refl,
        quiet b'#' _ closed refl refl,
      )
      refl

slots_after-said :
    (p : Part) (ps : List Part) (t : Slots)
    → (loads_of ps (slots_after p t).loads ≡ loads_of (p ∷ ps) t.loads)
      × (dimmable_of ps (slots_after p t).dimmable ≡ dimmable_of (p ∷ ps) t.dimmable)
      × (scenes_of ps (slots_after p t).scenes ≡ scenes_of (p ∷ ps) t.scenes)
slots_after-said (load_part s) ps t = (refl, refl, refl)
slots_after-said (scene_part s) ps t = (refl, refl, refl)
slots_after-said (button_part b) ps t = (refl, refl, refl)

pub file_lines-slots :
    (ps : List Part) (t : Slots)
    → All IsPart ps
    → ((run elg_line (file_lines ps) t).loads ≡ loads_of ps t.loads)
      × ((run elg_line (file_lines ps) t).dimmable ≡ dimmable_of ps t.dimmable)
      × ((run elg_line (file_lines ps) t).scenes ≡ scenes_of ps t.scenes)
unfolding file_lines
file_lines-slots [] t h = (refl, refl, refl)
file_lines-slots (p ∷ ps) t (is, h) =
    let next : run elg_line (file_lines (p ∷ ps)) t
        ≡ run elg_line (file_lines ps) (slots_after p t) =
      run-append elg_line (part_lines p) (file_lines ps) t
      ∙ ap (run elg_line (file_lines ps)) (part-slots p t is) in
    let (loads, dimmable, scenes) = file_lines-slots ps (slots_after p t) h in
    let (l, d, s) = slots_after-said p ps t in
    (
      ap (λ (x : Slots). x.loads) next ∙ loads ∙ l,
      ap (λ (x : Slots). x.dimmable) next ∙ dimmable ∙ d,
      ap (λ (x : Slots). x.scenes) next ∙ scenes ∙ s,
    )
