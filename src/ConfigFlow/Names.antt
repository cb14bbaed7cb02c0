-- ===== src/ConfigFlow/Names.antt =====
-- custom_components/centralite/config_flow.py: the names of loads that the import step takes from a .elg file.
use centralite_ha.Base.{
  ℤ, Bool, true, false, not, ◌&&◌, Option, none, some, List, [], ◌∷◌, ◌≡◌, refl, sym, ap, ◌∙◌,
  arith, if◌then◌else◌, Bool-cases, inl, inr,
}
use centralite_ha.Text.{Text, text_eq, is_empty, or_none, strip, splitlines}
use centralite_ha.Text.Number.{show_int}
use centralite_ha.Text.Number.Injective.{text_eq-show_int}
use centralite_ha.Dict.{Dict, get, get-put, int_eq, text_key, int_beq, int_beq_iff, beq_refl}
use centralite_ha.Sets.{member}
use centralite_ha.Parsers.Jts.Tree.{Element}
use centralite_ha.Parsers.Elg.{ElgConfig, parse_elg}
use centralite_ha.Parsers.Csv.{parse_csv_ids}
use centralite_ha.ConfigFlow.Draft.{
  Attempt, done, Draft, nothing, name_or_empty, name_unless_blank, add_scenes, add_switches,
  used_loads, elg_loads, import_elg, is_nil, elegance, parsed,
}
use centralite_ha.ConfigFlow.Steps.{
  UserInput, import_scan, import_text, import_csv, step_import, Entry,
}
use centralite_ha.ConfigFlow.Checks.{>>=-done, make_entry_loads}
use centralite_ha.ConfigFlow.Import.{typed}
use centralite_ha.Parsers.Elg.Slots.{read_slots}
use centralite_ha.ConfigFlow.Selected.{is_named, is_unnamed, member-used_loads, int_beq_sym}

-- The name that the file gives to a load, where it gives one that is not empty.
abbrev pub name_in : ElgConfig → ℤ → Option Text
name_in cfg y = or_none (name_or_empty (get cfg.loads y))

get-unless_blank :
    (names : Dict Text Text) (key other name : Text)
    → get (name_unless_blank names key name) other
      ≡ (if text_eq key other && not (is_empty name) then some name else get names other)
get-unless_blank names key other [] = ground arith
get-unless_blank names key other (c ∷ t) = get-put names key other (c ∷ t) ∙ ground arith

chosen :
    (name : Text) (old : Option Text)
    → (if not (is_empty name) then some name else old)
      ≡ (if not (is_empty name) then or_none name else old)
chosen [] old = refl
chosen (c ∷ t) old = refl

get-name_unless_blank :
    (cfg : ElgConfig) (names : Dict Text Text) (idx y : ℤ)
    → get (name_unless_blank names (show_int idx) (name_or_empty (get cfg.loads idx))) (show_int y)
      ≡ (if int_beq y idx && not (is_unnamed cfg y) then name_in cfg y else get names (show_int y))
get-name_unless_blank cfg names idx y =
    get-unless_blank names (show_int idx) (show_int y) (name_or_empty (get cfg.loads idx))
    ∙ rw (text_eq-show_int idx y) (elim (Bool-cases (int_beq y idx)) [
      | inl same ↦
          let e : y ≡ idx = (int_beq_iff y idx).0 same in
          rw (e, beq_refl idx)
            (chosen (name_or_empty (get cfg.loads idx)) (get names (show_int idx)))
      | inr other ↦ rw (other, int_beq_sym idx y ∙ other) refl
    ])

more :
    (m b u : Bool) (name old : Option Text)
    → (if m && u then name else (if b && u then name else old))
      ≡ (if (if b then true else m) && u then name else old)
more m b u name old = ground arith

get-elg_loads :
    (cfg : ElgConfig) (ids : List ℤ) (i : Draft) (y : ℤ)
    → get (elg_loads cfg ids i).load_names (show_int y) ≡ (
        if member y ids && not (is_unnamed cfg y)
        then name_in cfg y
        else get i.load_names (show_int y))
unfolding elg_loads member
get-elg_loads cfg [] i y = refl
get-elg_loads cfg (idx ∷ ids) i y =
    get-elg_loads cfg ids _ y
    ∙ rw (get-name_unless_blank cfg i.load_names idx y) (
        more (member y ids) (int_beq y idx) (not (is_unnamed cfg y)) (name_in cfg y)
          (get i.load_names (show_int y)))

add_scenes-load_names : (d : Dict ℤ Text) (i : Draft) → (add_scenes d i).load_names ≡ i.load_names
unfolding add_scenes
add_scenes-load_names [] i = refl
add_scenes-load_names ((idx, name) ∷ rest) i = add_scenes-load_names rest _

add_switches-load_names :
    (d : Dict ℤ Text) (i : Draft) → (add_switches d i).load_names ≡ i.load_names
unfolding add_switches
add_switches-load_names [] i = refl
add_switches-load_names ((idx, name) ∷ rest) i = add_switches-load_names rest _

get-is_named :
    (d : Dict ℤ Text) (y : ℤ) → is_empty (name_or_empty (get d y)) ≡ false → is_named d y ≡ true
unfolding get is_named
get-is_named [] y h = cc
get-is_named ((k, name) ∷ d) y h = elim (Bool-cases (int_beq k y)) [
  | inl same ↦ ground (arith, same, h)
  | inr other ↦ ground (arith, other, get-is_named d y)
]

-- A load without a name has none in the file.
unnamed : (cfg : ElgConfig) (y : ℤ) → is_unnamed cfg y ≡ true → name_in cfg y ≡ none
unnamed cfg y = by_name (name_or_empty (get cfg.loads y))
  where
    by_name : (name : Text) → is_empty name ≡ true → or_none name ≡ none
    by_name [] h = refl
    by_name (c ∷ t) h = cc

all_named :
    (cfg : ElgConfig) (y : ℤ)
    → (if member y (used_loads cfg) && not (is_unnamed cfg y) then name_in cfg y else none)
      ≡ name_in cfg y
all_named cfg y = elim (Bool-cases (is_unnamed cfg y)) [
  | inl blank ↦ rw (blank, unnamed cfg y blank) ground arith
  | inr named ↦ rw (named, member-used_loads cfg y, get-is_named cfg.loads y named) refl
]

import_elg-name_in :
    (cfg : ElgConfig) (i : Draft) (y : ℤ)
    → import_elg cfg ≡ done i
    → get i.load_names (show_int y) ≡ name_in cfg y
unfolding import_elg get
import_elg-name_in cfg i y made = elim (Bool-cases (is_nil cfg.loads && is_nil cfg.scenes)) [
  | inl nil ↦ cc (rw nil at made)
  | inr full ↦ drafted (rw full at made)
]
  where
    drafted :
        done (
            add_switches cfg.switches
              (add_scenes cfg.scenes (elg_loads cfg (used_loads cfg) nothing)))
          ≡ done i
        → get i.load_names (show_int y) ≡ name_in cfg y
    drafted made' =
        let same : add_switches cfg.switches
              (add_scenes cfg.scenes (elg_loads cfg (used_loads cfg) nothing))
            ≡ i =
          cc in
        rw
          (
            ← same,
            add_switches-load_names cfg.switches
                (add_scenes cfg.scenes (elg_loads cfg (used_loads cfg) nothing)),
            add_scenes-load_names cfg.scenes (elg_loads cfg (used_loads cfg) nothing),
          )
          (get-elg_loads cfg (used_loads cfg) nothing y)
        ∙ all_named cfg y

import_text-name_in :
    (fromstring : Text → Option Element) (text : Text) (i : Draft) (y : ℤ)
    → import_text fromstring elegance text ≡ done i
    → get i.load_names (show_int y) ≡ name_in (parse_elg text) y
unfolding import_text parse_elg read_slots get splitlines
import_text-name_in fromstring [] i y read = let same : nothing ≡ i = cc in rw (← same) refl
import_text-name_in fromstring (c ∷ text) i y read =
    import_elg-name_in (parse_elg (c ∷ text)) i y read

import_csv-load_names :
    (input : UserInput) (i j : Draft) → import_csv input i ≡ done j → j.load_names ≡ i.load_names
unfolding import_csv
import_csv-load_names input i j h =
    let (loads, _, h1) = >>=-done (parsed (parse_csv_ids input.load_ids_csv)) _ h in
    let (scenes, _, h2) = >>=-done (parsed (parse_csv_ids input.scene_ids_csv)) _ h1 in
    let (switches, _, h3) = >>=-done (parsed (parse_csv_ids input.switch_ids_csv)) _ h2 in
    let same : typed loads scenes switches i ≡ j = cc in ap (λ (x : Draft). x.load_names) (sym same)

-- No Elegance system is scanned.
unscanned :
    (input : UserInput) (scan : Attempt (Dict ℤ Text)) (j k : Draft)
    → import_scan elegance input scan j ≡ done k
    → j ≡ k
unscanned input scan j k h = elim (Bool-cases input.scan_jetstream) [
  | inl on ↦ cc (rw on at h)
  | inr off ↦ cc (rw off at h)
]

-- The entry of an Elegance system has for each load the name of the file, and no other.
pub step_import-name_in :
    (fromstring : Text → Option Element) (input : UserInput) (scan : Attempt (Dict ℤ Text))
    (e : Entry) (y : ℤ)
    → step_import fromstring elegance input scan ≡ done e
    → get e.load_names (show_int y) ≡ name_in (parse_elg (strip input.elg_text)) y
unfolding step_import
step_import-name_in fromstring input scan e y h =
    let (i, read, h1) = >>=-done (import_text fromstring elegance (strip input.elg_text)) _ h in
    let (j, added, h2) = >>=-done (import_csv input i) _ h1 in
    let (k, found, made) = >>=-done (import_scan elegance input scan j) _ h2 in
    let same : j ≡ k = unscanned input scan j k found in
    rw ((make_entry_loads elegance k e made).2, ← same, import_csv-load_names input i j added)
      (import_text-name_in fromstring (strip input.elg_text) i y read)
