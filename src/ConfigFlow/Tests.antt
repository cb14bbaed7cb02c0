-- ===== src/ConfigFlow/Tests.antt =====
-- A form of each system, and the theorems about the import step at it.
use centralite_ha.Base.{
  ℕ, ℤ, pos, true, false, Option, none, List, [], ◌∷◌, ◌≡◌, refl, ok, ◌==◌, ◌&&◌, leb, ltb,
  if◌then◌else◌,
}
use centralite_ha.Text.{Text, codes, splitlines, strip, rstrip_cr, split}
use centralite_ha.Text.Match.{has_char, partition, all_digits}
use centralite_ha.Text.Number.{int, show_int}
use centralite_ha.Dict.{Dict, get, int_eq}
use centralite_ha.Sets.{member, add, update, difference, intersection, sorted_set}
use centralite_ha.Protocol.Session.{Inbound, line, broken}
use centralite_ha.Protocol.JetStream.Scan.{found_name}
use centralite_ha.Parsers.Csv.{parse_csv_ids}
use centralite_ha.Parsers.Elg.Sections.{
  section_match, load_header, scene_header, button_header, scene_load,
}
use centralite_ha.Parsers.Elg.{ElgConfig, parse_elg}
use centralite_ha.Parsers.Jts.Tree.{Element}
use centralite_ha.ConfigFlow.Draft.{import_elg, jetstream, elegance, done, fails, scan_failed}
use centralite_ha.ConfigFlow.Steps.{UserInput, Entry, step_import, scan_names}
use centralite_ha.ConfigFlow.Limits.{IsEntry}
use centralite_ha.ConfigFlow.Import.{step_import-IsEntry, step_import_typed}
use centralite_ha.ConfigFlow.Typed.{Enters, step_import-Enters}
use centralite_ha.ConfigFlow.Selected.{Selects, import_elg-Selects}
use centralite_ha.ConfigFlow.Scan.{IsClosed, scan_names-found, scan_names_failed}

abbrev pub no_tree : Text → Option Element
no_tree text = none

abbrev pub elegance_form : UserInput
elegance_form = record {
  elg_text =
      codes
        "[LOAD 001]\r\nNAME=Hall\r\nDIMMER=N\r\n[LOAD 007]\r\n[LOAD 009]\r\n[SCENE 4- Path]\r\nLOAD_007- x\r\n[B20]\r\nNAME=Entry\r\n";
  load_ids_csv = codes "12, 3";
  scene_ids_csv = [];
  switch_ids_csv = codes "2";
  scan_jetstream = false;
}

abbrev pub elegance_entry : Entry
elegance_entry = record {
  load_ids = pos 1 ∷ pos 3 ∷ pos 7 ∷ pos 12 ∷ [];
  disabled_loads = pos 7 ∷ [];
  scene_ids = pos 4 ∷ [];
  button_ids = [];
  switch_ids = pos 2 ∷ pos 44 ∷ [];
  load_names = (codes "1", codes "Hall") ∷ [];
  scene_names = (codes "4", codes "Path") ∷ [];
  switch_names = (codes "44", codes "Entry") ∷ [];
  nondimmable_loads = pos 1 ∷ [];
}

pub elegance_run :
    step_import no_tree elegance elegance_form (fails scan_failed) ≡ done elegance_entry
unfolding step_import parse_elg splitlines strip rstrip_cr section_match load_header scene_header
    has_char partition int button_header all_digits add scene_load parse_csv_ids split sorted_set
    update difference intersection show_int
elegance_run = refl

step_import-IsEntry_example : IsEntry elegance elegance_entry
step_import-IsEntry_example =
    step_import-IsEntry no_tree elegance elegance_form (fails scan_failed) elegance_entry
      elegance_run

step_import_typed_example :
    (loads : List ℤ) × (parse_csv_ids (codes "12, 3") ≡ ok loads)
    × ((y : ℤ)
        → member y loads ≡ true
        → (member y elegance_entry.load_ids ≡ true)
          × (member y elegance_entry.disabled_loads ≡ false))
step_import_typed_example =
    step_import_typed no_tree elegance elegance_form (fails scan_failed) elegance_entry elegance_run

-- Only device 2 is configured.
abbrev one_device : ℕ → List Inbound
one_device idx = if idx == 2 then line (codes "NAM002GAME RM   ") ∷ [] else []

scan_names-found_example :
    (d : Dict ℤ Text) × ((scan_names true one_device).0 ≡ done d)
    × ((k : ℕ)
        → get d (pos k) ≡ (if leb 1 k && ltb k 97 then found_name k (one_device k) else none))
    × IsClosed (scan_names true one_device).1
scan_names-found_example = scan_names-found one_device refl

-- The link breaks at the fifth probe.
abbrev unplugged : ℕ → List Inbound
unplugged idx = if idx == 5 then broken ∷ [] else one_device idx

scan_names_failed_example :
    ((scan_names true unplugged).0 ≡ fails scan_failed) × IsClosed (scan_names true unplugged).1
scan_names_failed_example = scan_names_failed true unplugged refl

abbrev typed_form : UserInput
typed_form = record {
  elg_text = codes " ";
  load_ids_csv = codes "12, 3";
  scene_ids_csv = [];
  switch_ids_csv = codes "200";
  scan_jetstream = false;
}

-- Switch 200 is none of a JetStream bridge.
step_import-Enters_example :
    Enters jetstream
      (record { loads = pos 3 ∷ pos 12 ∷ []; scenes = []; switches = pos 200 ∷ [] })
      (step_import no_tree jetstream typed_form (fails scan_failed))
unfolding parse_csv_ids strip split int sorted_set add
step_import-Enters_example =
    step_import-Enters no_tree jetstream typed_form (fails scan_failed)
      (record { loads = pos 3 ∷ pos 12 ∷ []; scenes = []; switches = pos 200 ∷ [] }) refl refl refl
      refl refl

abbrev small_house : ElgConfig
small_house = record {
  loads = (pos 1, codes "Hall") ∷ (pos 7, []) ∷ (pos 9, []) ∷ [];
  scenes = (pos 4, codes "Path") ∷ [];
  dimmable = (pos 1, false) ∷ (pos 7, true) ∷ (pos 9, true) ∷ [];
  referenced_loads = pos 7 ∷ pos 53 ∷ [];
  switches = [];
}

import_elg-Selects_example : Selects small_house (import_elg small_house)
import_elg-Selects_example = import_elg-Selects small_house
