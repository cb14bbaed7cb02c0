-- ===== src/Parsers/Tests.antt =====
-- Files and id lists, and the theorems about them at concrete ones.
use centralite_ha.Base.{
  List, Option, arith, ℤ, pos, true, false, [], ◌∷◌, ◌++◌, ◌≡◌, refl, ok, err, value_error, some,
  none,
}
use centralite_ha.Text.{Text, lstrip, rstrip, codes, splitlines, strip, rstrip_cr, split}
use centralite_ha.Text.Match.{has_char, partition, all_digits}
use centralite_ha.Sets.{add, sorted_set}
use centralite_ha.Text.Number.{int, show_int}
use centralite_ha.Dict.{has, put, int_eq}
use centralite_ha.Parsers.Elg
use centralite_ha.Parsers.Elg.Print.{load_part, scene_part, button_part, print_elg}
use centralite_ha.Parsers.Elg.RoundTrip.{IsSection}
use centralite_ha.Parsers.Elg.Whole.{parse_elg-print_elg}
use centralite_ha.Parsers.Jts
use centralite_ha.Parsers.Jts.Print.{tree_of}
use centralite_ha.Parsers.Jts.RoundTrip.{parse_jts-tree_of}
use centralite_ha.Parsers.Elg.Ranges.{AreSwitches, parse_elg-ranges}
use centralite_ha.Parsers.Jts.Tree.{Element, Elements, element, no_elements, child, JtsConfig}
use centralite_ha.Parsers.Jts.Reader.{parse_jts}
use centralite_ha.Parsers.Jts.Devices.{IsConfig, parse_jts-IsConfig}
use centralite_ha.Parsers.Csv.{parse_csv_ids}
use centralite_ha.Parsers.Csv.Reads.{Reads, parse_csv_ids-Reads}
use centralite_ha.Parsers.Elg.{parse_elg, ElgConfig}
use centralite_ha.Parsers.Elg.Sections.{
  section_match, load_header, scene_header, button_header, scene_load,
}

abbrev elg_file : Text
elg_file =
    codes
      "[LOAD 001]\r\n  NAME=Hall\r\n  DIMMER=N\r\n[LOAD 007]\r\n[SCENE 04- Upstairs Path]\r\n  LOAD_007- x\r\n"
    ++ codes
        "[B20]\r\nNAME= Entry \r\nACTIVE=1\r\nLOAD/SCENE=L\r\n#=053\r\n[Q99]\r\n[C25]\r\nNAME=stray\r\n"

parse_elg_test : parse_elg elg_file ≡ record {
  loads = (pos 1, codes "Hall") ∷ (pos 7, []) ∷ [];
  scenes = (pos 4, codes "Upstairs Path") ∷ [];
  dimmable = (pos 1, false) ∷ (pos 7, true) ∷ [];
  referenced_loads = pos 7 ∷ pos 53 ∷ [];
  switches = (pos 44, codes "Entry") ∷ [];
}
unfolding parse_elg splitlines strip rstrip_cr section_match load_header scene_header has_char
    partition int button_header all_digits add scene_load
parse_elg_test = refl

parse_csv_ids_test :
    (parse_csv_ids (codes " 5, 2,,5 , 11") ≡ ok (pos 2 ∷ pos 5 ∷ pos 11 ∷ []))
    × (parse_csv_ids (codes "1,x") ≡ err value_error)
unfolding parse_csv_ids strip split int sorted_set add
parse_csv_ids_test = (refl, refl)

-- <name>text</name>
abbrev leaf : Text → Text → Element
leaf tag text = element tag (some text) no_elements

abbrev button : Text → Text → Element
button id action = element (codes "Button") none (
    child (leaf (codes "ID") id) (
      child (element (codes "tap") none (child (leaf (codes "BtnAction") action) no_elements))
        no_elements))

abbrev device : Text → Text → Elements → Element
device id exposed more = element (codes "Device") none (
    child (leaf (codes "DeviceID") id) (
      child (leaf (codes "SendThirdParty") exposed) (
        child (leaf (codes "Name") (codes " Den "))
          (child (leaf (codes "Dimmer") (codes "false")) more))))

abbrev jts_tree : Element
jts_tree = element (codes "GulfStreamCL") none (
    child
      (element (codes "DeviceList") none (
        child
          (device (codes "29") (codes "True") (
            child
              (element (codes "buttonList") none (
                child (button (codes "0") (codes "00")) (
                  child (button (codes "1") (codes "3"))
                    (child (button (codes "3") (codes "3")) no_elements))))
              no_elements))
          (child (device (codes "30") (codes "false") no_elements) no_elements)))
      (child
        (element (codes "SceneList") none (
          child (element (codes "Scene") none (child (leaf (codes "ID") (codes "4")) no_elements)) (
            child
              (element (codes "Scene") none (child (leaf (codes "ID") (codes "-4")) no_elements))
              no_elements)))
        no_elements))

abbrev jts_config : JtsConfig
jts_config = record {
  loads = (pos 29, codes "Den") ∷ [];
  scenes = (pos 4, []) ∷ [];
  dimmable = (pos 29, false) ∷ [];
  buttons = ((pos 29, pos 2), codes "Den Button 2") ∷ [];
}

parse_jts_test : parse_jts (λ text. some jts_tree) (codes "<GulfStreamCL>") ≡ ok jts_config
unfolding parse_jts strip int all_digits show_int
parse_jts_test = refl

parse_jts-IsConfig_example : IsConfig jts_config
parse_jts-IsConfig_example =
    parse_jts-IsConfig (λ text. some jts_tree) (codes "<GulfStreamCL>") jts_config parse_jts_test

parse_elg-ranges_example :
    AreSwitches (parse_elg elg_file).switches
    × ((k : ℤ) → has (parse_elg elg_file).dimmable k ≡ has (parse_elg elg_file).loads k)
parse_elg-ranges_example = parse_elg-ranges elg_file

parse_csv_ids-Reads_example : Reads (split b',' (codes "5, 2,,5")) (parse_csv_ids (codes "5, 2,,5"))
parse_csv_ids-Reads_example = parse_csv_ids-Reads (codes "5, 2,,5")

abbrev path_scene : Elg.Print.Scene
path_scene = record {
  number = 4;
  name = codes "Path [out]";
  loads = (7, codes " Porch") ∷ (1, []) ∷ [];
}

abbrev entry_button : Elg.Print.Button
entry_button = record {
  letter = 1;
  number = 20;
  name = codes "Entry";
  active = true;
  of_load = true;
  target = 9;
}

-- It works scene 4.
abbrev path_button : Elg.Print.Button
path_button = record {
  letter = 0;
  number = 3;
  name = [];
  active = true;
  of_load = false;
  target = 4;
}

abbrev house_parts : List Elg.Print.Part
house_parts =
    load_part (record { number = 1; name = codes "Hall"; dimmer = false })
    ∷ scene_part path_scene
    ∷ load_part (record { number = 7; name = []; dimmer = true })
    ∷ button_part path_button
    ∷ button_part entry_button
    ∷ []

abbrev house_config : ElgConfig
house_config = record {
  loads = (pos 1, codes "Hall") ∷ (pos 7, []) ∷ [];
  scenes = (pos 4, codes "Path [out]") ∷ [];
  dimmable = (pos 1, false) ∷ (pos 7, true) ∷ [];
  referenced_loads = pos 7 ∷ pos 1 ∷ pos 9 ∷ [];
  switches = (pos 44, codes "Entry") ∷ [];
}

parse_elg-print_elg_example : parse_elg (print_elg house_parts) ≡ house_config
unfolding lstrip rstrip add put
parse_elg-print_elg_example =
    let hall : IsSection (record { number = 1; name = codes "Hall"; dimmer = false }) =
      (omega arith, (refl, refl), refl) in
    let path : Elg.Print.IsScene path_scene =
      (omega arith, ((refl, refl), refl), refl, ((omega arith, refl), ((omega arith, refl), tt))) in
    let porch : IsSection (record { number = 7; name = []; dimmer = true }) =
      (omega arith, (refl, refl), refl) in
    let entry : Elg.Print.IsButton entry_button =
      (omega arith, omega arith, omega arith, ((refl, refl), refl), omega arith) in
    let scene : Elg.Print.IsButton path_button =
      (omega arith, omega arith, omega arith, ((refl, refl), refl), omega arith) in
    parse_elg-print_elg house_parts (hall, (path, (porch, (scene, (entry, tt)))))

abbrev den_device : Jts.Print.Device
den_device = record {
  number = 55;
  name = codes "Den";
  active = true;
  third_party = true;
  dimmer = false;
  buttons =
      record { number = 0; inner = 22; tap = 0; hold = 3; double = 0 }
      ∷ record { number = 3; inner = 22; tap = 1; hold = 0; double = 0 }
      ∷ [];
}

abbrev attic_device : Jts.Print.Device
attic_device = record {
  number = 56;
  name = codes "Attic";
  active = false;
  third_party = true;
  dimmer = true;
  buttons = [];
}

abbrev jts_devices : List Jts.Print.Device
jts_devices = den_device ∷ attic_device ∷ []

abbrev jts_scenes : List Jts.Print.Scene
jts_scenes = record { number = 2; name = codes "Night" } ∷ []

abbrev house_tree : Text → Option Element
house_tree text = some (tree_of jts_devices jts_scenes)

parse_jts-tree_of_example :
    parse_jts house_tree (codes "<Project/>")
    ≡ ok (record {
      loads = (pos 55, codes "Den") ∷ [];
      scenes = (pos 2, codes "Night") ∷ [];
      dimmable = (pos 55, false) ∷ [];
      buttons = ((pos 55, pos 1), codes "Den Button 1") ∷ [];
    })
unfolding put strip show_int
parse_jts-tree_of_example =
    let den : Jts.Print.IsDevice den_device = (
      omega arith,
      refl,
      (
        (omega arith, omega arith, omega arith, omega arith),
        ((omega arith, omega arith, omega arith, omega arith), tt),
      ),
    ) in
    let attic : Jts.Print.IsDevice attic_device = (omega arith, refl, tt) in
    parse_jts-tree_of house_tree (codes "<Project/>") jts_devices jts_scenes refl (omega arith)
      (den, (attic, tt)) ((omega arith, refl), tt)
