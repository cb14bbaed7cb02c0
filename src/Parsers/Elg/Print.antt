-- ===== src/Parsers/Elg/Print.antt =====
-- custom_components/centralite/parsers/elg.py: a .elg file as the Elegance software writes it, and what
-- it says.
use centralite_ha.Base.{
  ℕ, ◌+◌, ◌*◌, ◌≤◌, ◌<◌, pos, ℤ, Bool, true, false, ◌&&◌, List, [], ◌∷◌, ◌++◌, ◌≡◌, All,
  if◌then◌else◌,
}
use centralite_ha.Text.{Text, codes, is_empty}
use centralite_ha.Text.Number.{pad}
use centralite_ha.Dict.{Dict, put, int_eq}
use centralite_ha.Sets.{add}
use centralite_ha.Parsers.Elg.Lines.{is_unbroken, crlf_lines}
use centralite_ha.Parsers.Elg.RoundTrip.{Section, IsSection, header_line, name_line, dimmer_line}
use centralite_ha.Parsers.Elg.Headers.{bracketed}
use centralite_ha.Parsers.Elg.Bodies.{scene_body, button_body, IsName}

-- A scene, and the loads that it sets, each with the text behind its number.
pub record Scene : Type 0 where
  pub number : ℕ
  pub name : Text
  pub loads : List (ℕ × Text)

-- A button: its tab A to P as 0 to 15, its number, its name, and the load or the scene that it works while it
-- is active.
pub record Button : Type 0 where
  pub letter : ℕ
  pub number : ℕ
  pub name : Text
  pub active : Bool
  pub of_load : Bool
  pub target : ℕ

pub data Part : Type 0 where
  load_part : Section → Part
  scene_part : Scene → Part
  button_part : Button → Part

abbrev pub IsMember : ℕ × Text → Type 0
IsMember (n, t) = (n < 1000) × (is_unbroken t ≡ true)

abbrev pub IsScene : Scene → Type 0
IsScene s = (s.number < 1000) × IsName s.name × (is_empty s.name ≡ false) × All IsMember s.loads

abbrev pub IsButton : Button → Type 0
IsButton b = (b.letter < 16) × (1 ≤ b.number) × (b.number ≤ 24) × IsName b.name × (b.target < 1000)

abbrev pub IsPart : Part → Type 0
IsPart (load_part s) = IsSection s
IsPart (scene_part s) = IsScene s
IsPart (button_part b) = IsButton b

-- LOAD_nnn- text
abbrev pub member_line : ℕ × Text → Text
member_line (n, t) = codes "LOAD_" ++ (pad 3 n ++ (codes "-" ++ t))

unfoldable pub member_lines : List (ℕ × Text) → List Text
unfolding pad
member_lines [] = []
member_lines (m ∷ ms) = member_line m ∷ member_lines ms

abbrev pub button_name_line : Button → Text
button_name_line b = codes "NAME=" ++ b.name

abbrev pub active_line : Button → Text
active_line b = codes "ACTIVE=" ++ (if b.active then codes "1" else codes "0")

abbrev pub kind_line : Button → Text
kind_line b = codes "LOAD/SCENE=" ++ (if b.of_load then codes "L" else codes "S")

abbrev pub target_line : Button → Text
target_line b = codes "#=" ++ pad 3 b.target

abbrev pub part_lines : Part → List Text
part_lines (load_part s) = header_line s ∷ name_line s ∷ dimmer_line s ∷ []
part_lines (scene_part s) = bracketed (scene_body s.number s.name) ∷ member_lines s.loads
part_lines (button_part b) =
    bracketed (button_body b.letter b.number)
    ∷ button_name_line b
    ∷ active_line b
    ∷ kind_line b
    ∷ target_line b
    ∷ []

unfoldable pub file_lines : List Part → List Text
unfolding member_lines pad
file_lines [] = []
file_lines (p ∷ ps) = part_lines p ++ file_lines ps

-- The file, each line ended by CRLF.
unfoldable pub print_elg : List Part → Text
unfolding file_lines crlf_lines
print_elg ps = crlf_lines (file_lines ps)

-- What a file says, part by part: a later name or setting of a number stands in place of an earlier one.
abbrev pub loads_of : List Part → Dict ℤ Text → Dict ℤ Text
loads_of [] d = d
loads_of (load_part s ∷ ps) d = loads_of ps (put d (pos s.number) s.name)
loads_of (scene_part s ∷ ps) d = loads_of ps d
loads_of (button_part b ∷ ps) d = loads_of ps d

abbrev pub dimmable_of : List Part → Dict ℤ Bool → Dict ℤ Bool
dimmable_of [] d = d
dimmable_of (load_part s ∷ ps) d = dimmable_of ps (put d (pos s.number) s.dimmer)
dimmable_of (scene_part s ∷ ps) d = dimmable_of ps d
dimmable_of (button_part b ∷ ps) d = dimmable_of ps d

abbrev pub scenes_of : List Part → Dict ℤ Text → Dict ℤ Text
scenes_of [] d = d
scenes_of (load_part s ∷ ps) d = scenes_of ps d
scenes_of (scene_part s ∷ ps) d = scenes_of ps (put d (pos s.number) s.name)
scenes_of (button_part b ∷ ps) d = scenes_of ps d

abbrev pub add_members : List (ℕ × Text) → List ℤ → List ℤ
add_members [] ids = ids
add_members (m ∷ ms) ids = add_members ms (add (pos m.0) ids)

-- The loads of the scenes, and of the active buttons that work a load.
abbrev pub referenced_of : List Part → List ℤ → List ℤ
referenced_of [] ids = ids
referenced_of (load_part s ∷ ps) ids = referenced_of ps ids
referenced_of (scene_part s ∷ ps) ids = referenced_of ps (add_members s.loads ids)
referenced_of (button_part b ∷ ps) ids =
    referenced_of ps (if b.of_load && b.active then add (pos b.target) ids else ids)

-- The buttons with a name, 24 in a tab.
abbrev pub switches_of : List Part → Dict ℤ Text → Dict ℤ Text
switches_of [] d = d
switches_of (load_part s ∷ ps) d = switches_of ps d
switches_of (scene_part s ∷ ps) d = switches_of ps d
switches_of (button_part b ∷ ps) d =
    switches_of ps (if is_empty b.name then d else put d (pos (b.letter * 24 + b.number)) b.name)
