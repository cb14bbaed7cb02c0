-- ===== src/Parsers/Elg/Slots.antt =====
-- custom_components/centralite/parsers/elg.py: the loop of parse_elg.
use centralite_ha.Base.{ℤ, Bool, true, Option, none, some, [], if◌then◌else◌, map}
use centralite_ha.Text.{Text, is_empty, codes, starts_with, text_eq, strip, splitlines, upper}
use centralite_ha.Text.Match.{has_char, partition}
use centralite_ha.Dict.{Dict, has, put, int_eq, text_key}
use centralite_ha.Parsers.Elg.Sections.{section_of, load_header, scene_header, each_line}

-- The variables of parse_elg.
pub record Slots : Type 0 where
  pub loads : Dict ℤ Text
  pub scenes : Dict ℤ Text
  pub dimmable : Dict ℤ Bool
  pub current_load : Option ℤ

-- d.setdefault(k, v)
unfoldable pub setdefault : {V : Type 0} → Dict ℤ V → ℤ → V → Dict ℤ V
unfolding has put
setdefault d k v = if has d k then d else put d k v

abbrev pub open_load : ℤ → Slots → Slots
open_load n s = record s {
  current_load = some n;
  loads = setdefault s.loads n [];
  dimmable = setdefault s.dimmable n true;
}

abbrev pub open_scene : Option (ℤ × Text) → Slots → Slots
open_scene none s = record s { current_load = none }
open_scene (some (n, name)) s = record s { current_load = none; scenes = put s.scenes n name }

abbrev pub open_section : Option ℤ → Text → Slots → Slots
open_section none section s = open_scene (scene_header section) s
open_section (some n) section s = open_load n s

abbrev pub assign : ℤ → Text × Text → Slots → Slots
assign n (key, value) s =
    if text_eq (strip key) (codes "NAME")
    then record s { loads = put s.loads n (strip value) }
    else if text_eq (strip key) (codes "DIMMER")
    then record s {
      dimmable = put s.dimmable n (starts_with (map upper (strip value)) (codes "Y"));
    }
    else s

abbrev pub field_line : Option ℤ → Text → Slots → Slots
field_line none stripped s = s
field_line (some n) stripped s =
    if has_char b'=' stripped then assign n (partition b'=' stripped) s else s

abbrev pub slot_line : Option Text → Text → Slots → Slots
slot_line none stripped s = field_line s.current_load stripped s
slot_line (some section) stripped s = open_section (load_header section) section s

unfoldable pub elg_line : Text → Slots → Slots
unfolding setdefault
elg_line line s = if is_empty (strip line) then s else slot_line (section_of line) (strip line) s

unfoldable pub read_slots : Text → Slots
unfolding each_line elg_line
read_slots text =
    each_line elg_line (splitlines text)
      (record { loads = []; scenes = []; dimmable = []; current_load = none })
