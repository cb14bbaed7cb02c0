-- ===== src/Parsers/Elg.antt =====
-- custom_components/centralite/parsers/elg.py: the reader of .elg files, on ASCII text.
pub mod Sections
pub mod Referenced
pub mod Switches
pub mod Slots
pub mod Ranges
pub mod Lines
pub mod RoundTrip
pub mod Headers
pub mod Bodies
pub mod Print
pub mod PrintSlots
pub mod PrintFields
pub mod PrintReferenced
pub mod PrintSwitches
pub mod Whole
use centralite_ha.Base.{ℤ, Bool, List}
use centralite_ha.Text.{Text}
use centralite_ha.Dict.{Dict}
use centralite_ha.Parsers.Elg.Referenced.{referenced_load_ids}
use centralite_ha.Parsers.Elg.Switches.{named_switches}
use centralite_ha.Parsers.Elg.Slots.{read_slots}

pub record ElgConfig : Type 0 where
  pub loads : Dict ℤ Text
  pub scenes : Dict ℤ Text
  pub dimmable : Dict ℤ Bool
  pub referenced_loads : List ℤ
  pub switches : Dict ℤ Text

unfoldable pub parse_elg : Text → ElgConfig
unfolding read_slots referenced_load_ids named_switches
parse_elg text =
    let s = read_slots text in
    record {
      loads = s.loads;
      scenes = s.scenes;
      dimmable = s.dimmable;
      referenced_loads = referenced_load_ids text;
      switches = named_switches text;
    }
