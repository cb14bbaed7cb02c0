-- ===== src/Setup/Imported.antt =====
-- custom_components/centralite/config_flow.py and the platforms: from the form of the import step to the
-- entities.
use centralite_ha.Base.{Bool, true, Option, map, ◌≡◌}
use centralite_ha.Text.{Text}
use centralite_ha.Dict.{Dict, text_key}
use centralite_ha.Sets.Sorted.{is_distinct}
use centralite_ha.Base.{ℤ}
use centralite_ha.Parsers.Jts.Tree.{Element}
use centralite_ha.ConfigFlow.Draft.{System, Attempt, done}
use centralite_ha.ConfigFlow.Steps.{UserInput, step_import}
use centralite_ha.ConfigFlow.Import.{step_import-IsEntry}
use centralite_ha.Setup.Entry.{ConfigEntry}
use centralite_ha.Setup.Entities.{unique_id_of, entities_of}
use centralite_ha.Setup.Unique.{type_of, unique_ids-is_distinct}

-- Whatever was imported, typed or scanned, no two of the entities that the platforms add for an entry that
-- the import step has made have the same unique id, with or without the button for the clock.
pub step_import-unique_ids :
    (fromstring : Text → Option Element) (system : System) (input : UserInput)
    (scan : Attempt (Dict ℤ Text)) (entry : ConfigEntry) (clock : Bool)
    → step_import fromstring system input scan ≡ done entry.config
    → entry.system_type ≡ type_of system
    → is_distinct (map unique_id_of (entities_of clock entry)) ≡ true
step_import-unique_ids fromstring system input scan entry clock made type =
    unique_ids-is_distinct entry system clock type
      (step_import-IsEntry fromstring system input scan entry.config made)
