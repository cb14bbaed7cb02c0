-- ===== src/Switch.antt =====
-- custom_components/centralite/switch.py: buttons and scenes as switches.
pub mod Shows
mod Tests
use centralite_ha.Base.{ℕ, ℤ, pos, Bool, true, false, Option, none, some, ◌++◌}
use centralite_ha.Text.{Text, codes}
use centralite_ha.Text.Number.{pad_int}
use centralite_ha.Dict.{get, int_eq, pair_eq}
use centralite_ha.Coordinator.State.{Coordinator}

-- The three entity classes, each with the indices that it keeps.
pub data SwitchEntity : Type 0 where
  elegance_button : ℤ → SwitchEntity
  jetstream_button : ℤ → ℤ → SwitchEntity
  scene_switch : ℤ → SwitchEntity

-- What turning an entity on or off does: a call of the protocol or of the coordinator, or nothing.
pub data SwitchCall : Type 0 where
  press_switch release_switch : ℤ → SwitchCall
  tap_switch : ℤ → ℤ → SwitchCall
  activate_scene deactivate_scene : ℤ → SwitchCall
  no_call : SwitchCall

unfoldable pub unique_id : Text → SwitchEntity → Text
unique_id entry_id (elegance_button idx) = entry_id ++ (codes "_switch_" ++ pad_int 3 idx)
unique_id entry_id (jetstream_button device button) =
    entry_id ++ (codes "_button_" ++ (pad_int 3 device ++ (codes "_" ++ pad_int 2 button)))
unique_id entry_id (scene_switch idx) = entry_id ++ (codes "_scene_" ++ pad_int 3 idx)

-- d.get(key, False)
abbrev pub or_false : Option Bool → Bool
or_false none = false
or_false (some b) = b

unfoldable pub is_on : Coordinator → SwitchEntity → Bool
is_on c (elegance_button idx) = or_false (get c.switches (idx, pos 0))
is_on c (jetstream_button device button) = or_false (get c.switches (device, button))
is_on c (scene_switch idx) = or_false (get c.scenes idx)

unfoldable pub turn_on : SwitchEntity → SwitchCall
turn_on (elegance_button idx) = press_switch idx
turn_on (jetstream_button device button) = tap_switch device button
turn_on (scene_switch idx) = activate_scene idx

unfoldable pub turn_off : SwitchEntity → SwitchCall
turn_off (elegance_button idx) = release_switch idx
turn_off (jetstream_button device button) = no_call
turn_off (scene_switch idx) = deactivate_scene idx
