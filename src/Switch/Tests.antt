-- ===== src/Switch/Tests.antt =====
-- The theorems about the switch entities in concrete states.
use centralite_ha.Base.{pos, true, false, [], ◌∷◌, ◌≡◌, if◌then◌else◌, ok}
use centralite_ha.Coordinator.State.{Bridge, Coordinator, create}
use centralite_ha.Coordinator.Handlers.{command_scene}
use centralite_ha.Switch.{scene_switch, is_on}
use centralite_ha.Switch.Shows.{is_scene, shown, is_on-command_scene}

abbrev pushing : Bridge
pushing = record {
  supports_bulk_query = false;
  supports_scene_push = true;
  supports_clock = false;
  poll_interval = 300;
  sync_clock_on_connect = false;
}

-- Button 2 of device 5 is held, and scene 4 is active.
abbrev held : Coordinator
held = record (create pushing) {
  switches = ((pos 5, pos 2), true) ∷ [];
  scenes = (pos 4, true) ∷ [];
}

is_on-command_scene_example :
    is_on (command_scene false held (pos 4) (ok tt)) (scene_switch (pos 4)) ≡ (
      if is_scene (scene_switch (pos 4)) (pos 4)
      then shown held.bridge.supports_scene_push false (ok tt) (is_on held (scene_switch (pos 4)))
      else is_on held (scene_switch (pos 4)))
is_on-command_scene_example = is_on-command_scene false held (pos 4) (ok tt) (scene_switch (pos 4))
