-- ===== src/Switch/Shows.antt =====
-- What the entities show after an event or a command.
use centralite_ha.Base.{ℤ, pos, Bool, false, if◌then◌else◌, ◌≡◌, refl, arith, ok, err, Result}
use centralite_ha.Dict.{get-put, int_beq, pair_beq, int_eq, pair_eq}
use centralite_ha.Protocol.Event.{SwitchEvent, SceneEvent}
use centralite_ha.Coordinator.State.{Coordinator}
use centralite_ha.Coordinator.Handlers.{on_switch_event, on_scene_event, command_scene, holds}
use centralite_ha.Switch.{SwitchEntity, elegance_button, jetstream_button, scene_switch, is_on}

-- The entity stands for this button; one for a scene stands for none.
abbrev pub is_button : SwitchEntity → ℤ × ℤ → Bool
is_button (elegance_button idx) key = pair_beq key (idx, pos 0)
is_button (jetstream_button device button) key = pair_beq key (device, button)
is_button (scene_switch idx) key = false

abbrev pub is_scene : SwitchEntity → ℤ → Bool
is_scene (elegance_button idx) key = false
is_scene (jetstream_button device button) key = false
is_scene (scene_switch idx) key = int_beq key idx

-- A switch event turns the entities of its button on, or off if it is a release, and no other entity
-- changes.
pub is_on-on_switch_event :
    (registered : Bool) (c : Coordinator) (event : SwitchEvent) (entity : SwitchEntity)
    → is_on (on_switch_event registered c event).0 entity
      ≡ (if is_button entity (event.idx, event.button) then holds event.action else is_on c entity)
unfolding is_on on_switch_event
is_on-on_switch_event registered c event (elegance_button idx) =
    ground (arith, get-put c.switches (event.idx, event.button) (idx, pos 0) (holds event.action))
is_on-on_switch_event registered c event (jetstream_button device button) =
    ground
      (arith, get-put c.switches (event.idx, event.button) (device, button) (holds event.action))
is_on-on_switch_event registered c event (scene_switch idx) = refl

-- A scene event turns the entities of its scene on or off as it says, and no other entity changes.
pub is_on-on_scene_event :
    (c : Coordinator) (event : SceneEvent) (entity : SwitchEntity)
    → is_on (on_scene_event c event) entity
      ≡ (if is_scene entity event.idx then event.active else is_on c entity)
unfolding is_on on_scene_event
is_on-on_scene_event c event (elegance_button idx) = refl
is_on-on_scene_event c event (jetstream_button device button) = refl
is_on-on_scene_event c event (scene_switch idx) =
    ground (arith, get-put c.scenes event.idx idx event.active)

-- What a scene command makes of the scene's own entity: shown as commanded, if the command was sent and
-- the bridge does not push scenes.
abbrev pub shown : Bool → Bool → Result (Unit {0}) → Bool → Bool
shown pushes active (ok _) before = if pushes then before else active
shown pushes active (err e) before = before

-- A scene command is shown on the entities of its scene at once, if it was sent and the bridge does not
-- push scenes, and otherwise no entity changes; entities of another scene or of a button never do.
pub is_on-command_scene :
    (active : Bool) (c : Coordinator) (idx : ℤ) (sent : Result (Unit {0})) (entity : SwitchEntity)
    → is_on (command_scene active c idx sent) entity ≡ (
        if is_scene entity idx
        then shown c.bridge.supports_scene_push active sent (is_on c entity)
        else is_on c entity)
unfolding is_on command_scene
is_on-command_scene active c idx sent (elegance_button k) = ground arith
is_on-command_scene active c idx sent (jetstream_button device button) = ground arith
is_on-command_scene active c idx sent (scene_switch k) =
    ground (arith, get-put c.scenes idx k active)
