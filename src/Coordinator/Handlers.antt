-- ===== src/Coordinator/Handlers.antt =====
-- The callbacks of the protocol and the commands of the entities.
use centralite_ha.Base.{ℤ, Bool, true, false, List, [], ◌∷◌, ◌++◌, if◌then◌else◌, Result, ok, err}
use centralite_ha.Text.{Text, codes}
use centralite_ha.Text.Number.{pad_int, show_int}
use centralite_ha.Dict.{put, int_eq, pair_eq}
use centralite_ha.Protocol.Event.{LoadEvent, SwitchEvent, SceneEvent, Action, tap, press, release}
use centralite_ha.Coordinator.State.{
  Coordinator, set_updated, set_update_error, cancel_poll, cancel_reconnect, schedule_reconnect,
}
use centralite_ha.Coordinator.Loads.{load_changed}

unfoldable pub on_load_event : Coordinator → LoadEvent → Coordinator
unfolding set_updated
on_load_event c event = set_updated (record c { loads = load_changed c.loads event })

-- event.action != "release"
abbrev pub holds : Action → Bool
holds tap = true
holds press = true
holds release = false

-- The data of an EVENT_BUTTON bus event, but for the device id.
pub record ButtonEvent : Type 0 where
  pub action : Action
  pub subtype : Text

-- const.py: f"device_{device_idx:03d}_button_{button}"
unfoldable pub button_subtype : ℤ → ℤ → Text
button_subtype device_idx button =
    codes "device_" ++ (pad_int 3 device_idx ++ (codes "_button_" ++ show_int button))

-- _fire_button_event: nothing is fired before the device is registered.
unfoldable pub fire_button_event : Bool → SwitchEvent → List ButtonEvent
fire_button_event registered event =
    if registered
    then record { action = event.action; subtype = button_subtype event.idx event.button } ∷ []
    else []

unfoldable pub on_switch_event : Bool → Coordinator → SwitchEvent → Coordinator × List ButtonEvent
unfolding set_updated fire_button_event
on_switch_event registered c event = (
  set_updated
      (record c { switches = put c.switches (event.idx, event.button) (holds event.action) }),
  fire_button_event registered event,
)

unfoldable pub on_scene_event : Coordinator → SceneEvent → Coordinator
unfolding set_updated
on_scene_event c event = set_updated (record c { scenes = put c.scenes event.idx event.active })

-- activate_scene and deactivate_scene: `sent` is what the protocol's command did.
unfoldable pub command_scene : Bool → Coordinator → ℤ → Result (Unit {0}) → Coordinator
unfolding set_updated
command_scene active c idx (err e) = c
command_scene active c idx (ok _) =
    if c.bridge.supports_scene_push
    then c
    else set_updated (record c { scenes = put c.scenes idx active })

unfoldable pub on_disconnect : Coordinator → Coordinator
unfolding cancel_poll set_update_error schedule_reconnect
on_disconnect c = schedule_reconnect (set_update_error (cancel_poll c))

-- async_shutdown, up to and with the disconnect that it awaits.
unfoldable pub shutdown : Coordinator → Coordinator
unfolding cancel_poll cancel_reconnect
shutdown c =
    let c' = cancel_reconnect (cancel_poll (record c { shutting_down = true })) in
    record c' { connected = false }
