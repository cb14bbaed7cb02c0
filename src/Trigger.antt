-- ===== src/Trigger.antt =====
-- custom_components/centralite/device_trigger.py: the device triggers of the physical buttons.
pub mod Coverage
mod Tests
use centralite_ha.Base.{
  ℕ, ℤ, pos, negsuc, Bool, true, false, ◌&&◌, ◌||◌, Option, none, some, List, [], ◌∷◌, ◌++◌, map,
  if◌then◌else◌, leb, range_from,
}
use centralite_ha.Text.{Text, text_eq}
use centralite_ha.Dict.{int_eq}
use centralite_ha.Sets.{sorted_set, int_order}
use centralite_ha.Protocol.Event.{Action, tap, press, release}
use centralite_ha.Protocol.JetStream.{jetstream_max_buttons_per_switch}
use centralite_ha.Coordinator.Handlers.{ButtonEvent, button_subtype}

-- The fields of a config entry that the enumeration reads; a key that is missing is an empty list.
pub record Entry : Type 0 where
  pub is_jetstream : Bool
  pub load_ids : List ℤ
  pub button_ids : List (ℤ × ℤ)
  pub switch_ids : List ℤ

-- _trigger, without the platform, the domain and the device id, which are the same in all.
pub record Trigger : Type 0 where
  pub trigger_type : Action
  pub subtype : Text

abbrev pub trigger_types : List Action
trigger_types = tap ∷ press ∷ release ∷ []

-- `triggers += ...` in a `for` loop
abbrev pub collect : {A B : Type 0} → (A → List B) → List A → List B
collect f [] = []
collect f (a ∷ as') = f a ++ collect f as'

abbrev pub button_triggers : List Action → ℤ → ℤ → List Trigger
button_triggers types device_idx button =
    map (λ t. record { trigger_type = t; subtype = button_subtype device_idx button }) types

abbrev pub device_triggers : ℤ → List Trigger
device_triggers device_idx =
    collect (λ button. button_triggers trigger_types device_idx (pos button))
      (range_from 1 jetstream_max_buttons_per_switch)

abbrev pub known_devices : Entry → List ℤ
known_devices entry = entry.load_ids ++ map (λ pair. pair.0) entry.button_ids

-- async_get_triggers; `none` where the device or its entry is gone.
unfoldable pub get_triggers : Option Entry → List Trigger
get_triggers none = []
get_triggers (some entry) =
    if entry.is_jetstream
    then collect device_triggers (sorted_set (known_devices entry))
    else collect (λ idx. button_triggers (press ∷ release ∷ []) idx (pos 0)) entry.switch_ids

abbrev pub action_eq : Action → Action → Bool
action_eq tap tap = true
action_eq press press = true
action_eq release release = true
action_eq tap press = false
action_eq tap release = false
action_eq press tap = false
action_eq press release = false
action_eq release tap = false
action_eq release press = false

-- async_attach_trigger: the trigger runs its automation on a bus event with the same data.
abbrev pub fires : ButtonEvent → Trigger → Bool
fires event t = action_eq t.trigger_type event.action && text_eq t.subtype event.subtype
