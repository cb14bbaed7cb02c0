-- ===== src/Setup/Entry.antt =====
-- custom_components/centralite/const.py, protocol/__init__.py and coordinator.py: a config entry, and what its
-- system says of the bridge.
use centralite_ha.Base.{ℕ, Bool, true, false, Option, none, some, [], ◌∷◌, ◌++◌, if◌then◌else◌}
use centralite_ha.Text.{Text, codes, text_eq, is_empty}
use centralite_ha.Dict.{Dict, get, text_key}
use centralite_ha.Coordinator.State.{Bridge}
use centralite_ha.ConfigFlow.Draft.{System, elegance, jetstream}
use centralite_ha.ConfigFlow.Steps.{Entry, or_no}

abbrev pub manufacturer : Text
manufacturer = codes "CentraLite Systems"

abbrev pub system_elegance : Text
system_elegance = codes "elegance"

abbrev pub system_jetstream : Text
system_jetstream = codes "jetstream"

abbrev pub system_elite : Text
system_elite = codes "elite"

abbrev pub system_labels : Dict Text Text
system_labels =
    (system_elegance, codes "Elegance")
    ∷ (system_jetstream, codes "JetStream")
    ∷ (system_elite, codes "eLite")
    ∷ []

abbrev pub default_baud : ℕ
default_baud = 19200

abbrev pub default_poll_interval : ℕ
default_poll_interval = 300

-- What the integration reads of a config entry. `config` holds the ids of its data and the names of its
-- options; an option that the user has not set is `none`.
pub record ConfigEntry : Type 0 where
  pub entry_id : Text
  pub title : Text
  pub system_type : Text
  pub port : Text
  pub baud : Option ℕ
  pub config : Entry
  pub poll_interval : Option ℕ
  pub sync_clock_on_connect : Option Bool

-- d.get(key, default)
abbrev pub or_else {ℓ} : {A : Type ℓ} → Option A → A → A
or_else none default = default
or_else (some a) default = a

-- The capability flags of a protocol.
pub record Capabilities : Type 0 where
  pub supports_device_name_query : Bool
  pub supports_scene_push : Bool
  pub supports_bulk_query : Bool
  pub supports_clock : Bool

-- Those of the base class.
abbrev pub base_capabilities : Capabilities
base_capabilities = record {
  supports_device_name_query = false;
  supports_scene_push = false;
  supports_bulk_query = true;
  supports_clock = false;
}

-- Those that the two protocols override.
abbrev pub capabilities : System → Capabilities
capabilities elegance = record base_capabilities { supports_clock = true }
capabilities jetstream = record base_capabilities {
  supports_device_name_query = true;
  supports_scene_push = true;
  supports_bulk_query = false;
}

-- A protocol object: the class, and the arguments of its constructor.
pub record Protocol : Type 0 where
  pub system : System
  pub port : Text
  pub baudrate : ℕ

-- The protocol that `async_setup_entry` makes; `none` where the system type is not known.
unfoldable pub protocol_of : ConfigEntry → Option Protocol
protocol_of entry =
    let baud = or_else entry.baud default_baud in
    if text_eq entry.system_type system_elegance
    then some (record { system = elegance; port = entry.port; baudrate = baud })
    else if text_eq entry.system_type system_jetstream
    then some (record { system = jetstream; port = entry.port; baudrate = baud })
    else none

-- What the coordinator reads of its protocol and of the options.
abbrev pub bridge_of : System → ConfigEntry → Bridge
bridge_of system entry = record {
  supports_bulk_query = (capabilities system).supports_bulk_query;
  supports_scene_push = (capabilities system).supports_scene_push;
  supports_clock = (capabilities system).supports_clock;
  poll_interval = or_else entry.poll_interval default_poll_interval;
  sync_clock_on_connect = or_no entry.sync_clock_on_connect;
}

-- system_label
unfoldable pub system_label : ConfigEntry → Text
unfolding get
system_label entry = or_else (get system_labels entry.system_type) (codes "Centralite")

-- device_name
unfoldable pub device_name : ConfigEntry → Text
unfolding system_label
device_name entry =
    if is_empty entry.title then codes "Centralite " ++ system_label entry else entry.title
