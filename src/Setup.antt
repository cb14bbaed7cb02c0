-- ===== src/Setup.antt =====
-- custom_components/centralite/__init__.py: a config entry is set up and unloaded. What Home Assistant does of
-- it is a parameter.
pub mod Entry
pub mod Entities
pub mod Suffixes
pub mod Unique
pub mod Init
pub mod Lifecycle
pub mod Reload
pub mod Retry
pub mod Imported
pub mod Names
pub mod Adopted
pub mod TakenOver
pub mod Clock
mod Tests
use centralite_ha.Base.{Bool, true, false, Option, none, some, List, [], Result, if◌then◌else◌}
use centralite_ha.Text.{Text}
use centralite_ha.Dict.{Dict, get, put, pop, text_key}
use centralite_ha.Coordinator.State.{Bridge, Coordinator, create}
use centralite_ha.Coordinator.Reconnect.{Task, Segment, init_connected}
use centralite_ha.Protocol.Bitmap.{BitMap}
use centralite_ha.Coordinator.Handlers.{shutdown}
use centralite_ha.Coordinator.Schedule.{Outcome, resume}
use centralite_ha.Migrate.Registry.{Registry, Issue, Ending, raises, finishes, migrate_entries}
use centralite_ha.Setup.Entry.{ConfigEntry, Protocol, protocol_of, bridge_of, capabilities}
use centralite_ha.Setup.Entities.{Entity, entities_of}

-- What the two functions call of Home Assistant: the entity registry, async_create_issue,
-- async_forward_entry_setups with what the platforms add, async_unload_platforms and what it returns, and
-- add_update_listener.
pub record HomeAssistant (S : Type 0) : Type 0 where
  pub registry : Registry S
  pub create_issue : Issue → S → S
  pub forward_entry_setups : Text → List Entity → S → S
  pub unload_platforms : Text → S → Bool × S
  pub add_update_listener : Text → S → S

-- hass: `coordinators` is hass.data[DOMAIN], by the ids of the entries.
pub record Hass (S : Type 0) : Type 0 where
  pub coordinators : Dict Text Coordinator
  pub home : S

-- Where async_init waits: its coordinator, and the coroutines before and behind it that wait as well.
pub record Pause : Type 0 where
  pub coordinator : Coordinator
  pub before : List Task
  pub after : List Task

-- What async_init meets: whether the port opens, what the bulk query gives, and what the event loop runs
-- while a given await of it waits: breaks of the link, events, timers and other coroutines.
pub record Opening : Type 0 where
  pub opened : Bool
  pub load_states : Result BitMap
  pub meanwhile : Task → Pause → Pause

-- A segment of async_init has run.
pub record InitRun : Type 0 where
  pub segment : Segment
  pub before : List Task
  pub after : List Task

abbrev pub outcome_of : Opening → Outcome
outcome_of o = record { opened = o.opened; load_states = o.load_states }

abbrev pub waits_at : Opening → InitRun → Option Task → InitRun
waits_at o i none = i
waits_at o i (some t) =
    let p =
      o.meanwhile t (record { coordinator = i.segment.0; before = i.before; after = i.after }) in
    record { segment = resume t (outcome_of o) p.coordinator; before = p.before; after = p.after }

-- From one await to the next, where it has not ended.
unfoldable pub go_on : Opening → InitRun → InitRun
unfolding resume
go_on o i = waits_at o i i.segment.1

abbrev pub connected_init : Coordinator → InitRun
connected_init c = record { segment = init_connected c; before = []; after = [] }

-- async_init: the two awaits behind its connect; `none` where the connect raises.
unfoldable pub async_init : Opening → Coordinator → Option Coordinator
unfolding go_on init_connected
async_init o c = if o.opened then some (go_on o (go_on o (connected_init c))).segment.0 else none

-- True, False, ConfigEntryNotReady, and the ValueError of the migration.
pub data SetupResult : Type 0 where
  set_up refused not_ready migration_raises : SetupResult

-- What async_unload_entry returns, `none` for the KeyError of an entry that is not set up, and the
-- coordinator that it has shut down.
pub record Unload (S : Type 0) : Type 0 where
  pub returns : Option Bool
  pub stopped : Option Coordinator
  pub hass : Hass S

module _ {S : Type 0} (ha : HomeAssistant S) where
  abbrev pub report : Ending → S → S
  report raises s = s
  report (finishes none) s = s
  report (finishes (some issue)) s = ha.create_issue issue s

  -- The call of async_migrate_entries, and how it ends.
  unfoldable pub migrate_first : ConfigEntry → Hass S → Hass S × Ending
  unfolding migrate_entries
  migrate_first entry hass =
      let (s, end) = migrate_entries ha.registry entry.system_type entry.entry_id hass.home in
      (record hass { home = report end s }, end)

  -- From the init of the coordinator on.
  unfoldable pub finish_setup :
      ConfigEntry → Protocol → Option Coordinator → Hass S → SetupResult × Hass S
  unfolding entities_of put
  finish_setup entry protocol none hass = (not_ready, hass)
  finish_setup entry protocol (some c) hass =
      let added = entities_of (capabilities protocol.system).supports_clock entry in
      (
        set_up,
        record {
          coordinators = put hass.coordinators entry.entry_id c;
          home =
              ha.add_update_listener entry.entry_id
                (ha.forward_entry_setups entry.entry_id added hass.home);
        },
      )

  -- Behind the migration.
  abbrev pub after_migration :
      ConfigEntry → Protocol → Opening → Hass S × Ending → SetupResult × Hass S
  after_migration entry protocol o (hass, raises) = (migration_raises, hass)
  after_migration entry protocol o (hass, finishes issue) =
      finish_setup entry protocol (async_init o (create (bridge_of protocol.system entry))) hass

  abbrev pub setup_with : ConfigEntry → Opening → Hass S → Option Protocol → SetupResult × Hass S
  setup_with entry o hass none = (refused, hass)
  setup_with entry o hass (some protocol) =
      after_migration entry protocol o (migrate_first entry hass)

  -- async_setup_entry
  unfoldable pub async_setup_entry : ConfigEntry → Opening → Hass S → SetupResult × Hass S
  unfolding protocol_of migrate_first finish_setup async_init
  async_setup_entry entry o hass = setup_with entry o hass (protocol_of entry)

  abbrev pub stop : ConfigEntry → Option Coordinator → Hass S → Unload S
  stop entry none hass = record { returns = none; stopped = none; hass = hass }
  stop entry (some c) hass = record {
    returns = some true;
    stopped = some (shutdown c);
    hass = record hass { coordinators = pop hass.coordinators entry.entry_id };
  }

  -- async_unload_entry
  unfoldable pub async_unload_entry : ConfigEntry → Hass S → Unload S
  unfolding get pop shutdown
  async_unload_entry entry hass =
      let (unload_ok, s) = ha.unload_platforms entry.entry_id hass.home in
      let hass' = record hass { home = s } in
      if unload_ok
      then stop entry (get hass'.coordinators entry.entry_id) hass'
      else record { returns = some false; stopped = none; hass = hass' }

-- _async_options_updated: `reload` is hass.config_entries.async_reload.
unfoldable pub async_options_updated :
    {S : Type 0} → (Text → Hass S → Hass S) → ConfigEntry → Hass S → Hass S
async_options_updated reload entry hass = reload entry.entry_id hass
