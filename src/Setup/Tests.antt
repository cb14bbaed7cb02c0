-- ===== src/Setup/Tests.antt =====
-- An entry of an Elegance system, and the theorems about its set-up at it.
use centralite_ha.Base.{
  Bool, true, false, transport_error, none, some, [], ◌∷◌, map, ◌≡◌, refl, ok, err, not_implemented,
  ◌++◌, arith,
}
use mathlib.Core.Logic.{◌⊎◌}
use centralite_ha.Text.{Text, codes, splitlines, strip, rstrip_cr}
use centralite_ha.Text.Number.{pad_int, pad, show, int}
use centralite_ha.Text.Match.{has_char, partition}
use centralite_ha.Parsers.Elg.{parse_elg}
use centralite_ha.Parsers.Elg.Sections.{section_match, load_header, scene_header}
use centralite_ha.Dict.{get, pop, text_key}
use centralite_ha.Sets.{member}
use centralite_ha.Sets.Sorted.{is_distinct}
use centralite_ha.Coordinator.Schedule.{start, initial, breaks}
use centralite_ha.Coordinator.Reconnect.{Task}
use centralite_ha.Coordinator.Handlers.{on_disconnect}
use centralite_ha.Setup.Init.{Steps, stays, then_step, cancel_poll-link, waiting, IsEventLoop}
use centralite_ha.Migrate.Registry.{
  Row, is_candidate, by_result, start as begin, migrate_entries, finishes,
}
use centralite_ha.Migrate.Effect.{
  distinct, in_rows, moves_free, taken, domain_of, platform_of, change,
}
use centralite_ha.Migrate.Tests.{Home, home, loaded, home-IsRegistry, old_home}
use centralite_ha.ConfigFlow.Draft.{elegance, fails, scan_failed}
use centralite_ha.ConfigFlow.Tests.{no_tree, elegance_form, elegance_entry, elegance_run}
use centralite_ha.Setup.{
  HomeAssistant, Hass, Opening, Pause, migrate_first, async_options_updated, async_setup_entry,
  async_unload_entry,
}
use centralite_ha.Setup.Entry.{ConfigEntry, Protocol, protocol_of, bridge_of, capabilities}
use centralite_ha.Setup.Entities.{setup_light, unique_id_of, entities_of}
use centralite_ha.Setup.Lifecycle.{IsRunning, IsStopped, setup_entry-starts, unload_entry-stops}
use centralite_ha.Setup.Reload.{set_up_again, IsReloaded, options_updated-IsReloaded}
use centralite_ha.Setup.Retry.{attempts, rows, migration, attempts-migrate_once}
use centralite_ha.Protocol.Session.{Session, fresh}
use centralite_ha.Protocol.Clock.{parse_bcd_clock}
use centralite_ha.Protocol.Clock.Date.{DateTime, days_in_month}
use centralite_ha.Protocol.Clock.RoundTrip.{as_read}
use centralite_ha.Migrate.{classify}
use centralite_ha.Migrate.Adoption.{elegance_load}
use centralite_ha.Setup.TakenOver.{by_result-IsTakenOver, IsTakenOver}
use centralite_ha.Setup.Clock.{async_press, async_press-read}
use centralite_ha.Light
use centralite_ha.Setup.Names.{name_of, step_import-light_name}
use centralite_ha.Setup.Imported.{step_import-unique_ids}

abbrev house : ConfigEntry
house = record {
  entry_id = codes "abc";
  title = [];
  system_type = codes "elegance";
  port = codes "/dev/ttyUSB0";
  baud = none;
  config = elegance_entry;
  poll_interval = none;
  sync_clock_on_connect = some true;
}

unique_ids_test :
    map unique_id_of (entities_of true house)
    ≡ codes "abc_sync_clock"
      ∷ codes "abc_load_001"
      ∷ codes "abc_load_003"
      ∷ codes "abc_load_007"
      ∷ codes "abc_load_012"
      ∷ codes "abc_switch_002"
      ∷ codes "abc_switch_044"
      ∷ codes "abc_scene_004"
      ∷ []
unfolding entities_of pad_int
unique_ids_test = refl

step_import-unique_ids_example : is_distinct (map unique_id_of (entities_of true house)) ≡ true
step_import-unique_ids_example =
    step_import-unique_ids no_tree elegance elegance_form (fails scan_failed) house true
      elegance_run refl

step_import-light_name_example :
    map name_of (setup_light house)
    ≡ codes "Hall" ∷ codes "Load 003" ∷ codes "Load 007" ∷ codes "Load 012" ∷ []
unfolding parse_elg splitlines strip rstrip_cr get pad_int pad show section_match load_header
    scene_header has_char partition int
step_import-light_name_example =
    step_import-light_name no_tree elegance_form (fails scan_failed) house elegance_run

-- A home whose calls change nothing but the registry.
abbrev quiet_home : HomeAssistant Home
quiet_home = record {
  registry = home;
  create_issue = λ issue s. s;
  forward_entry_setups = λ entry_id added s. s;
  unload_platforms = λ entry_id s. (true, s);
  add_update_listener = λ entry_id s. s;
}

abbrev at_start : Hass Home
at_start = record { coordinators = []; home = old_home }

abbrev break_if : Bool → Pause → Pause
break_if true p = record p {
  coordinator = on_disconnect (record p.coordinator { connected = false });
}
break_if false p = p

-- The link breaks while async_init waits, where it is up.
abbrev break_in : Task → Pause → Pause
break_in t p = break_if p.coordinator.connected p

abbrev opens : Opening
opens = record { opened = true; load_states = err transport_error; meanwhile = break_in }

break_if-Steps :
    (up : Bool) (t : Task) (p : Pause)
    → p.coordinator.connected ≡ up
    → Steps (waiting t p) (waiting t (break_if up p))
break_if-Steps true t p e = then_step stays (breaks e)
break_if-Steps false t p e = stays

break_if-loaded :
    (up : Bool) (p : Pause)
    → (break_if up p).coordinator.shutting_down ≡ p.coordinator.shutting_down
unfolding on_disconnect
break_if-loaded true p =
    ground (arith, cancel_poll-link (record p.coordinator { connected = false }))
break_if-loaded false p = refl

opens-IsEventLoop : IsEventLoop opens
opens-IsEventLoop = record {
  steps = λ t p. break_if-Steps p.coordinator.connected t p refl;
  loaded = λ t p. break_if-loaded p.coordinator.connected p;
}

abbrev stays_closed : Opening
stays_closed = record { opened = false; load_states = ok []; meanwhile = break_in }

abbrev elegance_protocol : Protocol
elegance_protocol = record { system = elegance; port = codes "/dev/ttyUSB0"; baudrate = 19200 }

setup_entry-starts_example :
    IsRunning quiet_home house elegance_protocol at_start
      (async_setup_entry quiet_home house opens at_start)
unfolding protocol_of migrate_first migrate_entries classify int pad_int change taken domain_of
    platform_of async_unload_entry pop
setup_entry-starts_example =
    setup_entry-starts quiet_home house elegance_protocol opens at_start opens-IsEventLoop refl refl
      refl

abbrev running : Hass Home
running = record {
  coordinators = (codes "abc", (initial (bridge_of elegance house)).coordinator) ∷ [];
  home = old_home;
}

unload_entry-stops_example :
    IsStopped quiet_home house
      (bridge_of elegance house)
      running
      (async_unload_entry quiet_home house running)
unfolding get
unload_entry-stops_example =
    unload_entry-stops quiet_home house (bridge_of elegance house)
      (initial (bridge_of elegance house)).coordinator (initial (bridge_of elegance house)).tasks
      running refl (start refl) refl

-- async_reload at the entry alone.
abbrev reload_house : Text → Hass Home → Hass Home
reload_house id hass =
    set_up_again quiet_home house opens (async_unload_entry quiet_home house hass).returns
      (async_unload_entry quiet_home house hass).hass

options_updated-IsReloaded_example :
    IsReloaded quiet_home house
      (bridge_of elegance house)
      elegance_protocol
      running
      (async_options_updated reload_house house running)
unfolding get protocol_of migrate_first migrate_entries classify int pad_int change taken domain_of
    platform_of async_unload_entry pop
options_updated-IsReloaded_example =
    options_updated-IsReloaded quiet_home house reload_house (bridge_of elegance house)
      elegance_protocol opens (initial (bridge_of elegance house)).coordinator
      (initial (bridge_of elegance house)).tasks running refl opens-IsEventLoop refl refl refl refl
      (start refl) refl

attempts-migrate_once_example :
    (rows quiet_home house (attempts quiet_home house (stays_closed ∷ stays_closed ∷ []) at_start)
      ≡ (migrate_entries home (codes "elegance") (codes "abc") old_home).0.0)
    × (migration quiet_home house
          (attempts quiet_home house (stays_closed ∷ stays_closed ∷ []) at_start)
        ≡ finishes none)
unfolding protocol_of distinct in_rows moves_free taken domain_of classify int pad_int
    migrate_entries migrate_first change platform_of
attempts-migrate_once_example =
    attempts-migrate_once quiet_home house loaded home-IsRegistry (λ issue s. refl)
      {protocol = elegance_protocol} refl stays_closed (stays_closed ∷ []) at_start refl (refl, tt)
      refl refl refl

abbrev old_row : Row
old_row = record {
  entity_id = codes "light.path";
  unique_id = codes "elegance.L007";
  platform = codes "centralite";
  config_entry_id = none;
}

by_result-IsTakenOver_example :
    (is_candidate house.system_type old_row ≡ true)
    × IsTakenOver house true home loaded home-IsRegistry old_home.0 [] old_row (
        by_result home house.entry_id old_row
          (classify old_row.unique_id)
          (begin (old_home.0 ++ old_row ∷ [], [])))
unfolding member domain_of taken pad Light.unique_id in_rows
by_result-IsTakenOver_example =
    by_result-IsTakenOver house true home loaded home-IsRegistry old_home.0 [] old_row
      (elegance_load 7) (begin (old_home.0 ++ old_row ∷ [], [])) refl refl refl (omega arith)
      (refl, refl) refl refl refl refl refl

abbrev new_year : DateTime
new_year = record {
  year = 2026;
  month = 1;
  day = 1;
  hour = 0;
  minute = 0;
  second = 1;
  microsecond = 500;
}

abbrev connected : Session
connected = record fresh { writer = true }

async_press-read_example :
    (((capabilities elegance).supports_clock ≡ true)
      × (payload : Text) × (async_press elegance new_year connected
          ≡ (ok tt, record connected { sent = (codes "^L" ++ payload) ∷ [] }))
      × (parse_bcd_clock payload ≡ ok (as_read new_year)))
    ⊎ (((capabilities elegance).supports_clock ≡ false)
        × (async_press elegance new_year connected ≡ (err not_implemented, connected)))
unfolding days_in_month
async_press-read_example =
    async_press-read elegance new_year connected
      (record {
        year_pos = omega arith;
        year_le = omega arith;
        month_pos = omega arith;
        month_le = omega arith;
        day_pos = omega arith;
        day_le = omega arith;
        hour_lt = omega arith;
        minute_lt = omega arith;
        second_lt = omega arith;
      })
      refl
