-- ===== src/Setup/Lifecycle.antt =====
-- custom_components/centralite/__init__.py: what is in hass.data while an entry is set up, and what an unload
-- leaves.
use centralite_ha.Base.{true, false, none, some, List, ◌≡◌, refl, ◌∙◌, arith}
use centralite_ha.Text.{Text, text_eq}
use centralite_ha.Dict.{get, text_key, get-put, get-pop, get-put_self, beq_refl}
use centralite_ha.Coordinator.State.{Bridge, Coordinator, cancel_reconnect}
use centralite_ha.Coordinator.Reconnect.{Task}
use centralite_ha.Coordinator.Handlers.{shutdown}
use centralite_ha.Coordinator.Schedule.{unload, Reachable, next}
use centralite_ha.Coordinator.Invariant.Safety.{unloaded_timers}
use centralite_ha.Setup.{
  HomeAssistant, Hass, Opening, SetupResult, set_up, Unload, migrate_first, after_migration,
  finish_setup, async_setup_entry, async_unload_entry,
}
use centralite_ha.Setup.Entry.{ConfigEntry, Protocol, protocol_of, bridge_of}
use centralite_ha.Migrate.Registry.{Ending, raises, finishes}
use centralite_ha.Migrate.Once.{has_raised}
use centralite_ha.Setup.Init.{IsStarted, IsEventLoop, async_init-IsStarted, cancel_poll-link}

shutdown-quiet :
    (bridge : Bridge) (c : Coordinator) (tasks : List Task)
    → Reachable bridge (record { coordinator = c; tasks = tasks })
    → ((shutdown c).poll_timers ≡ 0)
      × ((shutdown c).reconnect_timers ≡ 0)
      × ((shutdown c).connected ≡ false)
unfolding shutdown cancel_reconnect
shutdown-quiet bridge c tasks r =
    let marked : (shutdown c).shutting_down ≡ true =
      ground (arith, cancel_poll-link (record c { shutting_down = true })) in
    let (poll, reconnect) =
      unloaded_timers bridge (record { coordinator = shutdown c; tasks = tasks }) (next r unload)
        marked in
    (poll, reconnect, refl)

module _ {S : Type 0} (ha : HomeAssistant S) (entry : ConfigEntry) where
  -- The other entries.
  abbrev pub SameOthers : Hass S → Hass S → Type 0
  SameOthers hass hass' =
      (id : Text)
      → text_eq entry.entry_id id ≡ false
      → get hass'.coordinators id ≡ get hass.coordinators id

  abbrev pub IsRunning : Protocol → Hass S → SetupResult × Hass S → Type 0
  IsRunning protocol hass outcome =
      (outcome.0 ≡ set_up)
      × (c : Coordinator) × (get outcome.1.coordinators entry.entry_id ≡ some c)
      × IsStarted (bridge_of protocol.system entry) c
      × SameOthers hass outcome.1

  migrate_first-coordinators :
      (hass : Hass S) → (migrate_first ha entry hass).0.coordinators ≡ hass.coordinators
  unfolding migrate_first
  migrate_first-coordinators hass = refl

  -- The set-up behind a migration that has left the coordinators alone.
  started_behind :
      (protocol : Protocol) (o : Opening) (hass : Hass S) (migrated : Hass S × Ending)
      → IsEventLoop o
      → o.opened ≡ true
      → migrated.0.coordinators ≡ hass.coordinators
      → has_raised migrated.1 ≡ false
      → IsRunning protocol hass (after_migration ha entry protocol o migrated)
  unfolding finish_setup
  started_behind protocol o hass (hass', raises) loop up same quiet = cc
  started_behind protocol o hass (hass', finishes issue) loop up same quiet =
      let (c, made, started) = async_init-IsStarted (bridge_of protocol.system entry) o loop up in
      rw (made, same)
        (
          refl,
          c,
          get-put_self hass.coordinators entry.entry_id c,
          started,
          λ id other. get-put hass.coordinators entry.entry_id id c ∙ rw other refl,
        )

  -- Where the system of the entry is known, its migration does not raise and the port opens, and whatever
  -- breaks of the link, events, timers and coroutines come in while async_init waits, the set-up of the
  -- entry returns True and leaves in hass.data under its id a coordinator in a reachable state that is
  -- not shutting down and whose link is up, or down with one reconnect armed or under way, and the
  -- coordinators of the other entries as they are.
  pub setup_entry-starts :
      (protocol : Protocol) (o : Opening) (hass : Hass S)
      → IsEventLoop o
      → protocol_of entry ≡ some protocol
      → o.opened ≡ true
      → has_raised (migrate_first ha entry hass).1 ≡ false
      → IsRunning protocol hass (async_setup_entry ha entry o hass)
  unfolding async_setup_entry
  setup_entry-starts protocol o hass loop known up quiet = rw known (
      started_behind protocol o hass (migrate_first ha entry hass) loop up
        (migrate_first-coordinators hass) quiet)

  abbrev pub IsStopped : Bridge → Hass S → Unload S → Type 0
  IsStopped bridge hass u =
      (u.returns ≡ some true)
      × (get u.hass.coordinators entry.entry_id ≡ none)
      × SameOthers hass u.hass
      × (c : Coordinator) × (u.stopped ≡ some c)
      × (c.poll_timers ≡ 0)
      × (c.reconnect_timers ≡ 0)
      × (c.connected ≡ false)

  -- Where Home Assistant unloads the platforms, the unload of an entry returns True, takes its coordinator
  -- and no other out of hass.data, and shuts it down: from any reachable state of the coordinator, whatever
  -- is under way, none of its timers is left and the port is closed.
  pub unload_entry-stops :
      (bridge : Bridge) (c : Coordinator) (tasks : List Task) (hass : Hass S)
      → get hass.coordinators entry.entry_id ≡ some c
      → Reachable bridge (record { coordinator = c; tasks = tasks })
      → (ha.unload_platforms entry.entry_id hass.home).0 ≡ true
      → IsStopped bridge hass (async_unload_entry ha entry hass)
  unfolding async_unload_entry
  unload_entry-stops bridge c tasks hass found r unloaded =
      let (no_poll, no_reconnect, closed) = shutdown-quiet bridge c tasks r in
      rw (unloaded, found)
        (
          refl,
          get-pop hass.coordinators entry.entry_id entry.entry_id
              ∙ rw (beq_refl entry.entry_id) refl,
          λ id other. get-pop hass.coordinators entry.entry_id id ∙ rw other refl,
          shutdown c,
          refl,
          no_poll,
          no_reconnect,
          closed,
        )
