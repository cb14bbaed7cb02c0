-- ===== src/Setup/Reload.antt =====
-- custom_components/centralite/__init__.py: an entry whose options change is unloaded and set up again.
use centralite_ha.Base.{true, false, Bool, Option, none, some, List, ◌≡◌, refl, ◌∙◌}
use centralite_ha.Text.{Text}
use centralite_ha.Dict.{get, text_key}
use centralite_ha.Coordinator.State.{Bridge, Coordinator}
use centralite_ha.Coordinator.Reconnect.{Task}
use centralite_ha.Coordinator.Schedule.{Reachable}
use centralite_ha.Setup.{
  HomeAssistant, Hass, Opening, migrate_first, async_setup_entry, async_unload_entry,
  async_options_updated,
}
use centralite_ha.Setup.Entry.{ConfigEntry, Protocol, protocol_of, bridge_of}
use centralite_ha.Migrate.Once.{has_raised}
use centralite_ha.Setup.Init.{IsStarted, IsEventLoop}
use centralite_ha.Setup.Lifecycle.{SameOthers, IsStopped, setup_entry-starts, unload_entry-stops}

module _ {S : Type 0} (ha : HomeAssistant S) (entry : ConfigEntry) where
  -- Home Assistant sets an entry up again where its unload has returned True.
  abbrev pub set_up_again : Opening → Option Bool → Hass S → Hass S
  set_up_again o (some true) hass = (async_setup_entry ha entry o hass).1
  set_up_again o (some false) hass = hass
  set_up_again o none hass = hass

  -- What Home Assistant documents of async_reload, for this entry.
  abbrev pub Reloads : (Text → Hass S → Hass S) → Opening → Hass S → Type 0
  Reloads reload o hass =
      reload entry.entry_id hass
      ≡ set_up_again o (async_unload_entry ha entry hass).returns
          (async_unload_entry ha entry hass).hass

  -- The coordinator that served the entry is shut down, and another serves it.
  abbrev pub IsReloaded : Bridge → Protocol → Hass S → Hass S → Type 0
  IsReloaded bridge protocol hass hass' =
      IsStopped ha entry bridge hass (async_unload_entry ha entry hass)
      × (c : Coordinator) × (get hass'.coordinators entry.entry_id ≡ some c)
      × IsStarted (bridge_of protocol.system entry) c
      × SameOthers ha entry hass hass'

  reload-set_up :
      (reload : Text → Hass S → Hass S) (o : Opening) (hass : Hass S)
      → Reloads reload o hass
      → (async_unload_entry ha entry hass).returns ≡ some true
      → async_options_updated reload entry hass
        ≡ (async_setup_entry ha entry o (async_unload_entry ha entry hass).hass).1
  unfolding async_options_updated
  reload-set_up reload o hass reloads returned = rw (reloads, returned) refl

  -- Where async_reload unloads an entry and then sets it up, the system of the entry is known, its
  -- platforms unload, its migration does not raise and the port opens again, a change of the options of
  -- an entry that is set up shuts its coordinator down, in whatever reachable state it is, with no timer
  -- left and the port closed, and puts in its place one that is started with the options of the entry,
  -- its link up or, where it broke during the set-up, with one reconnect armed or under way; the other
  -- entries keep theirs.
  pub options_updated-IsReloaded :
      (reload : Text → Hass S → Hass S) (bridge : Bridge) (protocol : Protocol) (o : Opening)
      (c : Coordinator) (tasks : List Task) (hass : Hass S)
      → Reloads reload o hass
      → IsEventLoop o
      → protocol_of entry ≡ some protocol
      → o.opened ≡ true
      → has_raised (migrate_first ha entry (async_unload_entry ha entry hass).hass).1 ≡ false
      → get hass.coordinators entry.entry_id ≡ some c
      → Reachable bridge (record { coordinator = c; tasks = tasks })
      → (ha.unload_platforms entry.entry_id hass.home).0 ≡ true
      → IsReloaded bridge protocol hass (async_options_updated reload entry hass)
  options_updated-IsReloaded reload bridge protocol o c tasks hass reloads loop known up quiet found
        r unloaded =
      let stopped = unload_entry-stops ha entry bridge c tasks hass found r unloaded in
      let (returned, _, kept, _, _, _, _, _) = stopped in
      let (_, fresh_c, stored, started, others) =
        setup_entry-starts ha entry protocol o (async_unload_entry ha entry hass).hass loop known up
          quiet in
      rw (reload-set_up reload o hass reloads returned)
        (stopped, fresh_c, stored, started, λ id other. others id other ∙ kept id other)
