-- ===== src/Coordinator/Tests.antt =====
-- Runs of the coordinator, and the theorems about it at concrete states.
use centralite_ha.Base.{
  ◌+◌, ◌-◌, ◌*◌, ◌^◌, ◌≤◌, min, pos, true, false, some, [], ◌∷◌, ◌≡◌, refl, arith, ok,
}
use centralite_ha.Dict.{get, put, int_eq}
use centralite_ha.Protocol.Bitmap.{BitMap}
use centralite_ha.Coordinator.State.{
  Bridge, Coordinator, create, reconnect_max_delay, reconnect_initial_delay,
}
use centralite_ha.Coordinator.Loads.{Loads, merge, poll_load}
use centralite_ha.Coordinator.Loads.Merge.{merged_entry, get-merge}
use centralite_ha.Coordinator.Handlers.{on_disconnect, shutdown}
use centralite_ha.Coordinator.Reconnect.{
  tearing_down, connecting, closing, init_connected, try_reconnect, torn_down, reconnected, closed,
}
use centralite_ha.Coordinator.Schedule.{
  System, Outcome, resume, after_segment, initial, Reachable, start, next, breaks, unload,
  fire_reconnect, resumes,
}
use centralite_ha.Coordinator.Invariant.{count, is_attempt}
use centralite_ha.Coordinator.Invariant.Safety.{
  link_down-recovers, timers_le_one, unloaded_timers, unloaded_closed,
}
use centralite_ha.Coordinator.Backoff.{IsArmed, failed_attempts, failed_attempts_delay}

abbrev elegance : Bridge
elegance = record {
  supports_bulk_query = true;
  supports_scene_push = false;
  supports_clock = true;
  poll_interval = 300;
  sync_clock_on_connect = true;
}

abbrev jetstream : Bridge
jetstream = record {
  supports_bulk_query = false;
  supports_scene_push = true;
  supports_clock = false;
  poll_interval = 300;
  sync_clock_on_connect = false;
}

abbrev after_break : System → System
after_break s = record s {
  coordinator = on_disconnect (record s.coordinator { connected = false });
}

-- The link breaks during the first bulk query.
abbrev broken_elegance : System
broken_elegance = after_break (initial elegance)

broken_elegance-Reachable : Reachable elegance broken_elegance
unfolding init_connected
broken_elegance-Reachable = next (start refl) (breaks refl)

link_down-recovers_example :
    broken_elegance.coordinator.reconnect_timers + count is_attempt broken_elegance.tasks ≡ 1
unfolding init_connected on_disconnect
link_down-recovers_example =
    link_down-recovers elegance broken_elegance broken_elegance-Reachable refl refl

timers_le_one_example :
    (broken_elegance.coordinator.poll_timers ≤ 1)
    × (broken_elegance.coordinator.reconnect_timers + count is_attempt broken_elegance.tasks ≤ 1)
timers_le_one_example = timers_le_one elegance broken_elegance broken_elegance-Reachable

-- A JetStream bridge drops, its reconnect timer fires, the entry is unloaded while the old transport
-- is torn down, the connect succeeds all the same, and the coroutine closes the new link.
abbrev opens : Outcome
opens = record { opened = true; load_states = ok [] }

abbrev dropped : System
dropped = after_break (initial jetstream)

abbrev retried : System
retried =
    after_segment
      (try_reconnect (record dropped.coordinator {
        reconnect_timers = dropped.coordinator.reconnect_timers - 1;
      }))
      [] dropped.tasks

abbrev unloaded : System
unloaded = record retried { coordinator = shutdown retried.coordinator }

abbrev torn : System
torn = after_segment (resume tearing_down opens unloaded.coordinator) [] []

abbrev reopened : System
reopened = after_segment (resume connecting opens torn.coordinator) [] []

abbrev quiet : System
quiet = after_segment (resume closing opens reopened.coordinator) [] []

unloaded-Reachable : Reachable jetstream unloaded
unfolding init_connected on_disconnect
unloaded-Reachable =
    next (next (next (start refl) (breaks refl)) (fire_reconnect (omega arith))) unload

quiet-Reachable : Reachable jetstream quiet
unfolding init_connected on_disconnect try_reconnect shutdown resume torn_down reconnected
quiet-Reachable =
    next
      (next (next unloaded-Reachable (resumes [] [] tearing_down opens refl))
        (resumes [] [] connecting opens refl))
      (resumes [] [] closing opens refl)

-- The connect has left a link that is still open.
reopened_link : reopened.coordinator.connected ≡ true
unfolding init_connected on_disconnect try_reconnect shutdown resume torn_down reconnected
reopened_link = refl

unloaded_timers_example :
    (unloaded.coordinator.poll_timers ≡ 0) × (unloaded.coordinator.reconnect_timers ≡ 0)
unfolding init_connected on_disconnect try_reconnect shutdown
unloaded_timers_example = unloaded_timers jetstream unloaded unloaded-Reachable refl

unloaded_closed_example : quiet.coordinator.connected ≡ false
unfolding init_connected on_disconnect try_reconnect shutdown resume torn_down reconnected closed
unloaded_closed_example = unloaded_closed jetstream quiet quiet-Reachable refl refl

abbrev armed : Coordinator
armed = record (create jetstream) {
  available = false;
  reconnect_unsub = true;
  reconnect_timers = 1;
}

failed_attempts_delay_example :
    IsArmed (failed_attempts 7 armed)
    × ((failed_attempts 7 armed).reconnect_delay
        ≡ min (reconnect_initial_delay * 2 ^ 7) reconnect_max_delay)
failed_attempts_delay_example =
    failed_attempts_delay 7 armed (record { loaded = refl; idle = refl; held = refl; timer = refl })
      refl

-- Load 1 is dimmed to 40 and load 2 is off; the bridge reports 1 on and 2 on.
abbrev table : Loads
table =
    (pos 1, record { on = true; level = pos 40 })
    ∷ (pos 2, record { on = false; level = pos 0 })
    ∷ []

abbrev report : BitMap
report = (pos 1, true) ∷ (pos 2, true) ∷ []

poll_run : get (merge (table, false) report).0 (pos 2) ≡ some (record { on = true; level = pos 99 })
unfolding merge get put poll_load
poll_run = refl

get-merge_example :
    get (merge (table, false) report).0 (pos 1)
    ≡ merged_entry (get table (pos 1)) (get report (pos 1))
unfolding get
get-merge_example = get-merge report table false (pos 1) (refl, (refl, tt))
