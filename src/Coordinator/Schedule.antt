-- ===== src/Coordinator/Schedule.antt =====
-- The event loop: every order in which the timers fire, the coroutines resume with any outcome, the
-- link breaks, events and commands come in, and the entry is unloaded.
use centralite_ha.Base.{
  ◌-◌, ◌<◌, ℤ, Bool, true, false, Option, none, some, List, [], ◌∷◌, ◌++◌, ◌≡◌, Result,
}
use centralite_ha.Protocol.Bitmap.{BitMap}
use centralite_ha.Protocol.Event.{LoadEvent, SwitchEvent, SceneEvent}
use centralite_ha.Coordinator.State.{Bridge, Coordinator, create, stale}
use centralite_ha.Coordinator.Handlers.{
  on_load_event, on_switch_event, on_scene_event, command_scene, on_disconnect, shutdown,
}
use centralite_ha.Coordinator.Reconnect.{
  Task, tearing_down, connecting, priming, syncing, closing, polling, init_priming, init_syncing,
  Segment, try_reconnect, torn_down, reconnected, primed, after_sync, closed, polled,
  init_connected, init_primed, init_synced, prime_loads,
}

-- What an await of the protocol gives: whether the port opened, and what the bulk query returned.
pub record Outcome : Type 0 where
  pub opened : Bool
  pub load_states : Result BitMap

unfoldable pub resume : Task → Outcome → Coordinator → Segment
resume tearing_down o c = torn_down c
resume connecting o c = reconnected o.opened c
resume priming o c = primed o.load_states c
resume syncing o c = after_sync c
resume closing o c = closed c
resume polling o c = polled o.load_states c
resume init_priming o c = init_primed (prime_loads c o.load_states)
resume init_syncing o c = init_synced c

abbrev pub waiting_task : Option Task → List Task
waiting_task none = []
waiting_task (some t) = t ∷ []

pub record System : Type 0 where
  pub coordinator : Coordinator
  -- the coroutines that wait
  pub tasks : List Task

abbrev pub after_segment : Segment → List Task → List Task → System
after_segment (c, t) before after = record {
  coordinator = c;
  tasks = before ++ (waiting_task t ++ after);
}

pub data Step (s : System) : System → Type 0 where
  -- the poll timer fires, and `_poll_unsub` keeps its handle
  fire_poll :
      0 < s.coordinator.poll_timers
      → Step s (record {
        coordinator = record s.coordinator {
          poll_unsub = stale;
          poll_timers = s.coordinator.poll_timers - 1;
        };
        tasks = polling ∷ s.tasks;
      })
  fire_reconnect :
      0 < s.coordinator.reconnect_timers
      → Step s (
          after_segment
            (try_reconnect
              (record s.coordinator { reconnect_timers = s.coordinator.reconnect_timers - 1 }))
            []
            s.tasks)
  resumes :
      (before after : List Task) (t : Task) (o : Outcome)
      → s.tasks ≡ before ++ (t ∷ after)
      → Step s (after_segment (resume t o s.coordinator) before after)
  -- the reader loop ends
  breaks :
      s.coordinator.connected ≡ true
      → Step s
          (record s { coordinator = on_disconnect (record s.coordinator { connected = false }) })
  load : (e : LoadEvent) → Step s (record s { coordinator = on_load_event s.coordinator e })
  switch :
      (registered : Bool) (e : SwitchEvent)
      → Step s (record s { coordinator = (on_switch_event registered s.coordinator e).0 })
  scene : (e : SceneEvent) → Step s (record s { coordinator = on_scene_event s.coordinator e })
  command :
      (active : Bool) (idx : ℤ) (sent : Result (Unit {0}))
      → Step s (record s { coordinator = command_scene active s.coordinator idx sent })
  unload : Step s (record s { coordinator = shutdown s.coordinator })

-- The port has opened in async_init.
abbrev pub initial : Bridge → System
initial bridge = after_segment (init_connected (create bridge)) [] []

pub data Reachable (bridge : Bridge) : System → Type 0 where
  start : {s : System} → s ≡ initial bridge → Reachable bridge s
  next : {s t : System} → Reachable bridge s → Step s t → Reachable bridge t
