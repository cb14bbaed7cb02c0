-- ===== src/Setup/Init.antt =====
-- custom_components/centralite/coordinator.py: async_init, whatever the event loop runs during its awaits.
use centralite_ha.Base.{
  ◌+◌, Bool, true, false, Option, none, some, List, ◌∷◌, ◌++◌, ◌≡◌, refl, ap, ◌∙◌, arith,
  if◌then◌else◌, inl, inr, Result, ok, err,
}
use mathlib.Core.Logic.{◌⊎◌}
use centralite_ha.Coordinator.State.{
  Bridge, Coordinator, create, schedule_safety_poll, cancel_poll, Handle, unset, live, stale,
}
use centralite_ha.Coordinator.Reconnect.{
  Task, prime_loads, init_priming, init_syncing, init_connected, init_primed, init_synced,
  syncs_clock, Segment,
}
use centralite_ha.Protocol.Bitmap.{BitMap}
use centralite_ha.Coordinator.Schedule.{
  System, Step, resumes, resume, Reachable, start, next, after_segment,
}
use centralite_ha.Coordinator.Invariant.Safety.{link_down-recovers}
use centralite_ha.Coordinator.Invariant.{is_attempt, count}
use centralite_ha.Setup.{
  Opening, Pause, InitRun, waits_at, go_on, connected_init, outcome_of, async_init,
}

-- Any number of steps of the event loop.
pub data Steps (s : System) : System → Type 0 where
  stays : Steps s s
  then_step : {t u : System} → Steps s t → Step t u → Steps s u

Steps-Reachable :
    {bridge : Bridge} {s t : System} → Reachable bridge s → Steps s t → Reachable bridge t
Steps-Reachable r stays = r
Steps-Reachable r (then_step steps step) = next (Steps-Reachable r steps) step

abbrev pub waiting : Task → Pause → System
waiting t p = record { coordinator = p.coordinator; tasks = p.before ++ t ∷ p.after }

-- What Home Assistant runs meanwhile are steps of the event loop, async_init still waits behind them, and
-- an entry is not unloaded during its set-up.
pub record IsEventLoop (o : Opening) : Type 0 where
  pub steps : (t : Task) (p : Pause) → Steps (waiting t p) (waiting t (o.meanwhile t p))
  pub loaded :
      (t : Task) (p : Pause)
      → (o.meanwhile t p).coordinator.shutting_down ≡ p.coordinator.shutting_down

-- The coordinator of an entry whose port has opened, with the coroutines under way: its link is up, or it is
-- about to connect again.
pub record IsStarted (bridge : Bridge) (c : Coordinator) : Type 0 where
  pub tasks : List Task
  pub reachable : Reachable bridge (record { coordinator = c; tasks = tasks })
  pub loaded : c.shutting_down ≡ false
  pub recovers : c.connected ≡ false → c.reconnect_timers + count is_attempt tasks ≡ 1

pub cancel_poll-link :
    (c : Coordinator)
    → ((cancel_poll c).connected ≡ c.connected) × ((cancel_poll c).shutting_down ≡ c.shutting_down)
unfolding cancel_poll
cancel_poll-link c = by_handle c.poll_unsub refl
  where
    by_handle :
        (h : Handle)
        → c.poll_unsub ≡ h
        → ((cancel_poll c).connected ≡ c.connected)
          × ((cancel_poll c).shutting_down ≡ c.shutting_down)
    by_handle unset e = rw e (refl, refl)
    by_handle live e = rw e (refl, refl)
    by_handle stale e = rw e (refl, refl)

schedule_safety_poll-loaded :
    (c : Coordinator) → (schedule_safety_poll c).shutting_down ≡ c.shutting_down
unfolding schedule_safety_poll
schedule_safety_poll-loaded c = ground (arith, cancel_poll-link c)

-- The await that is next, where there is one.
abbrev LastAwait : Option Task → Type 0
LastAwait t = (t ≡ none) ⊎ (t ≡ some init_syncing)

abbrev AnyAwait : Option Task → Type 0
AnyAwait t = LastAwait t ⊎ (t ≡ some init_priming)

-- What a segment of async_init leaves: its next await, and an entry that is not unloaded.
abbrev ThenLast : Coordinator → Segment → Type 0
ThenLast c segment = LastAwait segment.1 × (segment.0.shutting_down ≡ c.shutting_down)

abbrev ThenAny : Coordinator → Segment → Type 0
ThenAny c segment = AnyAwait segment.1 × (segment.0.shutting_down ≡ c.shutting_down)

init_primed-next : (c : Coordinator) → ThenLast c (init_primed c)
unfolding init_primed init_synced
init_primed-next c = by_clock (syncs_clock c)
  where
    by_clock :
        (syncs : Bool)
        → ThenLast c (if syncs then (c, some init_syncing) else (schedule_safety_poll c, none))
    by_clock true = (inr refl, refl)
    by_clock false = (inl refl, schedule_safety_poll-loaded c)

init_connected-next : (c : Coordinator) → ThenAny c (init_connected c)
unfolding init_connected
init_connected-next c = by_bulk c.bridge.supports_bulk_query
  where
    by_bulk :
        (bulk : Bool)
        → ThenAny c (
            if bulk
            then (record c { connected = true }, some init_priming)
            else init_primed (record c { connected = true }))
    by_bulk true = (inr refl, refl)
    by_bulk false =
        let (last, loaded) = init_primed-next (record c { connected = true }) in (inl last, loaded)

prime_loads-loaded :
    (c : Coordinator) (load_states : Result BitMap)
    → (prime_loads c load_states).shutting_down ≡ c.shutting_down
unfolding prime_loads
prime_loads-loaded c (ok load_states) = refl
prime_loads-loaded c (err e) = refl

module _ (bridge : Bridge) (o : Opening) (loop : IsEventLoop o) where
  abbrev state : InitRun → System
  state i = after_segment i.segment i.before i.after

  record IsRun (i : InitRun) : Type 0 where
    reached : Reachable bridge (state i)
    running : i.segment.0.shutting_down ≡ false

  abbrev pause_of : InitRun → Pause
  pause_of i = record { coordinator = i.segment.0; before = i.before; after = i.after }

  -- One await.
  resumed-Reachable :
      (i : InitRun) (t : Task)
      → i.segment.1 ≡ some t
      → Reachable bridge (state i)
      → Reachable bridge (state (waits_at o i (some t)))
  resumed-Reachable i t e r =
      let q : Pause = o.meanwhile t (pause_of i) in
      let at_await : Reachable bridge (waiting t (pause_of i)) = rw e at r in
      next (Steps-Reachable at_await (loop.steps t (pause_of i)))
        (resumes q.before q.after t (outcome_of o) refl)

  go_on-some : (i : InitRun) (t : Task) → i.segment.1 ≡ some t → go_on o i ≡ waits_at o i (some t)
  unfolding go_on
  go_on-some i t e = ap (waits_at o i) e

  go_on-last :
      (i : InitRun)
      → LastAwait i.segment.1
      → IsRun i
      → IsRun (go_on o i) × ((go_on o i).segment.1 ≡ none)
  unfolding go_on resume init_synced
  go_on-last i (inl e) h = rw (ap (waits_at o i) e) (h, e)
  go_on-last i (inr e) h =
      let q : Pause = o.meanwhile init_syncing (pause_of i) in
      rw (ap (waits_at o i) e) (
        record {
          reached = resumed-Reachable i init_syncing e h.reached;
          running =
              schedule_safety_poll-loaded q.coordinator
              ∙ loop.loaded init_syncing (pause_of i)
              ∙ h.running;
        },
        refl,
      )

  go_on-any :
      (i : InitRun)
      → AnyAwait i.segment.1
      → IsRun i
      → IsRun (go_on o i) × LastAwait (go_on o i).segment.1
  unfolding resume
  go_on-any i (inl last) h = let (run, ended) = go_on-last i last h in (run, inl ended)
  go_on-any i (inr e) h = primed
    where
      q : Pause
      q = o.meanwhile init_priming (pause_of i)

      primed : IsRun (go_on o i) × LastAwait (go_on o i).segment.1
      primed =
          let c : Coordinator = prime_loads q.coordinator o.load_states in
          let (last, loaded) = init_primed-next c in
          rw (go_on-some i init_priming e) (
            record {
              reached = resumed-Reachable i init_priming e h.reached;
              running =
                  loaded
                  ∙ prime_loads-loaded q.coordinator o.load_states
                  ∙ loop.loaded init_priming (pause_of i)
                  ∙ h.running;
            },
            last,
          )

  -- Whatever the event loop runs during its awaits, async_init ends behind the second at the latest.
  pub async_init-IsStarted :
      o.opened ≡ true
      → (c : Coordinator) × (async_init o (create bridge) ≡ some c) × IsStarted bridge c
  unfolding async_init
  async_init-IsStarted up =
      let (any', loaded) = init_connected-next (create bridge) in
      let begun : IsRun (connected_init (create bridge)) = record {
        reached = start refl;
        running = loaded;
      } in
      let (run, last) = go_on-any (connected_init (create bridge)) any' begun in
      let i : InitRun = go_on o (connected_init (create bridge)) in
      let (ended_run, ended) = go_on-last i last run in
      let j : InitRun = go_on o i in
      let reached : Reachable bridge
          (record { coordinator = j.segment.0; tasks = j.before ++ j.after }) =
        rw ended at ended_run.reached in
      (
        j.segment.0,
        rw up refl,
        record {
          tasks = j.before ++ j.after;
          reachable = reached;
          loaded = ended_run.running;
          recovers = λ down. link_down-recovers bridge _ reached ended_run.running down;
        },
      )
