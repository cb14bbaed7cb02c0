-- ===== src/Coordinator/Invariant/Segments.antt =====
-- The invariant over each segment of a coroutine, each callback and each command.
use centralite_ha.Base.{
  ℕ, ◌+◌, ◌-◌, ◌<◌, ℤ, Bool, true, false, Option, none, some, ◌≡◌, arith, Result, ok, err, Error,
  ◌≤◌, refl, if◌then◌else◌,
}
use centralite_ha.Protocol.Bitmap.{BitMap}
use centralite_ha.Protocol.Event.{LoadEvent, SwitchEvent, SceneEvent}
use centralite_ha.Coordinator.State.{Coordinator, stale}
use centralite_ha.Coordinator.Handlers.{
  on_load_event, on_switch_event, on_scene_event, command_scene, on_disconnect, shutdown,
}
use centralite_ha.Coordinator.Reconnect.{
  Task, tearing_down, connecting, priming, syncing, closing, polling, init_priming, init_syncing,
  Segment, try_reconnect, torn_down, reconnected, primed, finish, after_sync, closed, polled,
  init_primed, init_synced, prime_loads,
}
use centralite_ha.Coordinator.Schedule.{Outcome, resume}
use centralite_ha.Coordinator.Invariant.{Inv, flag, is_attempt, is_opening, is_closing}

-- The coroutines of one kind that a segment leaves waiting.
abbrev pub left : (Task → Bool) → Option Task → ℕ
left p none = 0
left p (some t) = flag (p t)

abbrev pub Keeps : ℕ → ℕ → ℕ → Segment → Type 0
Keeps n k m (c, t) = Inv c (left is_attempt t + n) (left is_opening t + k) (left is_closing t + m)

Keeps-if :
    (n k m : ℕ) (b : Bool) (x y : Segment)
    → Keeps n k m x
    → Keeps n k m y
    → Keeps n k m (if b then x else y)
Keeps-if n k m true x y p q = p
Keeps-if n k m false x y p q = q

shift-Inv : (n k m : ℕ) (c : Coordinator) → Inv c n k m → Inv c n (0 + k) (0 + m)
shift-Inv n k m c h = ground arith

module _ (n k m : ℕ) (c : Coordinator) where
  pub on_disconnect-Inv :
      c.connected ≡ true → Inv c n k m → Inv (on_disconnect (record c { connected = false })) n k m
  unfolding on_disconnect
  on_disconnect-Inv e h = ground arith

  pub shutdown-Inv : Inv c n k m → Inv (shutdown c) n k m
  unfolding shutdown
  shutdown-Inv h = ground arith

  pub fire_poll-Inv :
      0 < c.poll_timers
      → Inv c n k m
      → Inv (record c { poll_unsub = stale; poll_timers = c.poll_timers - 1 }) n k m
  fire_poll-Inv p h = ground arith

  pub try_reconnect-Keeps :
      0 < c.reconnect_timers
      → Inv c n k m
      → Keeps n k m (try_reconnect (record c { reconnect_timers = c.reconnect_timers - 1 }))
  unfolding try_reconnect
  try_reconnect-Keeps p h = ground arith

  torn_down-Keeps : k ≤ n → Inv c (1 + n) k m → Keeps n k m (torn_down c)
  unfolding torn_down
  torn_down-Keeps le h = ground arith

  after_sync-Keeps : Inv c n k m → Keeps n k m (after_sync c)
  unfolding after_sync
  after_sync-Keeps h = ground arith

  closed-Keeps : Inv c n k (1 + m) → Keeps n k m (closed c)
  unfolding closed
  closed-Keeps h = ground arith

  polled_err-Keeps : (e : Error) → Inv c n k m → Keeps n k m (polled (err e) c)
  unfolding polled
  polled_err-Keeps e h = ground arith

  polled_ok-Keeps : (states : BitMap) → Inv c n k m → Keeps n k m (polled (ok states) c)
  unfolding polled
  polled_ok-Keeps states h = ground arith

  polled-Keeps : (r : Result BitMap) → Inv c n k m → Keeps n k m (polled r c)
  polled-Keeps (ok states) h = polled_ok-Keeps states h
  polled-Keeps (err e) h = polled_err-Keeps e h

  init_synced-Keeps : Inv c n k m → Keeps n k m (init_synced c)
  unfolding init_synced
  init_synced-Keeps h = ground arith

  init_primed-Keeps : Inv c n k m → Keeps n k m (init_primed c)
  unfolding init_primed
  init_primed-Keeps h = ground arith

  prime_loads-Inv : (r : Result BitMap) → Inv c n k m → Inv (prime_loads c r) n k m
  unfolding prime_loads
  prime_loads-Inv (ok states) h = ground arith
  prime_loads-Inv (err e) h = ground arith

  finish_failed-Keeps : c.connected ≡ false → Inv c (1 + n) k m → Keeps n k m (finish false c)
  unfolding finish
  finish_failed-Keeps e h = ground arith

  finish_done-Keeps : c.connected ≡ true → Inv c (1 + n) k m → Keeps n k m (finish true c)
  unfolding finish
  finish_done-Keeps e h = ground arith

  opened-Inv : k ≤ n → Inv c (1 + n) (1 + k) m → Inv (record c { connected = true }) (1 + n) k m
  opened-Inv le h = ground arith

  unopened-Inv : Inv c (1 + n) (1 + k) m → Inv c (1 + n) k m
  unopened-Inv h = ground arith

  unopened-connected : Inv c (1 + n) (1 + k) m → c.connected ≡ false
  unopened-connected h = h.unopened (omega arith)

module _ (n k m : ℕ) (c : Coordinator) where
  reconnected-Keeps :
      (opened : Bool) → k ≤ n → Inv c (1 + n) (1 + k) m → Keeps n k m (reconnected opened c)
  unfolding reconnected
  reconnected-Keeps true le h =
      Keeps-if n k m c.bridge.supports_bulk_query _ _
        (shift-Inv (1 + n) k m _ (opened-Inv n k m c le h))
        (finish_done-Keeps n k m (record c { connected = true }) refl (opened-Inv n k m c le h))
  reconnected-Keeps false le h =
      finish_failed-Keeps n k m c (unopened-connected n k m c h) (unopened-Inv n k m c h)

  finish-Keeps :
      (success : Bool) → c.connected ≡ success → Inv c (1 + n) k m → Keeps n k m (finish success c)
  finish-Keeps true e h = finish_done-Keeps n k m c e h
  finish-Keeps false e h = finish_failed-Keeps n k m c e h

module _ (n k m : ℕ) (c : Coordinator) where
  primed-Keeps : (r : Result BitMap) → Inv c (1 + n) k m → Keeps n k m (primed r c)
  unfolding primed
  primed-Keeps r h =
      let c' : Coordinator = prime_loads c r in
      finish-Keeps n k m c' c'.connected refl (prime_loads-Inv (1 + n) k m c r h)

  pub resume-Keeps :
      (t : Task) (o : Outcome)
      → k ≤ n
      → Inv c (flag (is_attempt t) + n) (flag (is_opening t) + k) (flag (is_closing t) + m)
      → Keeps n k m (resume t o c)
  unfolding resume
  resume-Keeps tearing_down o le h = torn_down-Keeps n k m c le (ground arith)
  resume-Keeps connecting o le h = reconnected-Keeps n k m c o.opened le (ground arith)
  resume-Keeps priming o le h = primed-Keeps o.load_states (ground arith)
  resume-Keeps syncing o le h = after_sync-Keeps n k m c (ground arith)
  resume-Keeps closing o le h = closed-Keeps n k m c (ground arith)
  resume-Keeps polling o le h = polled-Keeps n k m c o.load_states (ground arith)
  resume-Keeps init_priming o le h =
      init_primed-Keeps n k m (prime_loads c o.load_states)
        (prime_loads-Inv n k m c o.load_states (ground arith))
  resume-Keeps init_syncing o le h = init_synced-Keeps n k m c (ground arith)

  pub load-Inv : (e : LoadEvent) → Inv c n k m → Inv (on_load_event c e) n k m
  unfolding on_load_event
  load-Inv e h = ground arith

  pub switch-Inv : (r : Bool) (e : SwitchEvent) → Inv c n k m → Inv (on_switch_event r c e).0 n k m
  unfolding on_switch_event
  switch-Inv r e h = ground arith

  pub scene-Inv : (e : SceneEvent) → Inv c n k m → Inv (on_scene_event c e) n k m
  unfolding on_scene_event
  scene-Inv e h = ground arith

  pub command-Inv :
      (active : Bool) (idx : ℤ) (r : Result (Unit {0}))
      → Inv c n k m
      → Inv (command_scene active c idx r) n k m
  unfolding command_scene
  command-Inv active idx (ok _) h = ground arith
  command-Inv active idx (err e) h = h
