-- ===== src/Coordinator/Invariant/Safety.antt =====
-- What the invariant says of every reachable state.
use centralite_ha.Base.{
  ℕ, ◌+◌, ◌≤◌, Bool, true, false, Option, none, some, List, [], ◌∷◌, ◌++◌, ◌≡◌, refl, ap, ◌∙◌,
  arith,
}
use centralite_ha.Coordinator.State.{Bridge, Coordinator}
use centralite_ha.Coordinator.Reconnect.{Task, Segment, init_connected}
use centralite_ha.Coordinator.Schedule.{
  System, Step, fire_poll, fire_reconnect, resumes, breaks, load, switch, scene, command, unload,
  Reachable, start, next, initial, after_segment, waiting_task,
}
use centralite_ha.Coordinator.Invariant.{
  Inv, flag, is_attempt, is_opening, is_closing, count, count-append, count_opening,
}
use centralite_ha.Coordinator.Invariant.Segments.{
  Keeps, left, on_disconnect-Inv, shutdown-Inv, fire_poll-Inv, try_reconnect-Keeps, resume-Keeps,
  load-Inv, switch-Inv, scene-Inv, command-Inv,
}

abbrev IsSafe : System → Type 0
IsSafe s =
    Inv s.coordinator (count is_attempt s.tasks) (count is_opening s.tasks)
      (count is_closing s.tasks)

Inv-cast :
    {c : Coordinator} {n k m n' k' m' : ℕ} → n ≡ n' → k ≡ k' → m ≡ m' → Inv c n k m → Inv c n' k' m'
Inv-cast p q r h = ground arith

count-waiting : (p : Task → Bool) (o : Option Task) → count p (waiting_task o) ≡ left p o
count-waiting p none = refl
count-waiting p (some t) = omega arith

-- The tasks of a kind around the one that runs.
abbrev around : (Task → Bool) → List Task → List Task → ℕ
around p before after = count p before + count p after

count-segment :
    (p : Task → Bool) (before after : List Task) (o : Option Task)
    → left p o + around p before after ≡ count p (before ++ (waiting_task o ++ after))
count-segment p before after o = omega (
  arith,
  count-append p before (waiting_task o ++ after),
  count-append p (waiting_task o) after,
  count-waiting p o,
)

count-resumed :
    (p : Task → Bool) (before after : List Task) (t : Task) (tasks : List Task)
    → tasks ≡ before ++ (t ∷ after)
    → count p tasks ≡ flag (p t) + around p before after
count-resumed p before after t tasks e =
    ap (count p) e ∙ omega (arith, count-append p before (t ∷ after))

segment-IsSafe :
    (before after : List Task) (x : Segment)
    → Keeps
        (around is_attempt before after)
        (around is_opening before after)
        (around is_closing before after)
        x
    → IsSafe (after_segment x before after)
segment-IsSafe before after (c, t) h =
    Inv-cast (count-segment is_attempt before after t) (count-segment is_opening before after t)
      (count-segment is_closing before after t) h

Step-IsSafe : {s t : System} → Step s t → IsSafe s → IsSafe t
Step-IsSafe {s} (fire_poll p) h =
    Inv-cast (omega arith) (omega arith) (omega arith) (fire_poll-Inv _ _ _ s.coordinator p h)
Step-IsSafe {s} (fire_reconnect p) h = segment-IsSafe [] s.tasks _ (
    try_reconnect-Keeps _ _ _ s.coordinator p
      (Inv-cast (omega arith) (omega arith) (omega arith) h))
Step-IsSafe {s} (resumes before after t o e) h = segment-IsSafe before after _ (
    resume-Keeps (around is_attempt before after) (around is_opening before after)
      (around is_closing before after) s.coordinator t o
      (omega (arith, count_opening before, count_opening after))
      (Inv-cast (count-resumed is_attempt before after t s.tasks e)
        (count-resumed is_opening before after t s.tasks e)
        (count-resumed is_closing before after t s.tasks e) h))
Step-IsSafe {s} (breaks e) h = on_disconnect-Inv _ _ _ s.coordinator e h
Step-IsSafe {s} (load e) h = load-Inv _ _ _ s.coordinator e h
Step-IsSafe {s} (switch r e) h = switch-Inv _ _ _ s.coordinator r e h
Step-IsSafe {s} (scene e) h = scene-Inv _ _ _ s.coordinator e h
Step-IsSafe {s} (command active idx r) h = command-Inv _ _ _ s.coordinator active idx r h
Step-IsSafe {s} unload h = shutdown-Inv _ _ _ s.coordinator h

initial-IsSafe : (bridge : Bridge) → IsSafe (initial bridge)
unfolding init_connected
initial-IsSafe bridge = ground arith

Reachable-IsSafe : {bridge : Bridge} {s : System} → Reachable bridge s → IsSafe s
Reachable-IsSafe {bridge} (start e) = rw e (initial-IsSafe bridge)
Reachable-IsSafe (next r st) = Step-IsSafe st (Reachable-IsSafe r)

Bool-false : (b : Bool) → ¬ (b ≡ true) → b ≡ false
Bool-false true h = absurd (h refl)
Bool-false false h = refl

no_task : {tasks : List Task} → tasks ≡ [] → ¬ (1 ≤ count is_attempt tasks + count is_closing tasks)
no_task e h =
    let none_tries : count is_attempt _ ≡ 0 = ap (count is_attempt) e in
    let none_closes : count is_closing _ ≡ 0 = ap (count is_closing) e in omega arith

module _ (bridge : Bridge) (s : System) (r : Reachable bridge s) where
  -- In every reachable state there is at most one safety-poll timer, and at most one reconnect timer
  -- or attempt, never both: disconnects cannot stack reconnect loops.
  pub timers_le_one :
      (s.coordinator.poll_timers ≤ 1)
      × (s.coordinator.reconnect_timers + count is_attempt s.tasks ≤ 1)
  timers_le_one = let h : IsSafe s = Reachable-IsSafe r in ground (arith, h)

  -- In every reachable state in which the entry is loaded and the link is down, a reconnect timer is
  -- armed or an attempt is under way, and exactly one of these.
  pub link_down-recovers :
      s.coordinator.shutting_down ≡ false
      → s.coordinator.connected ≡ false
      → s.coordinator.reconnect_timers + count is_attempt s.tasks ≡ 1
  link_down-recovers p q =
      let h : IsSafe s = Reachable-IsSafe r in ground (arith, h, h.recovers p q)

  -- In every reachable state behind an unload no timer is armed.
  pub unloaded_timers :
      s.coordinator.shutting_down ≡ true
      → (s.coordinator.poll_timers ≡ 0) × (s.coordinator.reconnect_timers ≡ 0)
  unloaded_timers p =
      let h : IsSafe s = Reachable-IsSafe r in
      (ground (arith, h, h.no_poll p), ground (arith, h, h.no_reconnect p))

  -- In every reachable state behind an unload in which all coroutines have ended, the link is closed,
  -- also if a reconnect was under way at the unload.
  pub unloaded_closed :
      s.coordinator.shutting_down ≡ true → s.tasks ≡ [] → s.coordinator.connected ≡ false
  unloaded_closed p e =
      let h : IsSafe s = Reachable-IsSafe r in
      Bool-false s.coordinator.connected (λ up. no_task e (h.closes p up))

  -- The reconnect delay is between 5 and 300 seconds in every reachable state.
  pub reconnect_delay_bounds :
      (5 ≤ s.coordinator.reconnect_delay) × (s.coordinator.reconnect_delay ≤ 300)
  reconnect_delay_bounds = let h : IsSafe s = Reachable-IsSafe r in (h.delay_low, h.delay_high)
