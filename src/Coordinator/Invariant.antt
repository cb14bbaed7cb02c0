-- ===== src/Coordinator/Invariant.antt =====
-- Timers, reconnect attempts and the link, in every reachable state of the event loop.
pub mod Segments
pub mod Safety
use centralite_ha.Base.{
  ℕ, ◌+◌, ◌≤◌, Bool, true, false, not, ◌||◌, List, [], ◌∷◌, ◌++◌, ◌≡◌, arith, if◌then◌else◌,
}
use centralite_ha.Coordinator.State.{Coordinator, Handle, unset, live, stale}
use centralite_ha.Coordinator.Reconnect.{
  Task, tearing_down, connecting, priming, syncing, closing, polling, init_priming, init_syncing,
}

abbrev pub flag : Bool → ℕ
flag b = if b then 1 else 0

abbrev pub is_live : Handle → Bool
is_live unset = false
is_live live = true
is_live stale = false

-- The part of `_try_reconnect` under its `_reconnecting` flag.
abbrev pub is_attempt : Task → Bool
is_attempt tearing_down = true
is_attempt connecting = true
is_attempt priming = true
is_attempt syncing = false
is_attempt closing = false
is_attempt polling = false
is_attempt init_priming = false
is_attempt init_syncing = false

abbrev pub is_closing : Task → Bool
is_closing tearing_down = false
is_closing connecting = false
is_closing priming = false
is_closing syncing = false
is_closing closing = true
is_closing polling = false
is_closing init_priming = false
is_closing init_syncing = false

abbrev pub is_opening : Task → Bool
is_opening tearing_down = false
is_opening connecting = true
is_opening priming = false
is_opening syncing = false
is_opening closing = false
is_opening polling = false
is_opening init_priming = false
is_opening init_syncing = false

abbrev pub count : (Task → Bool) → List Task → ℕ
count p [] = 0
count p (t ∷ tasks) = flag (p t) + count p tasks

pub count-append :
    (p : Task → Bool) (xs ys : List Task) → count p (xs ++ ys) ≡ count p xs + count p ys
count-append p [] ys = omega arith
count-append p (t ∷ xs) ys = omega (arith, count-append p xs ys)

-- Every connect is that of an attempt.
pub count_opening : (tasks : List Task) → count is_opening tasks ≤ count is_attempt tasks
count_opening [] = omega arith
count_opening (tearing_down ∷ tasks) = omega (arith, count_opening tasks)
count_opening (connecting ∷ tasks) = omega (arith, count_opening tasks)
count_opening (priming ∷ tasks) = omega (arith, count_opening tasks)
count_opening (syncing ∷ tasks) = omega (arith, count_opening tasks)
count_opening (closing ∷ tasks) = omega (arith, count_opening tasks)
count_opening (polling ∷ tasks) = omega (arith, count_opening tasks)
count_opening (init_priming ∷ tasks) = omega (arith, count_opening tasks)
count_opening (init_syncing ∷ tasks) = omega (arith, count_opening tasks)

-- The invariant, where `attempts` coroutines wait in an attempt, `opening` of them in its connect, and
-- `closings` in the disconnect after an unload.
pub record Inv (c : Coordinator) (attempts opening closings : ℕ) : Type 0 where
  -- every armed timer is held by its handle, so that it can be cancelled
  pub poll_held : c.poll_timers ≡ flag (is_live c.poll_unsub)
  pub reconnect_held : c.reconnect_timers ≡ flag c.reconnect_unsub
  -- the flag counts the attempts, so there is one at most, and none beside an armed timer
  pub attempts_one : attempts ≡ flag c.reconnecting
  pub unopened : 1 ≤ opening → c.connected ≡ false
  pub exclusive : c.reconnecting ≡ true → c.reconnect_unsub ≡ false
  pub armed_down : c.reconnect_unsub ≡ true → c.connected ≡ false
  -- a lost link is being recovered, until the entry is unloaded
  pub recovers :
      c.shutting_down ≡ false → c.connected ≡ false → (c.reconnecting || c.reconnect_unsub) ≡ true
  -- an unloaded entry has no timer, and a link only until a coroutine closes it
  pub no_poll : c.shutting_down ≡ true → is_live c.poll_unsub ≡ false
  pub no_reconnect : c.shutting_down ≡ true → c.reconnect_unsub ≡ false
  pub closes : c.shutting_down ≡ true → c.connected ≡ true → 1 ≤ attempts + closings
  pub closing_down : c.shutting_down ≡ false → closings ≡ 0
  pub delay_low : 5 ≤ c.reconnect_delay
  pub delay_high : c.reconnect_delay ≤ 300
