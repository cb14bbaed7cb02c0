-- ===== src/Coordinator/Backoff.antt =====
-- The reconnect delay over attempts that fail one after the other.
use centralite_ha.Base.{ℕ, zero, suc, ◌*◌, ◌-◌, ◌^◌, min, true, false, ◌≡◌, arith}
use native.Mathlib.Nat.{pow-suc}
use centralite_ha.Coordinator.State.{Coordinator, reconnect_initial_delay, reconnect_max_delay}
use centralite_ha.Coordinator.Reconnect.{try_reconnect, torn_down, reconnected}

-- The timer fires, and the connect raises.
unfoldable pub failed_attempt : Coordinator → Coordinator
failed_attempt c =
    let fired = record c { reconnect_timers = c.reconnect_timers - 1 } in
    (reconnected false (torn_down (try_reconnect fired).0).0).0

unfoldable pub failed_attempts : ℕ → Coordinator → Coordinator
unfolding failed_attempt
failed_attempts zero c = c
failed_attempts (suc k) c = failed_attempt (failed_attempts k c)

-- A loaded entry whose reconnect timer is armed.
pub record IsArmed (c : Coordinator) : Type 0 where
  pub loaded : c.shutting_down ≡ false
  pub idle : c.reconnecting ≡ false
  pub held : c.reconnect_unsub ≡ true
  pub timer : c.reconnect_timers ≡ 1

failed_attempt-IsArmed : (c : Coordinator) → IsArmed c → IsArmed (failed_attempt c)
unfolding failed_attempt try_reconnect torn_down reconnected
failed_attempt-IsArmed c h = ground arith

delay-failed_attempt :
    (c : Coordinator)
    → IsArmed c
    → (failed_attempt c).reconnect_delay ≡ min (c.reconnect_delay * 2) reconnect_max_delay
unfolding failed_attempt try_reconnect torn_down reconnected
delay-failed_attempt c h = ground arith

failed_attempts-IsArmed : (k : ℕ) (c : Coordinator) → IsArmed c → IsArmed (failed_attempts k c)
unfolding failed_attempts
failed_attempts-IsArmed zero c h = h
failed_attempts-IsArmed (suc k) c h =
    failed_attempt-IsArmed (failed_attempts k c) (failed_attempts-IsArmed k c h)

-- On a loaded entry, from an armed timer at the initial delay, k failed attempts leave a timer armed
-- again, and a delay of 5 * 2 ^ k seconds, or 300 where that is less.
pub failed_attempts_delay :
    (k : ℕ) (c : Coordinator)
    → IsArmed c
    → c.reconnect_delay ≡ reconnect_initial_delay
    → IsArmed (failed_attempts k c)
      × ((failed_attempts k c).reconnect_delay
          ≡ min (reconnect_initial_delay * 2 ^ k) reconnect_max_delay)
unfolding failed_attempts
failed_attempts_delay zero c h e = (h, omega (arith, e))
failed_attempts_delay (suc k) c h e =
    let (armed, delay) = failed_attempts_delay k c h e in
    (
      failed_attempt-IsArmed (failed_attempts k c) armed,
      omega (arith, delay-failed_attempt (failed_attempts k c) armed, delay, pow-suc 2 k),
    )
