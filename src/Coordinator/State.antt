-- ===== src/Coordinator/State.antt =====
-- The fields of CentraliteCoordinator, the timers that it has in the event loop, and the methods that
-- arm and cancel them.
use centralite_ha.Base.{
  ℕ, ◌+◌, ◌-◌, ◌*◌, ℤ, Bool, true, false, not, ◌||◌, [], min, if◌then◌else◌, ◌==◌,
}
use centralite_ha.Dict.{Dict}

-- The capabilities of the protocol, and the options of the entry.
pub record Bridge : Type 0 where
  pub supports_bulk_query : Bool
  pub supports_scene_push : Bool
  pub supports_clock : Bool
  pub poll_interval : ℕ
  pub sync_clock_on_connect : Bool

pub record LoadState : Type 0 where
  pub on : Bool
  pub level : ℤ

-- What `_poll_unsub` holds: nothing, the handle of an armed timer, or that of one that has fired.
pub data Handle : Type 0 where
  unset live stale : Handle

pub record Coordinator : Type 0 where
  pub bridge : Bridge
  pub loads : Dict ℤ LoadState
  pub switches : Dict (ℤ × ℤ) Bool
  pub scenes : Dict ℤ Bool
  pub poll_unsub : Handle
  -- `_reconnect_unsub is not None`
  pub reconnect_unsub : Bool
  pub reconnect_delay : ℕ
  pub reconnecting : Bool
  pub shutting_down : Bool
  -- `last_update_success`
  pub available : Bool
  -- `protocol.connected`
  pub connected : Bool
  -- the timers in the event loop
  pub poll_timers : ℕ
  pub reconnect_timers : ℕ

abbrev pub reconnect_initial_delay : ℕ
reconnect_initial_delay = 5

abbrev pub reconnect_max_delay : ℕ
reconnect_max_delay = 300

-- __init__, before the connection is open.
abbrev pub create : Bridge → Coordinator
create bridge = record {
  bridge = bridge;
  loads = [];
  switches = [];
  scenes = [];
  poll_unsub = unset;
  reconnect_unsub = false;
  reconnect_delay = reconnect_initial_delay;
  reconnecting = false;
  shutting_down = false;
  available = true;
  connected = false;
  poll_timers = 0;
  reconnect_timers = 0;
}

-- async_set_updated_data
unfoldable pub set_updated : Coordinator → Coordinator
set_updated c = record c { available = true }

-- async_set_update_error
unfoldable pub set_update_error : Coordinator → Coordinator
set_update_error c = record c { available = false }

-- Calling the handle of a timer that has fired does nothing.
unfoldable pub cancel_poll : Coordinator → Coordinator
cancel_poll c = elim c.poll_unsub [
  | unset ↦ c
  | live ↦ record c { poll_unsub = unset; poll_timers = c.poll_timers - 1 }
  | stale ↦ record c { poll_unsub = unset }
]

-- async_call_later for `_safety_poll`; the handle that was there is lost.
abbrev pub arm_poll : Coordinator → Coordinator
arm_poll c = record c { poll_unsub = live; poll_timers = c.poll_timers + 1 }

unfoldable pub schedule_safety_poll : Coordinator → Coordinator
unfolding cancel_poll
schedule_safety_poll c =
    let c' = cancel_poll c in
    if c'.shutting_down || not c'.bridge.supports_bulk_query
    then c'
    else if c'.bridge.poll_interval == 0
    then c'
    else arm_poll c'

unfoldable pub cancel_reconnect : Coordinator → Coordinator
cancel_reconnect c =
    if c.reconnect_unsub
    then record c { reconnect_unsub = false; reconnect_timers = c.reconnect_timers - 1 }
    else c

unfoldable pub schedule_reconnect : Coordinator → Coordinator
schedule_reconnect c =
    if c.shutting_down || (c.reconnecting || c.reconnect_unsub)
    then c
    else record c { reconnect_unsub = true; reconnect_timers = c.reconnect_timers + 1 }

-- min(delay * 2, RECONNECT_MAX_DELAY)
abbrev pub next_delay : ℕ → ℕ
next_delay delay = min (delay * 2) reconnect_max_delay
