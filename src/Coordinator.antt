-- ===== src/Coordinator.antt =====
-- custom_components/centralite/coordinator.py: the coordinator of one bridge. `State` has its fields
-- and timers, `Loads` the load table, `Handlers` the callbacks, and `Reconnect` the coroutines, cut at
-- their awaits.
pub mod State
pub mod Loads
pub mod Handlers
pub mod Reconnect
pub mod Schedule
pub mod Invariant
pub mod Backoff
mod Tests
