-- ===== src/Coordinator/Reconnect.antt =====
-- The coroutines of the coordinator, cut at their awaits: a segment returns the coordinator and where
-- the coroutine waits next, if it has not ended.
use centralite_ha.Base.{
  Bool, true, false, not, ◌&&◌, ◌||◌, Option, none, some, if◌then◌else◌, Result, ok, err,
}
use centralite_ha.Protocol.Bitmap.{BitMap}
use centralite_ha.Coordinator.State.{
  Coordinator, set_updated, schedule_safety_poll, schedule_reconnect, next_delay,
  reconnect_initial_delay,
}
use centralite_ha.Coordinator.Loads.{prime, merge}

-- Where a coroutine waits: `_try_reconnect` in the disconnect, in the connect, in the bulk query, in
-- the clock sync, or in the disconnect after an unload; `_safety_poll` in the bulk query; `async_init`
-- in the bulk query or in the clock sync.
pub data Task : Type 0 where
  tearing_down connecting priming syncing closing polling init_priming init_syncing : Task

abbrev pub Segment : Type 0
Segment = Coordinator × Option Task

-- The loop of _prime_loads; a failed query is logged.
unfoldable pub prime_loads : Coordinator → Result BitMap → Coordinator
prime_loads c (ok load_states) = record c { loads = prime c.loads load_states }
prime_loads c (err e) = c

-- Whether _sync_clock_if_enabled awaits the write of the clock; what it raises is logged.
abbrev pub syncs_clock : Coordinator → Bool
syncs_clock c = c.bridge.supports_clock && (c.bridge.sync_clock_on_connect && c.connected)

-- The end of _try_reconnect, behind the clock sync.
unfoldable pub after_sync : Coordinator → Segment
unfolding schedule_safety_poll
after_sync c =
    if c.shutting_down || not c.connected then (c, none) else (schedule_safety_poll c, none)

-- _try_reconnect from its `finally` on.
unfoldable pub finish : Bool → Coordinator → Segment
unfolding after_sync set_updated schedule_reconnect
finish success c =
    let c' = record c { reconnecting = false } in
    if c'.shutting_down
    then (if success then (c', some closing) else (c', none))
    else if success
    then (let c'' = set_updated (record c' { reconnect_delay = reconnect_initial_delay }) in
        if syncs_clock c'' then (c'', some syncing) else after_sync c'')
    else (schedule_reconnect (record c' { reconnect_delay = next_delay c'.reconnect_delay }), none)

-- _try_reconnect up to its first await.
unfoldable pub try_reconnect : Coordinator → Segment
try_reconnect c =
    let c' = record c { reconnect_unsub = false } in
    if c'.shutting_down then (c', none) else (record c' { reconnecting = true }, some tearing_down)

-- The old transport is down.
unfoldable pub torn_down : Coordinator → Segment
torn_down c = (record c { connected = false }, some connecting)

-- The connect returned, or raised.
unfoldable pub reconnected : Bool → Coordinator → Segment
unfolding finish
reconnected opened c =
    if opened
    then (let c' = record c { connected = true } in
        if c'.bridge.supports_bulk_query then (c', some priming) else finish true c')
    else finish false c

unfoldable pub primed : Result BitMap → Coordinator → Segment
unfolding finish prime_loads
primed load_states c = let c' = prime_loads c load_states in finish c'.connected c'

-- The disconnect after an unload is done.
unfoldable pub closed : Coordinator → Segment
closed c = (record c { connected = false }, none)

-- _safety_poll behind its query.
unfoldable pub polled : Result BitMap → Coordinator → Segment
unfolding schedule_safety_poll set_updated
polled (err e) c = (schedule_safety_poll c, none)
polled (ok load_states) c =
    let (loads, dirty) = merge (c.loads, false) load_states in
    let c' = record c { loads = loads } in
    (schedule_safety_poll (if dirty then set_updated c' else c'), none)

-- async_init behind its connect.
unfoldable pub init_synced : Coordinator → Segment
unfolding schedule_safety_poll
init_synced c = (schedule_safety_poll c, none)

unfoldable pub init_primed : Coordinator → Segment
unfolding init_synced
init_primed c = if syncs_clock c then (c, some init_syncing) else init_synced c

unfoldable pub init_connected : Coordinator → Segment
unfolding init_primed
init_connected c =
    let c' = record c { connected = true } in
    if c'.bridge.supports_bulk_query then (c', some init_priming) else init_primed c'
