-- ===== src/Protocol/JetStream/Events.antt =====
-- The dispatcher of JetStream: push events, and the request that the same lines are offered to.
use centralite_ha.Base.{ℕ, ◌<◌, pos, Bool, true, false, ◌++◌, ◌≡◌, refl, arith, if◌then◌else◌}
use mathlib.Core.Option
use centralite_ha.Text.{Text, codes}
use centralite_ha.Text.Number.{pad}
use centralite_ha.Text.Number.Laws.{pad_two, pad_three, int-split, int-split_three}
use centralite_ha.Protocol.Event.{
  SwitchEvent, Action, tap, press, release, on_load, on_switch, on_scene,
}
use centralite_ha.Protocol.Session.{Session, call, try_fulfill, fulfill, OnlyCalls, emit-OnlyCalls}
use centralite_ha.Protocol.Session.Waiting.{IsDispatch}
use centralite_ha.Protocol.JetStream.{
  dispatch, load_event, switch_event, scene_event, dispatch_load_event, dispatch_switch_event,
  dispatch_scene_event,
}

load-OnlyCalls : (s : Session) (line : Text) → OnlyCalls s (dispatch_load_event s line)
unfolding dispatch_load_event
load-OnlyCalls s line = ground (arith, emit-OnlyCalls on_load (load_event line) s)

switch-OnlyCalls : (s : Session) (line : Text) → OnlyCalls s (dispatch_switch_event s line)
unfolding dispatch_switch_event
switch-OnlyCalls s line = ground (arith, emit-OnlyCalls on_switch (switch_event line) s)

scene-OnlyCalls : (s : Session) (line : Text) → OnlyCalls s (dispatch_scene_event s line)
unfolding dispatch_scene_event
scene-OnlyCalls s line = ground (arith, emit-OnlyCalls on_scene (scene_event line) s)

-- `s'` is a session after line `t`, offered to the request.
record Offered (s s' : Session) (t : Text) : Type 0 where
  pending : s'.pending ≡ Option.map (λ p. (fulfill p t).0) s.pending
  reading : s'.reading ≡ s.reading
  writer : s'.writer ≡ s.writer
  lost : s'.lost ≡ s.lost
  sent : s'.sent ≡ s.sent

offered : (s s' : Session) (t : Text) → OnlyCalls s s' → Offered s (try_fulfill s' t).0 t
unfolding try_fulfill
offered s s' t o = ground (arith, o)

dispatch-Offered : (s : Session) (t : Text) → Offered s (dispatch s t) t
unfolding dispatch
dispatch-Offered s t = ground (
  arith,
  offered s s t
      (record { writer = refl; reading = refl; lost = refl; pending = refl; sent = refl }),
  offered s (dispatch_load_event s t) t (load-OnlyCalls s t),
  offered s (dispatch_switch_event s t) t (switch-OnlyCalls s t),
  offered s (dispatch_scene_event s t) t (scene-OnlyCalls s t),
)

-- Every line is offered to the pending request; the connection is left alone.
pub dispatch-IsDispatch : IsDispatch dispatch (λ t. true)
dispatch-IsDispatch = record {
  pending = λ s t. (dispatch-Offered s t).pending;
  reading = λ s t. (dispatch-Offered s t).reading;
  writer = λ s t. (dispatch-Offered s t).writer;
  lost = λ s t. (dispatch-Offered s t).lost;
  sent = λ s t. (dispatch-Offered s t).sent;
}

abbrev pub letter_of : Action → Text
letter_of tap = codes "T"
letter_of press = codes "P"
letter_of release = codes "R"

abbrev pub dev_line : ℕ → ℕ → Text
dev_line idx level = codes "DEV" ++ (pad 3 idx ++ pad 2 level)

abbrev pub act_line : ℕ → ℕ → Action → Text
act_line idx button action = codes "ACT" ++ (pad 3 idx ++ (pad 2 button ++ letter_of action))

abbrev pub scn_line : ℕ → Bool → Text
scn_line idx active = codes "SCN" ++ (pad 3 idx ++ (if active then codes "1" else codes "0"))

-- Where the load callback is set, a DEV line with any three-digit load and two-digit level reports its
-- load and its level once, and is then offered to the pending request.
pub dispatch_dev :
    (idx level : ℕ) (s : Session)
    → idx < 1000
    → level < 100
    → s.load_event_cb ≡ true
    → dispatch s (dev_line idx level)
      ≡ (try_fulfill
          (call (on_load (record { idx = pos idx; level = pos level })) s)
          (dev_line idx level)).0
unfolding dispatch dispatch_load_event load_event
dispatch_dev idx level s h k cb =
    rw (pad_three idx h, pad_two level k) (rw (int-split_three idx h, int-split level k, cb))

-- The event of an ACT line: no board.
abbrev pub button_event : ℕ → ℕ → Action → SwitchEvent
button_event idx button action = record {
  idx = pos idx;
  action = action;
  board = pos 0;
  button = pos button;
}

-- Where the switch callback is set, an ACT line with any three-digit device and two-digit button reports
-- these and whether it is a tap, a press or a release, once, and is then offered to the pending request.
pub dispatch_act :
    (idx button : ℕ) (action : Action) (s : Session)
    → idx < 1000
    → button < 100
    → s.switch_event_cb ≡ true
    → dispatch s (act_line idx button action)
      ≡ (try_fulfill
          (call (on_switch (button_event idx button action)) s)
          (act_line idx button action)).0
unfolding dispatch dispatch_switch_event switch_event
dispatch_act idx button tap s h k cb =
    rw (pad_three idx h, pad_two button k) (rw (int-split_three idx h, int-split button k, cb))
dispatch_act idx button press s h k cb =
    rw (pad_three idx h, pad_two button k) (rw (int-split_three idx h, int-split button k, cb))
dispatch_act idx button release s h k cb =
    rw (pad_three idx h, pad_two button k) (rw (int-split_three idx h, int-split button k, cb))

-- Where the scene callback is set, an SCN line with any three-digit scene reports it and whether it is
-- active, once, and is then offered to the pending request.
pub dispatch_scn :
    (idx : ℕ) (active : Bool) (s : Session)
    → idx < 1000
    → s.scene_event_cb ≡ true
    → dispatch s (scn_line idx active)
      ≡ (try_fulfill
          (call (on_scene (record { idx = pos idx; active = active })) s)
          (scn_line idx active)).0
unfolding dispatch dispatch_scene_event scene_event
dispatch_scn idx true s h cb = rw (pad_three idx h) (rw (int-split_three idx h, cb))
dispatch_scn idx false s h cb = rw (pad_three idx h) (rw (int-split_three idx h, cb))
