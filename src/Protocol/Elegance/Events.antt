-- ===== src/Protocol/Elegance/Events.antt =====
-- The dispatcher of Elegance: push events, and the lines that are answers.
use centralite_ha.Base.{
  ℕ, ◌+◌, ◌<◌, pos, Bool, true, false, not, ◌||◌, ◌∷◌, ◌++◌, ◌≡◌, arith, if◌then◌else◌,
}
use mathlib.Core.Option
use centralite_ha.Text.{Text, codes}
use centralite_ha.Text.Number.{pad}
use centralite_ha.Text.Number.Laws.{pad_two, pad_three, int-split, int-split_three, int-digit}
use centralite_ha.Protocol.Event.{SwitchEvent, press, release, on_load, on_switch}
use centralite_ha.Protocol.Session.{Session, call, try_fulfill, fulfill, OnlyCalls, emit-OnlyCalls}
use centralite_ha.Protocol.Session.Waiting.{IsDispatch}
use centralite_ha.Protocol.Elegance.{
  dispatch, load_event, switch_event, dispatch_load_event, dispatch_switch_event, is_switch_line,
  is_load_line,
}

-- A line that is no push event.
abbrev pub is_answer : Text → Bool
is_answer line = not (is_switch_line line || is_load_line line)

load-OnlyCalls : (s : Session) (line : Text) → OnlyCalls s (dispatch_load_event s line)
unfolding dispatch_load_event
load-OnlyCalls s line = ground (arith, emit-OnlyCalls on_load (load_event line) s)

switch-OnlyCalls : (s : Session) (line : Text) → OnlyCalls s (dispatch_switch_event s line)
unfolding dispatch_switch_event
switch-OnlyCalls s line = ground (arith, emit-OnlyCalls on_switch (switch_event line) s)

record Routed (s s' : Session) (t : Text) : Type 0 where
  pending :
      s'.pending ≡ (if is_answer t then Option.map (λ p. (fulfill p t).0) s.pending else s.pending)
  calls : is_answer t ≡ true → s'.calls ≡ s.calls
  reading : s'.reading ≡ s.reading
  writer : s'.writer ≡ s.writer
  lost : s'.lost ≡ s.lost
  sent : s'.sent ≡ s.sent

dispatch-Routed : (s : Session) (t : Text) → Routed s (dispatch s t) t
unfolding dispatch try_fulfill
dispatch-Routed s t = ground (arith, load-OnlyCalls s t, switch-OnlyCalls s t)

-- A line is either a push event, which leaves the pending request alone, or an answer that is
-- offered to the request.
pub dispatch-IsDispatch : IsDispatch dispatch is_answer
dispatch-IsDispatch = record {
  pending = λ s t. (dispatch-Routed s t).pending;
  reading = λ s t. (dispatch-Routed s t).reading;
  writer = λ s t. (dispatch-Routed s t).writer;
  lost = λ s t. (dispatch-Routed s t).lost;
  sent = λ s t. (dispatch-Routed s t).sent;
}

-- A line that is no push event calls no callback.
pub calls-dispatch : (s : Session) (t : Text) → is_answer t ≡ true → (dispatch s t).calls ≡ s.calls
calls-dispatch s t = (dispatch-Routed s t).calls

abbrev pub load_line : ℕ → ℕ → Text
load_line idx level = codes "^K" ++ (pad 3 idx ++ pad 2 level)

-- A load line, with any three-digit load and two-digit level, reports its load and its level, once,
-- and changes nothing else, the pending request included, where the load callback is set.
pub dispatch_load :
    (idx level : ℕ) (s : Session)
    → idx < 1000
    → level < 100
    → s.load_event_cb ≡ true
    → dispatch s (load_line idx level)
      ≡ call (on_load (record { idx = pos idx; level = pos level })) s
unfolding dispatch dispatch_load_event load_event
dispatch_load idx level s h k cb =
    rw (pad_three idx h, pad_two level k) (rw (int-split_three idx h, int-split level k, cb))

abbrev pub letter_of : Bool → Text
letter_of pressed = if pressed then codes "P" else codes "R"

abbrev pub switch_line : Bool → ℕ → ℕ → Text
switch_line pressed board idx = letter_of pressed ++ ((b'0' + board) ∷ pad 3 idx)

abbrev pub switch_line_event : Bool → ℕ → ℕ → SwitchEvent
switch_line_event pressed board idx = record {
  idx = pos idx;
  action = if pressed then press else release;
  board = pos board;
  button = pos 0;
}

-- A switch line, with any one-digit board and three-digit switch, reports its board, its switch, and
-- whether it is a press or a release, once, and changes nothing else, where the switch callback is set.
pub dispatch_switch :
    (pressed : Bool) (board idx : ℕ) (s : Session)
    → board < 10
    → idx < 1000
    → s.switch_event_cb ≡ true
    → dispatch s (switch_line pressed board idx)
      ≡ call (on_switch (switch_line_event pressed board idx)) s
unfolding dispatch dispatch_switch_event switch_event
dispatch_switch true board idx s b h cb =
    rw (pad_three idx h) (rw (int-digit board b, int-split_three idx h, cb))
dispatch_switch false board idx s b h cb =
    rw (pad_three idx h) (rw (int-digit board b, int-split_three idx h, cb))
