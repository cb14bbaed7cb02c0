-- ===== src/Protocol/Session.antt =====
-- custom_components/centralite/protocol/_base.py: the serial session that both bridges share.
-- A method is a function of the session and of what arrives while it waits.
pub mod Framing
pub mod Ending
pub mod Waiting
pub mod Frame
use centralite_ha.Base.{
  Bool, true, false, not, ◌&&◌, Option, none, some, List, [], ◌∷◌, ◌++◌, Result, ok, err, Error,
  protocol_error, transport_error, value_error, bind, if◌then◌else◌, ◌≡◌, refl, arith,
}
use mathlib.Core.Option
use centralite_ha.Text.{Text}
use centralite_ha.Protocol.Event.{Call, on_disconnect}

-- The future of a request: `failed` holds the ProtocolError of a lost connection.
pub data Future : Type 0 where
  waiting : Future
  answered : Text → Future
  failed : Future

pub record Pending : Type 0 where
  pub future : Future
  pub matches : Text → Bool

pub record Session : Type 0 where
  -- `_writer is not None`
  pub writer : Bool
  -- the reader task runs
  pub reading : Bool
  -- `_lost`
  pub lost : Bool
  pub pending : Option Pending
  -- which callbacks are set
  pub load_event_cb : Bool
  pub switch_event_cb : Bool
  pub scene_event_cb : Bool
  pub disconnect_cb : Bool
  -- the commands written, and the callbacks called, in order
  pub sent : List Text
  pub calls : List Call

abbrev pub fresh : Session
fresh = record {
  writer = false;
  reading = false;
  lost = false;
  pending = none;
  load_event_cb = false;
  switch_event_cb = false;
  scene_event_cb = false;
  disconnect_cb = false;
  sent = [];
  calls = [];
}

-- A method: its result, and the session after it also where it raises.
abbrev pub Method : Type 0 → Type 0
Method A = Session → Result A × Session

abbrev pub continue : {A B : Type 0} → Result A → (A → Method B) → Method B
continue (ok a) f s = f a s
continue (err e) f s = (err e, s)

infixl 5 ◌>>=◌ ◌>>◌
abbrev pub ◌>>=◌ : {A B : Type 0} → Method A → (A → Method B) → Method B
◌>>=◌ m f s = let (r, s') = m s in continue r f s'

abbrev pub ◌>>◌ : {B : Type 0} → Method (Unit {0}) → Method B → Method B
m >> n = m >>= λ _. n

abbrev pub pure : {A : Type 0} → A → Method A
pure a s = (ok a, s)

abbrev pub raise : {A : Type 0} → Error → Method A
raise e s = (err e, s)

-- A response that is decoded with no further change of the session.
pub decode-bind :
    {A B : Type 0} (r : Result A × Session) (f : A → Result B)
    → (continue r.0 (λ a s. (f a, s)) r.1).0 ≡ bind r.0 f
decode-bind (ok a, s) f = refl
decode-bind (err e, s) f = refl

-- The factory opens the port, or raises.
unfoldable pub connect : Bool → Method (Unit {0})
connect opens s =
    if opens
    then (ok tt, record s { lost = false; writer = true; reading = true })
    else (err transport_error, record s { lost = false })

unfoldable pub disconnect : Session → Session
disconnect s = record s { writer = false; reading = false }

unfoldable pub connected : Session → Bool
connected s = s.writer && not s.lost

unfoldable set_load_event_callback : Session → Session
set_load_event_callback s = record s { load_event_cb = true }

unfoldable set_switch_event_callback : Session → Session
set_switch_event_callback s = record s { switch_event_cb = true }

unfoldable set_scene_event_callback : Session → Session
set_scene_event_callback s = record s { scene_event_cb = true }

unfoldable set_disconnect_callback : Session → Session
set_disconnect_callback s = record s { disconnect_cb = true }

unfoldable pub send : Text → Method (Unit {0})
send command s =
    if s.writer
    then (ok tt, record s { sent = s.sent ++ command ∷ [] })
    else (err protocol_error, s)

abbrev pub call : Call → Session → Session
call c s = record s { calls = s.calls ++ c ∷ [] }

-- The tail of a `_dispatch_…_event`: the callback gets the event of a well-formed line.
abbrev pub emit : {E : Type 0} → (E → Call) → Option E → Session → Session
emit on_event none s = s
emit on_event (some event) s = call (on_event event) s

-- Session `s'` is `s` with perhaps more callbacks called.
pub record OnlyCalls (s s' : Session) : Type 0 where
  pub writer : s'.writer ≡ s.writer
  pub reading : s'.reading ≡ s.reading
  pub lost : s'.lost ≡ s.lost
  pub pending : s'.pending ≡ s.pending
  pub sent : s'.sent ≡ s.sent

pub emit-OnlyCalls :
    {E : Type 0} (on_event : E → Call) (o : Option E) (s : Session)
    → OnlyCalls s (emit on_event o s)
emit-OnlyCalls on_event none s = ground arith
emit-OnlyCalls on_event (some event) s = ground arith

abbrev pub fulfill : Pending → Text → Pending × Bool
fulfill p line = elim p.future [
  | waiting ↦ if p.matches line then (record p { future = answered line }, true) else (p, false)
  | answered t ↦ (p, false)
  | failed ↦ (p, false)
]

-- _try_fulfill
unfoldable pub try_fulfill : Session → Text → Session × Bool
try_fulfill s line = elim s.pending [
  | none ↦ (s, false)
  | some p ↦ let (p', done) = fulfill p line in (record s { pending = some p' }, done)
]

abbrev pub fail : Pending → Pending
fail p = elim p.future [ waiting ↦ record p { future = failed } | answered t ↦ p | failed ↦ p ]

-- _notify_disconnect
unfoldable pub notify_disconnect : Session → Session
notify_disconnect s =
    let marked = record s { lost = true; pending = Option.map fail s.pending } in
    if s.disconnect_cb then call on_disconnect marked else marked

-- What the reader task meets: a line, or the end of the connection.
pub data Inbound : Type 0 where
  line : Text → Inbound
  broken : Inbound

-- `_dispatch` of the subclass is a parameter of the shared machinery.
abbrev pub Dispatch : Type 0
Dispatch = Session → Text → Session

-- One round of _reader_loop: an empty line is dropped, and the end of the connection ends the task.
unfoldable pub receive : Dispatch → Session → Inbound → Session
unfolding notify_disconnect
receive dispatch s (line []) = s
receive dispatch s (line (c ∷ t)) = if s.reading then dispatch s (c ∷ t) else s
receive dispatch s broken =
    if s.reading then record (notify_disconnect s) { reading = false } else s

unfoldable pub receive_all : Dispatch → Session → List Inbound → Session
receive_all dispatch s [] = s
receive_all dispatch s (i ∷ arrivals) = receive_all dispatch (receive dispatch s i) arrivals

-- What `wait_for` gives: a future that is still waiting has timed out.
abbrev pub outcome : Option Pending → Result Text
outcome none = err protocol_error
outcome (some p) = elim p.future [
  | waiting ↦ err protocol_error
  | answered t ↦ ok t
  | failed ↦ err protocol_error
]

abbrev pub match_any : Text → Bool
match_any t = true

-- _sendrecv, where `arrivals` is all that the reader meets until the wait ends.
unfoldable pub sendrecv : Dispatch → Text → (Text → Bool) → List Inbound → Method Text
sendrecv dispatch command matches arrivals s =
    if s.writer
    then (let asked = record s {
      pending = some (record { future = waiting; matches = matches });
      sent = s.sent ++ command ∷ [];
    } in
        let done = receive_all dispatch asked arrivals in
        (outcome done.pending, record done { pending = none }))
    else (err protocol_error, s)

-- What a method that validates its arguments does first.
abbrev pub require : Bool → Method (Unit {0})
require test s = if test then (ok tt, s) else (err value_error, s)
