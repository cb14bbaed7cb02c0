-- ===== src/Protocol/Tests.antt =====
-- The theorems about the wire protocols at concrete lines, sessions and states.
use centralite_ha.Base.{
  ℕ, ◌%◌, pos, Bool, true, false, ◌&&◌, some, List, [], ◌∷◌, ◌++◌, ◌≡◌, refl, arith, ok, length,
  ◌==◌,
}
use centralite_ha.Text.{Text, codes, slice}
use centralite_ha.Text.Number.{int, pad, pad_int}
use centralite_ha.Dict.{int_eq}
use centralite_ha.Protocol.Event.{on_load}
use centralite_ha.Protocol.Bitmap.{parse_load_bitmap, max_loads}
use centralite_ha.Protocol.Bitmap.RoundTrip.{Holds, print_bytes, parse_load_bitmap-print}
use centralite_ha.Protocol.Clock.Date.{DateTime}
use centralite_ha.Protocol.Session.{
  Session, fresh, call, try_fulfill, sendrecv, Inbound, line, broken, match_any,
}
use centralite_ha.Protocol.Session.Framing.{inbound, stream_of, lines_of, inbound-stream_of}
use centralite_ha.Protocol.Session.Framing.{reader_loop}
use centralite_ha.Protocol.Session.Ending.{ends, reader_loop-inbound}
use centralite_ha.Protocol.Session.Waiting.{first_answer, sendrecv-first_answer}
use centralite_ha.Protocol.Elegance
use centralite_ha.Protocol.Elegance.Events.{is_answer, load_line, dispatch-IsDispatch}
use centralite_ha.Protocol.Elegance.Commands.{set_load_level-sent}
use centralite_ha.Protocol.JetStream
use centralite_ha.Protocol.JetStream.Events.{dev_line, dispatch_dev}
use centralite_ha.Protocol.JetStream.Commands.{get_load_level_reply}

-- A session with an open link and all callbacks set.
abbrev open_session : Session
open_session = record fresh {
  writer = true;
  reading = true;
  load_event_cb = true;
  switch_event_cb = true;
  scene_event_cb = true;
  disconnect_cb = true;
}

-- Every third load is on.
abbrev third : ℕ → Bool
third k = k % 3 == 0

parse_load_bitmap-print_example : Holds third max_loads (parse_load_bitmap (print_bytes third 0 24))
parse_load_bitmap-print_example = parse_load_bitmap-print third

abbrev leap_day : DateTime
leap_day = record {
  year = 2024;
  month = 2;
  day = 29;
  hour = 23;
  minute = 59;
  second = 58;
  microsecond = 120;
}

abbrev two_lines : List (Bool × Text)
two_lines = (true, dev_line 12 40) ∷ (false, codes "P0012") ∷ []

inbound-stream_of_example : inbound (stream_of two_lines) ≡ lines_of two_lines
unfolding pad
inbound-stream_of_example = inbound-stream_of two_lines (
  ((refl, (refl, (refl, (refl, (refl, (refl, (refl, (refl, tt)))))))), omega arith),
  (((refl, (refl, (refl, (refl, (refl, tt))))), omega arith), tt),
)

-- A push event comes before the answer.
abbrev push_first : List Inbound
push_first = line (load_line 7 50) ∷ line (codes "42") ∷ broken ∷ []

sendrecv-first_answer_example :
    (sendrecv Elegance.dispatch (codes "^F012") match_any push_first open_session).0
    ≡ first_answer (λ t. is_answer t && match_any t) push_first
sendrecv-first_answer_example =
    sendrecv-first_answer Elegance.dispatch is_answer dispatch-IsDispatch (codes "^F012") match_any
      push_first open_session refl refl

push_first_run : first_answer (λ t. is_answer t && match_any t) push_first ≡ ok (codes "42")
unfolding pad
push_first_run = refl

set_load_level-sent_example :
    (command : Text) × (Elegance.set_load_level (pos 12) (pos 50) (pos 3) open_session
      ≡ (ok tt, record open_session { sent = [] ++ command ∷ [] }))
    × (length command ≡ 9)
    × (slice 0 2 command ≡ codes "^E")
    × (int (slice 2 5 command) ≡ some (pos 12))
    × (int (slice 5 7 command) ≡ some (pos 50))
    × (int (slice 7 9 command) ≡ some (pos 3))
set_load_level-sent_example =
    set_load_level-sent 12 50 3 open_session (omega arith) (omega arith) (omega arith) (omega arith)
      refl

dispatch_dev_example :
    JetStream.dispatch open_session (dev_line 12 40)
    ≡ (try_fulfill
        (call (on_load (record { idx = pos 12; level = pos 40 })) open_session)
        (dev_line 12 40)).0
dispatch_dev_example = dispatch_dev 12 40 open_session (omega arith) (omega arith) refl

-- The level of load 13 comes before that of load 12.
get_load_level_reply_example :
    (JetStream.get_load_level
      (pos 12)
      ((line (dev_line 13 99) ∷ []) ++ (line (dev_line 12 40) ∷ []))
      open_session).0
    ≡ ok (pos 40)
unfolding pad pad_int
get_load_level_reply_example =
    get_load_level_reply 12 open_session (omega arith) (omega arith) refl refl 40
      (line (dev_line 13 99) ∷ []) [] (omega arith) (refl, tt)

reader_loop-inbound_example :
    (reader_loop 10 (codes "P0012\r\n^K") ≡ inbound (codes "P0012\r\n^K"))
    × (ends (inbound (codes "P0012\r\n^K")) ≡ true)
reader_loop-inbound_example = reader_loop-inbound 10 (codes "P0012\r\n^K") (omega arith)
