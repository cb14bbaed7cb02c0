-- ===== src/Protocol/Elegance.antt =====
-- custom_components/centralite/protocol/elegance.py: the commands and the dispatcher of Elegance.
-- A method that waits takes what arrives meanwhile; `get_clock` and the bitmaps are decoded by the
-- sibling modules.
pub mod Events
pub mod Commands
use centralite_ha.Base.{
  ℕ, ℤ, pos, Bool, true, false, ◌&&◌, ◌||◌, Option, none, some, List, [], ◌∷◌, ◌++◌, Result, ok,
  err, protocol_error, option_bind, length, within_one, within_zero, if◌then◌else◌, ◌==◌,
}
use centralite_ha.Text.{Text, codes, slice, starts_with, strip}
use centralite_ha.Text.Number.{int, pad_int}
use centralite_ha.Protocol.Event.{
  LoadEvent, SwitchEvent, Action, press, release, on_load, on_switch,
}
use centralite_ha.Protocol.Bitmap.{
  BitMap, max_loads, max_switches, parse_load_bitmap, parse_switch_bitmap,
}
use centralite_ha.Protocol.Clock.{encode_bcd_clock, parse_bcd_clock}
use centralite_ha.Protocol.Clock.Date.{DateTime}
use centralite_ha.Protocol.Session.{
  Session, Method, ◌>>=◌, ◌>>◌, pure, require, emit, send, sendrecv, match_any, try_fulfill,
  Inbound,
}

abbrev pub max_scenes : ℕ
max_scenes = 256

abbrev pub validate_load_idx : ℤ → Method (Unit {0})
validate_load_idx idx = require (within_one max_loads idx)

abbrev pub validate_switch_idx : ℤ → Method (Unit {0})
validate_switch_idx idx = require (within_one max_switches idx)

abbrev pub validate_scene_idx : ℤ → Method (Unit {0})
validate_scene_idx idx = require (within_one max_scenes idx)

unfoldable pub activate_load : ℤ → Method (Unit {0})
activate_load idx = do validate_load_idx idx; send (codes "^A" ++ pad_int 3 idx)

unfoldable pub deactivate_load : ℤ → Method (Unit {0})
deactivate_load idx = do validate_load_idx idx; send (codes "^B" ++ pad_int 3 idx)

unfoldable pub set_load_level : ℤ → ℤ → ℤ → Method (Unit {0})
set_load_level idx level rate = do
  validate_load_idx idx
  require (within_zero 99 level)
  require (within_zero 31 rate)
  send (codes "^E" ++ (pad_int 3 idx ++ (pad_int 2 level ++ pad_int 2 rate)))

unfoldable pub activate_scene : ℤ → Method (Unit {0})
activate_scene idx = do validate_scene_idx idx; send (codes "^C" ++ pad_int 3 idx)

unfoldable pub deactivate_scene : ℤ → Method (Unit {0})
deactivate_scene idx = do validate_scene_idx idx; send (codes "^D" ++ pad_int 3 idx)

unfoldable pub release_switch : ℤ → Method (Unit {0})
release_switch idx = do validate_switch_idx idx; send (codes "^J" ++ pad_int 3 idx)

unfoldable pub press_switch : ℤ → Bool → Method (Unit {0})
unfolding release_switch
press_switch idx auto_release = do
  validate_switch_idx idx
  send (codes "^I" ++ pad_int 3 idx)
  if auto_release then release_switch idx else pure tt

unfoldable pub set_clock : DateTime → Method (Unit {0})
set_clock dt = send (codes "^L" ++ encode_bcd_clock dt)

-- The event of a line `P s nnn` or `R s nnn`, if its numbers are numbers.
unfoldable pub switch_event : Text → Option SwitchEvent
switch_event line = option_bind (int (slice 1 2 line)) (λ board.
    option_bind (int (slice 2 5 line)) (λ idx. some (record {
      idx = idx;
      action = if starts_with line (codes "P") then press else release;
      board = board;
      button = pos 0;
    })))

unfoldable pub dispatch_switch_event : Session → Text → Session
dispatch_switch_event s line = if s.switch_event_cb then emit on_switch (switch_event line) s else s

-- The event of a line `^K nnn ll`.
unfoldable pub load_event : Text → Option LoadEvent
load_event line = option_bind (int (slice 2 5 line)) (λ idx.
    option_bind (int (slice 5 7 line)) (λ level. some (record { idx = idx; level = level })))

unfoldable pub dispatch_load_event : Session → Text → Session
dispatch_load_event s line = if s.load_event_cb then emit on_load (load_event line) s else s

abbrev pub is_switch_line : Text → Bool
is_switch_line line =
    length line == 5 && (starts_with line (codes "P") || starts_with line (codes "R"))

abbrev pub is_load_line : Text → Bool
is_load_line line = length line == 7 && starts_with line (codes "^K")

unfoldable pub dispatch : Session → Text → Session
dispatch s line =
    if is_switch_line line
    then dispatch_switch_event s line
    else if is_load_line line
    then dispatch_load_event s line
    else (try_fulfill s line).0

unfoldable pub level_of : Text → Result ℤ
level_of response = elim (int (strip response)) [
  | none ↦ err protocol_error
  | some level ↦ ok level
]

unfoldable pub get_load_level : ℤ → List Inbound → Method ℤ
get_load_level idx arrivals = do
  validate_load_idx idx
  response ← sendrecv dispatch (codes "^F" ++ pad_int 3 idx) match_any arrivals
  λ s. (level_of response, s)

unfoldable pub get_all_load_states : List Inbound → Method BitMap
get_all_load_states arrivals = do
  response ← sendrecv dispatch (codes "^G") match_any arrivals
  λ s. (parse_load_bitmap (strip response), s)

unfoldable pub get_all_switch_states : List Inbound → Method BitMap
get_all_switch_states arrivals = do
  response ← sendrecv dispatch (codes "^H") match_any arrivals
  λ s. (parse_switch_bitmap (strip response), s)

unfoldable pub get_clock : List Inbound → Method DateTime
get_clock arrivals = do
  response ← sendrecv dispatch (codes "^K") match_any arrivals
  λ s. (parse_bcd_clock (strip response), s)
