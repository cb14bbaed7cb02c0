-- ===== src/Protocol/JetStream.antt =====
-- custom_components/centralite/protocol/jetstream.py: the commands and the dispatcher of JetStream.
pub mod Events
pub mod Commands
pub mod Scan
use centralite_ha.Base.{
  ℕ, zero, suc, ◌+◌, ℤ, pos, Bool, true, false, ◌&&◌, ◌||◌, Option, none, some, List, [], ◌∷◌, ◌++◌,
  Result, ok, err, protocol_error, is_protocol_error, option_bind, length, drop, within_one,
  within_zero, if◌then◌else◌, ◌==◌,
}
use centralite_ha.Text.{Text, or_none, codes, slice, starts_with, strip, text_eq}
use centralite_ha.Text.Number.{int, pad_int, show_int}
use centralite_ha.Dict.{Dict, put, int_eq}
use centralite_ha.Protocol.Event.{
  LoadEvent, SwitchEvent, SceneEvent, Action, tap, press, release, on_load, on_switch, on_scene,
}
use centralite_ha.Protocol.Bitmap.{BitMap}
use centralite_ha.Protocol.Session.{
  Session, Method, ◌>>=◌, ◌>>◌, pure, raise, require, emit, send, sendrecv, match_any, try_fulfill,
  Inbound,
}

abbrev pub jetstream_max_loads : ℕ
jetstream_max_loads = 199

abbrev pub jetstream_max_scenes : ℕ
jetstream_max_scenes = 100

abbrev pub jetstream_max_switches : ℕ
jetstream_max_switches = 199

abbrev pub jetstream_max_buttons_per_switch : ℕ
jetstream_max_buttons_per_switch = 3

abbrev pub validate_load_idx : ℤ → Method (Unit {0})
validate_load_idx idx = require (within_one jetstream_max_loads idx)

abbrev pub validate_switch_idx : ℤ → Method (Unit {0})
validate_switch_idx idx = require (within_one jetstream_max_switches idx)

abbrev pub validate_scene_idx : ℤ → Method (Unit {0})
validate_scene_idx idx = require (within_one jetstream_max_scenes idx)

abbrev pub validate_button_idx : ℤ → Method (Unit {0})
validate_button_idx button = require (within_one jetstream_max_buttons_per_switch button)

unfoldable pub activate_load : ℤ → Method (Unit {0})
activate_load idx = do validate_load_idx idx; send (codes "^A" ++ pad_int 3 idx)

unfoldable pub deactivate_load : ℤ → Method (Unit {0})
deactivate_load idx = do validate_load_idx idx; send (codes "^B" ++ pad_int 3 idx)

unfoldable pub set_load_level : ℤ → ℤ → ℤ → Method (Unit {0})
set_load_level idx level rate = do
  validate_load_idx idx
  require (within_zero 99 level)
  require (within_zero 31 rate)
  send (codes "^E" ++ (pad_int 3 idx ++ (pad_int 2 level ++ pad_int 2 rate)))

unfoldable pub activate_scene : ℤ → Method (Unit {0})
activate_scene idx = do validate_scene_idx idx; send (codes "^C" ++ pad_int 3 idx)

unfoldable pub deactivate_scene : ℤ → Method (Unit {0})
deactivate_scene idx = do validate_scene_idx idx; send (codes "^D" ++ pad_int 3 idx)

unfoldable pub release_switch : ℤ → ℤ → Method (Unit {0})
release_switch idx button = do
  validate_switch_idx idx
  validate_button_idx button
  send (codes "^R" ++ (pad_int 3 idx ++ pad_int 2 button))

unfoldable pub press_switch : ℤ → ℤ → Bool → Method (Unit {0})
unfolding release_switch
press_switch idx button auto_release = do
  validate_switch_idx idx
  validate_button_idx button
  send (codes "^P" ++ (pad_int 3 idx ++ pad_int 2 button))
  if auto_release then release_switch idx button else pure tt

unfoldable pub tap_switch : ℤ → ℤ → Method (Unit {0})
tap_switch idx button = do
  validate_switch_idx idx
  validate_button_idx button
  send (codes "^T" ++ (pad_int 3 idx ++ pad_int 2 button))

abbrev change_load : Text → ℤ → ℤ → ℤ → Method (Unit {0})
change_load verb idx value rate = do
  validate_load_idx idx
  send (
      verb
      ++ (codes " "
          ++ (show_int idx ++ (codes " " ++ (show_int value ++ (codes " " ++ show_int rate))))))

unfoldable pub increment_load : ℤ → ℤ → ℤ → Method (Unit {0})
increment_load = change_load (codes "inc")

unfoldable pub decrement_load : ℤ → ℤ → ℤ → Method (Unit {0})
decrement_load = change_load (codes "dec")

-- There is no ^G, no ^H and no clock command.
unfoldable pub get_all_load_states : Method BitMap
get_all_load_states = raise protocol_error

unfoldable pub get_all_switch_states : Method BitMap
get_all_switch_states = raise protocol_error

abbrev pub dev_len : ℕ
dev_len = 8

abbrev pub act_len : ℕ
act_len = 9

abbrev pub scn_len : ℕ
scn_len = 7

-- The event of a line `DEV ddd ll`.
unfoldable pub load_event : Text → Option LoadEvent
load_event line = option_bind (int (slice 3 6 line)) (λ idx.
    option_bind (int (slice 6 8 line)) (λ level. some (record { idx = idx; level = level })))

unfoldable pub dispatch_load_event : Session → Text → Session
dispatch_load_event s line = if s.load_event_cb then emit on_load (load_event line) s else s

-- _ACTION_MAP.get(c)
unfoldable pub action_of : Text → Option Action
action_of c =
    if text_eq c (codes "T")
    then some tap
    else if text_eq c (codes "P")
    then some press
    else if text_eq c (codes "R")
    then some release
    else none

-- The event of a line `ACT ddd bb a`.
unfoldable pub switch_event : Text → Option SwitchEvent
unfolding action_of
switch_event line = option_bind (int (slice 3 6 line)) (λ idx.
    option_bind (int (slice 6 8 line)) (λ button.
      option_bind (action_of (slice 8 9 line))
        (λ action. some (record { idx = idx; action = action; board = pos 0; button = button }))))

unfoldable pub dispatch_switch_event : Session → Text → Session
dispatch_switch_event s line = if s.switch_event_cb then emit on_switch (switch_event line) s else s

-- The event of a line `SCN sss d`.
unfoldable pub scene_event : Text → Option SceneEvent
scene_event line = option_bind (int (slice 3 6 line)) (λ idx.
    let state_char = slice 6 7 line in
    if text_eq state_char (codes "0") || text_eq state_char (codes "1")
    then some (record { idx = idx; active = text_eq state_char (codes "1") })
    else none)

unfoldable pub dispatch_scene_event : Session → Text → Session
dispatch_scene_event s line = if s.scene_event_cb then emit on_scene (scene_event line) s else s

-- A push event may also answer the pending request, so each line is offered to it.
unfoldable pub dispatch : Session → Text → Session
dispatch s line =
    if length line == dev_len && starts_with line (codes "DEV")
    then (try_fulfill (dispatch_load_event s line) line).0
    else if length line == act_len && starts_with line (codes "ACT")
    then (try_fulfill (dispatch_switch_event s line) line).0
    else if length line == scn_len && starts_with line (codes "SCN")
    then (try_fulfill (dispatch_scene_event s line) line).0
    else (try_fulfill s line).0

-- The matcher of get_load_level.
abbrev pub level_matches : ℤ → Text → Bool
level_matches idx line = length line == dev_len && starts_with line (codes "DEV" ++ pad_int 3 idx)

unfoldable pub level_of : Text → Result ℤ
level_of response = elim (int (slice 6 8 response)) [
  | none ↦ err protocol_error
  | some level ↦ ok level
]

unfoldable pub get_load_level : ℤ → List Inbound → Method ℤ
get_load_level idx arrivals = do
  validate_load_idx idx
  response ← sendrecv dispatch (codes "^F" ++ pad_int 3 idx) (level_matches idx) arrivals
  λ s. (level_of response, s)

abbrev pub name_prefix : ℤ → Text
name_prefix idx = codes "NAM" ++ pad_int 3 idx

abbrev name_of : ℤ → Result Text → Result (Option Text)
name_of idx (ok response) = ok (or_none (strip (drop (length (name_prefix idx)) response)))
name_of idx (err e) = if is_protocol_error e then ok none else err e

unfoldable pub get_device_name : ℤ → List Inbound → Method (Option Text)
get_device_name idx arrivals = do
  validate_load_idx idx
  λ s.
      let (r, s') =
        sendrecv dispatch (codes "^N" ++ pad_int 3 idx) (λ line. starts_with line (name_prefix idx))
          arrivals s in
      (name_of idx r, s')

abbrev pub jetstream_scan_max_device : ℕ
jetstream_scan_max_device = 96

-- `if name: found[idx] = name`
abbrev pub add_name : Option Text → ℕ → Dict ℤ Text → Dict ℤ Text
add_name none idx found = found
add_name (some name) idx found = put found (pos idx) name

-- The loop of scan_device_names over `rounds` indices from `idx`; `arrivals i` comes during probe i.
unfoldable pub scan_loop : (ℕ → List Inbound) → ℕ → ℕ → Dict ℤ Text → Method (Dict ℤ Text)
unfolding get_device_name
scan_loop arrivals idx zero found = pure found
scan_loop arrivals idx (suc rounds) found = do
  name ← get_device_name (pos idx) (arrivals idx)
  λ s.
      let rest = scan_loop arrivals (suc idx) rounds (add_name name idx found) s in
      if s.lost then (err protocol_error, s) else rest

-- scan_device_names with its default range.
unfoldable pub scan_device_names : (ℕ → List Inbound) → Method (Dict ℤ Text)
unfolding scan_loop
scan_device_names arrivals = scan_loop arrivals 1 jetstream_scan_max_device []

abbrev pong : Result Text → Result Bool
pong (ok response) = ok (text_eq response (codes "Hello"))
pong (err e) = if is_protocol_error e then ok false else err e

unfoldable pub ping : List Inbound → Method Bool
ping arrivals s =
    let (r, s') =
      sendrecv dispatch (codes "Ping") (λ line. text_eq line (codes "Hello")) arrivals s in
    (pong r, s')
