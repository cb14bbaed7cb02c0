-- ===== src/Coordinator/Loads.antt =====
-- The load table: `_on_load_event`, the loop of `_prime_loads`, and the loop of `_safety_poll`.
pub mod Merge
use centralite_ha.Base.{
  ℕ, ℤ, pos, negsuc, Bool, true, false, not, ◌&&◌, Option, none, some, List, [], ◌∷◌, if◌then◌else◌,
  ◌==◌, is_positive,
}
use centralite_ha.Dict.{Dict, get, put, int_eq}
use centralite_ha.Protocol.Event.{LoadEvent}
use centralite_ha.Protocol.Bitmap.{BitMap}
use centralite_ha.Coordinator.State.{LoadState}

abbrev pub Loads : Type 0
Loads = Dict ℤ LoadState

abbrev pub bool_eq : Bool → Bool → Bool
bool_eq a b = if a then b else not b

abbrev pub is_zero : ℤ → Bool
is_zero (pos n) = n == 0
is_zero (negsuc n) = false

-- Both fields of the entry are written, so what it held before does not matter.
unfoldable pub load_changed : Loads → LoadEvent → Loads
load_changed loads event =
    put loads event.idx (record { on = is_positive event.level; level = event.level })

unfoldable pub prime : Loads → BitMap → Loads
prime loads [] = loads
prime loads ((idx, on) ∷ load_states) =
    prime (put loads idx (record { on = on; level = if on then pos 99 else pos 0 })) load_states

-- What the poll makes of an entry whose state it finds changed.
abbrev pub corrected : LoadState → Bool → LoadState
corrected cur on =
    if not on
    then record { on = on; level = pos 0 }
    else if is_zero cur.level
    then record { on = on; level = pos 99 }
    else record { on = on; level = cur.level }

abbrev pub entry_or_off : Option LoadState → LoadState
entry_or_off none = record { on = false; level = pos 0 }
entry_or_off (some cur) = cur

-- One round of the loop of the poll: the table, and `dirty`.
unfoldable pub poll_load : ℤ → Bool → Loads × Bool → Loads × Bool
poll_load idx on (loads, dirty) =
    let cur = entry_or_off (get loads idx) in
    if bool_eq cur.on on then (loads, dirty) else (put loads idx (corrected cur on), true)

unfoldable pub merge : Loads × Bool → BitMap → Loads × Bool
merge table [] = table
merge table ((idx, on) ∷ load_states) = merge (poll_load idx on table) load_states
