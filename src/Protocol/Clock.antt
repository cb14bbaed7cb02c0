-- ===== src/Protocol/Clock.antt =====
-- custom_components/centralite/protocol/elegance.py: the clock codec of ^K and ^L, and Python's
-- naive `datetime` as far as it is used there.
pub mod Date
pub mod RoundTrip
use centralite_ha.Base.{
  ℕ, ◌+◌, ◌%◌, ℤ, Option, none, some, ◌++◌, Result, ok, err, protocol_error, bind, length,
  if◌then◌else◌, ◌==◌,
}
use centralite_ha.Text.{Text, slice}
use centralite_ha.Text.Number.{int, pad}
use centralite_ha.Protocol.Clock.Date.{DateTime, add_nat, make_datetime, weekday}

-- Encode as ssmmhhwwddmmyy.
unfoldable pub encode_bcd_clock : DateTime → Text
encode_bcd_clock dt =
    let dow = (weekday dt + 1) % 7 + 1 in
    pad 2 dt.second
    ++ (pad 2 dt.minute
        ++ (pad 2 dt.hour
            ++ (pad 2 dow ++ (pad 2 dt.day ++ (pad 2 dt.month ++ pad 2 (dt.year % 100))))))

infixl 5 ◌>>=◌
abbrev pub ◌>>=◌ : {A B : Type 0} → Option A → (A → Option B) → Option B
none >>= f = none
some a >>= f = f a

-- The call of `datetime` on the fields, `none` for a ValueError of it or of an `int`.
unfoldable pub read_clock : Text → Option DateTime
read_clock s = do
  year ← int (slice 12 14 s)
  month ← int (slice 10 12 s)
  day ← int (slice 8 10 s)
  hour ← int (slice 4 6 s)
  minute ← int (slice 2 4 s)
  second ← int (slice 0 2 s)
  make_datetime (add_nat 2000 year) month day hour minute second

unfoldable pub parse_bcd_clock : Text → Result DateTime
unfolding read_clock
parse_bcd_clock s =
    if length s == 14
    then (elim (read_clock s) [ none ↦ err protocol_error | some dt ↦ ok dt ])
    else err protocol_error
