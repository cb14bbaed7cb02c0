-- ===== src/Protocol/Clock/RoundTrip.antt =====
-- Setting a bridge clock, and reading it back.
use centralite_ha.Base.{ℕ, ◌+◌, ◌/◌, ◌%◌, ◌<◌, pos, ok, some, [], ◌∷◌, ◌≡◌, arith}
use centralite_ha.Text.Number.Laws.{pad_two, int-split}
use centralite_ha.Protocol.Clock.Date.{DateTime, IsDateTime, weekday, make_datetime, days_in_month}
use centralite_ha.Protocol.Clock.{encode_bcd_clock, parse_bcd_clock}

-- What is set comes back, in the 21st century and with no microseconds.
abbrev pub as_read : DateTime → DateTime
as_read dt = record dt { year = 2000 + dt.year % 100; microsecond = 0 }

make_datetime-as_read :
    (dt : DateTime)
    → IsDateTime dt
    → make_datetime
        (pos (2000 + dt.year % 100))
        (pos dt.month)
        (pos dt.day)
        (pos dt.hour)
        (pos dt.minute)
        (pos dt.second)
      ≡ some (as_read dt)
unfolding make_datetime days_in_month
make_datetime-as_read dt v = ground arith

days_le : (dt : DateTime) → IsDateTime dt → dt.day < 32
unfolding days_in_month
days_le dt v = ground (arith, v.day_le)

-- The two digits of a field.
abbrev tens : ℕ → ℕ
tens n = b'0' + n / 10

abbrev units : ℕ → ℕ
units n = b'0' + n % 10

-- The fields in the order of the wire: two digits each, fourteen in all.
encode-digits :
    (dt : DateTime)
    → IsDateTime dt
    → encode_bcd_clock dt
      ≡ tens dt.second
        ∷ units dt.second
        ∷ tens dt.minute
        ∷ units dt.minute
        ∷ tens dt.hour
        ∷ units dt.hour
        ∷ tens ((weekday dt + 1) % 7 + 1)
        ∷ units ((weekday dt + 1) % 7 + 1)
        ∷ tens dt.day
        ∷ units dt.day
        ∷ tens dt.month
        ∷ units dt.month
        ∷ tens (dt.year % 100)
        ∷ units (dt.year % 100)
        ∷ []
unfolding encode_bcd_clock
encode-digits dt v = rw (
  pad_two dt.second (omega (arith, v.second_lt)),
  pad_two dt.minute (omega (arith, v.minute_lt)),
  pad_two dt.hour (omega (arith, v.hour_lt)),
  pad_two ((weekday dt + 1) % 7 + 1) (omega arith),
  pad_two dt.day (omega (arith, days_le dt v)),
  pad_two dt.month (omega (arith, v.month_le)),
  pad_two (dt.year % 100) (omega arith),
)

-- The clock that ^L sets from a valid date and time, read back by ^K, is that date and time, but
-- for its century, which becomes the years 2000 to 2099, and its microseconds, which become 0.
pub parse-encode :
    (dt : DateTime) → IsDateTime dt → parse_bcd_clock (encode_bcd_clock dt) ≡ ok (as_read dt)
unfolding parse_bcd_clock
parse-encode dt v = rw (encode-digits dt v) (
    rw (
      int-split (dt.year % 100) (omega arith),
      int-split dt.month (omega (arith, v.month_le)),
      int-split dt.day (omega (arith, days_le dt v)),
      int-split dt.hour (omega (arith, v.hour_lt)),
      int-split dt.minute (omega (arith, v.minute_lt)),
      int-split dt.second (omega (arith, v.second_lt)),
      make_datetime-as_read dt v,
    ))
