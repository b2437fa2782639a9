-- ===== src/Sor/Mapping/Numbers.antt =====
-- mapping.py: `_parse_timestamp` and `_parse_duration`. An instant is a whole number of
-- microseconds since 1970 in UTC.
pub mod Range
use fde_agent_platform.Prelude.{
  ℕ, ◌+◌, ◌-◌, ◌*◌, ◌/◌, ◌%◌, ◌^◌, String, Bool, ◌&&◌, Option, none, some, ltb, leb, str_eq,
  if◌then◌else◌,
}
use fde_agent_platform.Prelude.Int.{ℤ, pos, negsuc, pos_part, neg_part, abs, ◌*ℤ◌, ◌-ℤ◌}
use fde_agent_platform.Python.Text.{strip, replace, negate}
use fde_agent_platform.Python.Value.{
  Value, Float, null, bool, int, float, str, finite, infinite, nan,
}
use fde_agent_platform.Sor.Errors.{
  Result, ok, err, ◌>>=◌, record_error, arithmetic_error, is_boolean, not_iso, not_timestamp,
  not_numeric,
}
use fde_agent_platform.Sor.Stdlib.{Stdlib, Datetime}

-- `_EPOCH_MILLIS_THRESHOLD`, in millionths.
abbrev pub epoch_millis_threshold : ℕ
epoch_millis_threshold = 10 ^ 17

-- The years 1 to 9999, which `datetime` covers, in microseconds around 1970.
abbrev pub first_instant : ℕ
first_instant = 62_135_596_800 * 10 ^ 6

abbrev pub after_last_instant : ℕ
after_last_instant = 253_402_300_800 * 10 ^ 6

-- n / d, rounded to the nearest whole number and to the even one of two.
pub round_half_even : ℕ → ℕ → ℕ
round_half_even n d =
    let q = n / d in
    let twice = 2 * (n % d) in if ltb twice d then q else if ltb d twice then q + 1 else q + q % 2

unfoldable pub round_div : ℤ → ℕ → ℤ
unfolding round_half_even
round_div (pos n) d = pos (round_half_even n d)
round_div (negsuc n) d = negate (round_half_even (n + 1) d)

abbrev pub in_datetime_range : ℤ → Bool
in_datetime_range t = ltb (pos_part t) after_last_instant && leb (neg_part t) first_instant

abbrev pub check_instant : ℤ → Result ℤ
check_instant t = if in_datetime_range t then ok t else err arithmetic_error

-- The least integer that no float is near enough to: `float(n)` raises from it on.
abbrev pub float_overflow : ℕ
float_overflow = 2 ^ 1024 - 2 ^ 970

unfoldable pub float_of_int : ℤ → Result Float
unfolding ◌*ℤ◌
float_of_int n =
    if ltb (abs n) float_overflow then ok (finite (n *ℤ pos (10 ^ 6))) else err arithmetic_error

-- `datetime.fromtimestamp(seconds, tz=UTC)`, after the split into seconds and milliseconds.
unfoldable pub from_epoch : Float → Result ℤ
unfolding round_div
from_epoch (finite m) =
    check_instant (if leb epoch_millis_threshold (abs m) then round_div m 1000 else m)
from_epoch infinite = err arithmetic_error
from_epoch nan = err arithmetic_error

-- `replace(tzinfo=UTC)` of a naive time, and `astimezone(UTC)`.
unfoldable pub to_utc : Datetime → Result ℤ
unfolding ◌-ℤ◌
to_utc d = elim d.offset [ none ↦ ok d.local | some offset ↦ check_instant (d.local -ℤ offset) ]

abbrev iso_instant : Option Datetime → String → Result ℤ
iso_instant none name = err (record_error not_iso name)
iso_instant (some d) name = to_utc d

unfoldable pub parse_timestamp : Stdlib → Value → String → Result ℤ
unfolding float_of_int from_epoch to_utc strip replace
parse_timestamp py (bool b) name = err (record_error is_boolean name)
parse_timestamp py (int n) name = float_of_int n >>= from_epoch
parse_timestamp py (float x) name = from_epoch x
parse_timestamp py (str text) name =
    iso_instant (py.parse_iso (replace b'Z' "+00:00" (strip text))) name
parse_timestamp py _ name = err (record_error not_timestamp name)

-- `float(value)` under `except (TypeError, ValueError)`.
unfoldable pub to_float : Stdlib → Value → String → Result Float
unfolding float_of_int
to_float py (bool b) name = ok (finite (pos (if b then 10 ^ 6 else 0)))
to_float py (int n) name = float_of_int n
to_float py (float x) name = ok x
to_float py (str text) name = elim (py.parse_float text) [
  | none ↦ err (record_error not_numeric name)
  | some x ↦ ok x
]
to_float py _ name = err (record_error not_numeric name)

-- `round(numeric)`, after the division for milliseconds.
unfoldable pub round_seconds : String → Float → Result (Option ℤ)
unfolding round_div
round_seconds unit (finite m) =
    ok (some (if str_eq unit "ms" then round_div m (10 ^ 9) else round_div m (10 ^ 6)))
round_seconds unit infinite = err arithmetic_error
round_seconds unit nan = err arithmetic_error

unfoldable pub parse_duration : Stdlib → Value → String → String → Result (Option ℤ)
unfolding to_float round_seconds
parse_duration py null unit name = ok none
parse_duration py value unit name = to_float py value name >>= round_seconds unit
