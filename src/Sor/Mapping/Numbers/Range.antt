-- ===== src/Sor/Mapping/Numbers/Range.antt =====
-- mapping.py: what `_parse_timestamp` accepts, and how it tells seconds from milliseconds.
use fde_agent_platform.Prelude.{ℕ, ◌*◌, ◌≤◌, ◌<◌, ◌^◌, String, ◌≡◌, arith}
use fde_agent_platform.Prelude.Int.{pos, ◌*ℤ◌}
use fde_agent_platform.Python.Value.{int}
use fde_agent_platform.Sor.Errors.{err, arithmetic_error}
use fde_agent_platform.Sor.Stdlib.{Stdlib}
use fde_agent_platform.Sor.Mapping.Numbers.{parse_timestamp, round_half_even}

-- `n` seconds and `1000 * n` milliseconds are read as the same instant, for any time from 1973 to 5138.
pub seconds-eq-millis :
    (py : Stdlib) (n : ℕ) (name : String)
    → 10 ^ 8 ≤ n
    → n < 10 ^ 11
    → parse_timestamp py (int (pos (1000 * n))) name ≡ parse_timestamp py (int (pos n)) name
unfolding parse_timestamp ◌*ℤ◌ round_half_even
seconds-eq-millis py n name lo hi = ground arith

-- A whole number of milliseconds after the year 9999 makes `_parse_timestamp` raise, and not a `RecordError`.
pub timestamp_overflow :
    (py : Stdlib) (n : ℕ) (name : String)
    → 253_402_300_800_000 ≤ n
    → parse_timestamp py (int (pos n)) name ≡ err arithmetic_error
unfolding parse_timestamp ◌*ℤ◌ round_half_even
timestamp_overflow py n name h = ground arith
