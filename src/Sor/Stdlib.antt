-- ===== src/Sor/Stdlib.antt =====
-- What packages/fde-sor calls of Python's library and does not implement: parameters of the model.
use fde_agent_platform.Prelude.{String, Bool, Option}
use fde_agent_platform.Prelude.Int.{ℤ}
use fde_agent_platform.Python.Value.{Value, Float}

-- `local` counts microseconds on the wall clock, `offset` those that it is ahead of UTC.
pub record Datetime : Type 0 where
  pub local : ℤ
  pub offset : Option ℤ

-- `repr` is `str(value)` of a value that is no text, `parse_iso` is `datetime.fromisoformat` and
-- `parse_float` is `float(text)` (`none` for a `ValueError`), `isoformat` writes an instant in UTC
-- with microseconds, `parse_json` is `json.loads` (`none` for a
-- `JSONDecodeError`), `encodes` says whether a text has a UTF-8 encoding (one with a lone surrogate has
-- none), `sha256` and `hmac_sha256` (salt first) give hex digests of what a text is encoded as.
pub record Stdlib : Type 0 where
  pub repr : Value → String
  pub parse_iso : String → Option Datetime
  pub parse_float : String → Option Float
  pub isoformat : ℤ → String
  pub encodes : String → Bool
  pub sha256 : String → String
  pub hmac_sha256 : String → String → String
  pub parse_json : String → Option Value
