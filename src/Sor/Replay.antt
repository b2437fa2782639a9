-- ===== src/Sor/Replay.antt =====
-- packages/fde-sor/src/fde_sor/adapters/replay.py: `ReplayAdapter`. The lines of the file or of the S3 object
-- are a parameter.
pub mod Resumes
use fde_agent_platform.Prelude.{
  ℕ, ◌+◌, String, false, Option, none, some, List, [], ◌∷◌, ◌++◌, ltb, if◌then◌else◌,
}
use fde_agent_platform.Prelude.Int.{ℤ, pos, negsuc}
use fde_agent_platform.Python.Text.{is_empty, strip, int_of_text}
use fde_agent_platform.Python.Value.{Value, int, obj}
use fde_agent_platform.Sor.Stdlib.{Stdlib}
use fde_agent_platform.Sor.Mapping.Normalize.{to_text}
use fde_agent_platform.Sor.State.{RawRecord, SorAdapter}

-- `str(line_number)`
abbrev pub number_text : Stdlib → ℕ → String
number_text py n = to_text py (int (pos n))

-- `int(cursor) + 1`, where no line has a number below 0.
abbrev pub after_line : Option ℤ → ℕ
after_line none = 0
after_line (some (pos n)) = n + 1
after_line (some (negsuc n)) = 0

-- A cursor that is no number starts again at line 0.
unfoldable pub start_line : Option String → ℕ
start_line none = 0
start_line (some cursor) = after_line (int_of_text cursor)

abbrev pub record_of_json : Stdlib → ℕ → Option Value → List RawRecord
record_of_json py n (some (obj payload)) =
    record { payload = payload; cursor = some (number_text py n); ref = some (number_text py n) }
    ∷ []
record_of_json py n _ = []

-- The record of one line, unless it is blank or holds no JSON object.
unfoldable pub record_of_line : Stdlib → ℕ → String → List RawRecord
unfolding strip
record_of_line py n text = if is_empty text then [] else record_of_json py n (py.parse_json text)

-- The lines from number `n` on, where those below `start` are passed over.
unfoldable pub replay_lines : Stdlib → ℕ → ℕ → List String → List RawRecord
unfolding record_of_line
replay_lines py start n [] = []
replay_lines py start n (line ∷ lines) =
    let rest = replay_lines py start (n + 1) lines in
    if ltb n start then rest else record_of_line py n (strip line) ++ rest

-- `ReplayAdapter(uri)`, over the lines that stand there.
unfoldable pub replay_adapter : Stdlib → List String → SorAdapter
unfolding replay_lines start_line
replay_adapter py lines = record {
  fetch = λ cursor. record { records = replay_lines py (start_line cursor) 0 lines; fails = false };
  acking = false;
}
