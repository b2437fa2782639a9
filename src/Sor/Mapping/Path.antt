-- ===== src/Sor/Mapping/Path.antt =====
-- mapping.py: `resolve_path`.
pub mod Join
use fde_agent_platform.Prelude.{String, none, some, List, [], ◌∷◌, if◌then◌else◌}
use fde_agent_platform.Python.Text.{split, int_of_text}
use fde_agent_platform.Python.Value.{Value, null, arr, obj, get, index, is_null}

-- One segment of a path: a key, or an index of a list.
pub step : Value → String → Value
step (obj fs) segment = get fs segment
step (arr xs) segment = elim (int_of_text segment) [ none ↦ null | some i ↦ index xs i ]
step _ segment = null

pub walk : Value → List String → Value
unfolding step
walk v [] = v
walk v (segment ∷ rest) =
    let next = walk (step v segment) rest in if is_null (step v segment) then null else next

unfoldable pub resolve_path : Value → String → Value
unfolding walk split int_of_text
resolve_path payload path = walk payload (split b'.' path)
