-- ===== src/Training/Tests/Calls.antt =====
-- rewards/validity.py on a search, a traversal, and a traversal with a text for a number.
use mathlib.Core.List.{Memᴰ}
use fde_agent_platform.Prelude.{String, true, none, some, List, [], ◌∷◌, ◌≡◌, refl}
use fde_agent_platform.Prelude.Int.{pos}
use fde_agent_platform.Python.Value.{Fields, end, field, null, int, str}
use fde_agent_platform.Training.Ratio.{◌//◌, AtMost, IsScore}
use fde_agent_platform.Training.Episode.{ToolCallRecord, EpisodeLog}
use fde_agent_platform.Training.Rewards.Validity.{format, schema_valid}
use fde_agent_platform.Training.Rewards.Validity.Scores.{schema_valid-format, schema_valid-raises}

abbrev call : String → Fields → ToolCallRecord
call name arguments = record {
  tool_name = name;
  arguments = arguments;
  result = none;
  retrieval = none;
  latency_ms = none;
  raw_arguments_str = none;
  parse_ok = true;
}

abbrev log_of : List ToolCallRecord → EpisodeLog
log_of calls = record { tool_calls = calls; final_answer = null; malformed_tool_call_count = 0 }

-- The traversal asks for too many hops.
abbrev two_calls : EpisodeLog
two_calls =
    log_of (call "kg_search" end ∷ call "kg_traverse" (field "max_hops" (int (pos 9)) end) ∷ [])

half : schema_valid two_calls ≡ some (1 // 2)
unfolding schema_valid
half = refl

schema_valid-format_example :
    IsScore (format two_calls) × IsScore (1 // 2) × AtMost (1 // 2) (format two_calls)
schema_valid-format_example = schema_valid-format two_calls (1 // 2) half refl

abbrev wordy : ToolCallRecord
wordy = call "kg_traverse" (field "max_hops" (str "three") end)

schema_valid-raises_example : schema_valid (log_of (wordy ∷ [])) ≡ none
schema_valid-raises_example =
    schema_valid-raises (log_of (wordy ∷ [])) wordy "three" (Memᴰ.head refl) refl refl refl
