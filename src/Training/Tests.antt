-- ===== src/Training/Tests.antt =====
-- A concrete transcript, and the theorems on transcripts and rewards at concrete inputs.
pub mod Calls
use fde_agent_platform.Prelude.{
  ℕ, false, length, get_elem?, true, ◌+◌, none, some, List, [], ◌∷◌, ◌≡◌, refl, arith,
}
use fde_agent_platform.Prelude.Int.{◌+ℤ◌, ◌*ℤ◌, ℤ, pos}
use fde_agent_platform.Python.Value.{null, Value, Fields, str, arr, obj, nil, cons, end, field}
use fde_agent_platform.Training.Episode.{Json, EpisodeLog, from_completion, tool_call_count}
use fde_agent_platform.Training.Episode.Retrieved.{retrieved_keys}
use fde_agent_platform.Training.Episode.Counted.{calls_made, from_completion-accounted}
use fde_agent_platform.Training.Ratio.{◌//◌, Below}
use fde_agent_platform.Training.Compose.{weights_or_default, compose_rewards}
use fde_agent_platform.Training.Compose.Weighted.{weighted_sum, compose_rewards-weighted_sum}
use fde_agent_platform.Training.Monitor.{StepStats, RewardHackingMonitor, alert, observe}
use fde_agent_platform.Training.Rewards.Grounding.{citations, grounded}
use fde_agent_platform.Training.Rewards.Grounding.Cited.{grounded-missing}

abbrev json : Json
json = record { loads = λ s. none; dumps = λ fs. "{}"; repr = λ v. "?" }

abbrev call : Value → Value
call arguments = obj (
    field "id" (str "c1") (
      field "function" (obj (field "name" (str "kg_search") (field "arguments" arguments end)))
        end))

-- One call is recorded, and one has arguments that are no JSON.
abbrev transcript : List Fields
transcript =
    field "role" (str "assistant")
      (field "tool_calls" (arr (cons (call (obj end)) (cons (call (str "{")) nil))) end)
    ∷ field "role" (str "tool") (field "tool_call_id" (str "c1") (field "content" (str "none") end))
    ∷ field "role" (str "assistant") (field "content" (str "done") end)
    ∷ []

abbrev completion : Value
completion = arr (
    cons
      (obj (
        field "role" (str "assistant")
          (field "tool_calls" (arr (cons (call (obj end)) (cons (call (str "{")) nil))) end)))
      (cons
        (obj (
          field "role" (str "tool")
            (field "tool_call_id" (str "c1") (field "content" (str "none") end))))
        (cons (obj (field "role" (str "assistant") (field "content" (str "done") end))) nil)))

abbrev log : EpisodeLog
log = record {
  tool_calls =
      record {
        tool_name = "kg_search";
        arguments = end;
        result = some (field "_raw" (str "none") end);
        retrieval = none;
        latency_ms = none;
        raw_arguments_str = some "{}";
        parse_ok = true;
      }
      ∷ [];
  final_answer = str "done";
  malformed_tool_call_count = 1;
}

from_completion-accounted_example :
    tool_call_count log + log.malformed_tool_call_count ≡ calls_made transcript
unfolding from_completion
from_completion-accounted_example =
    from_completion-accounted json completion transcript log refl refl

abbrev length_fn : List Value → List ℤ
length_fn [] = []
length_fn (v ∷ vs) = pos (length vs) ∷ length_fn vs

compose_rewards-weighted_sum_example :
    get_elem? (pos 0 ∷ pos 0 ∷ []) 1
    ≡ some (
        weighted_sum 1
          (weights_or_default [])
          (null ∷ null ∷ [])
          (("other", length_fn) ∷ [])
          (pos 0))
unfolding compose_rewards ◌+ℤ◌ ◌*ℤ◌
compose_rewards-weighted_sum_example =
    compose_rewards-weighted_sum (("other", length_fn) ∷ []) [] (null ∷ null ∷ [])
      (pos 0 ∷ pos 0 ∷ []) (("other", pos 1 ∷ pos 0 ∷ []) ∷ []) 1 (omega arith) refl

abbrev step : ℕ → ℕ → StepStats
step n calls = record {
  step = n;
  mean_tool_calls = calls // 1;
  mean_hops = 0 // 1;
  ungrounded_claim_rate = 0 // 1;
  n_examples = 1;
}

abbrev monitor : ℕ → RewardHackingMonitor
monitor size = record {
  collapse_window = 2;
  strict = false;
  history_size = size;
  history = step 2 4 ∷ step 1 4 ∷ [];
  collapse_already_warned_at = none;
}

-- A third step that falls after one that fell gives the alert.
alarm : (observe (record (monitor 5) { history = step 2 4 ∷ step 1 5 ∷ [] }) (step 3 2)).0 ≡ alert
unfolding observe
alarm = refl

-- Nothing was retrieved, and the answer cites a key.
abbrev citing : EpisodeLog
citing = record log { final_answer = str "see [act:done]." }

found_citation : citations "[x [act:done] []" ≡ "act:done" ∷ []
unfolding citations
found_citation = refl

grounded-missing_example : Below (0 // 1) (1 // 1)
unfolding grounded citations retrieved_keys
grounded-missing_example =
    grounded-missing (λ s. s) citing "see [act:done]." "act:done" [] (0 // 1) refl refl refl refl
      refl
