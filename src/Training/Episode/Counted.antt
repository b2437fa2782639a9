-- ===== src/Training/Episode/Counted.antt =====
-- _episode.py: every tool call of a transcript is recorded or counted as malformed, and a tool's
-- result changes nothing but the result of one recorded call.
use mathlib.Core.Option.{some-injective, none-ne-some}
use fde_agent_platform.Prelude.{
  ℕ, suc, ◌+◌, Option, none, some, List, [], ◌∷◌, length, length-append, str_eq, ◌≡◌, refl, ◌∙◌, ap,
  arith, Bool-cases, Option-cases, inl, inr, if◌then◌else◌,
}
use fde_agent_platform.Python.Value.{Value, Fields, get, str, null}
use fde_agent_platform.Training.Episode.{
  Json, ToolCallRecord, EpisodeLog, Parser, parse_tool_call, add_call, add_calls, calls_of,
  with_answer, set_result, set_last_result, attach, add_result, add_turn, with_role, add_message,
  add_messages, unwrap_messages, from_completion, tool_call_count, empty_parser,
}

-- The calls that are recorded, and those that are malformed.
abbrev pub accounted : Parser → ℕ
accounted p = length p.log.tool_calls + p.log.malformed_tool_call_count

abbrev pub calls_listed : Option (List Value) → ℕ
calls_listed none = 0
calls_listed (some tcs) = length tcs

-- The tool calls that a message makes.
abbrev pub calls_with_role : Value → Fields → ℕ
calls_with_role (str role) msg =
    if str_eq role "assistant" then calls_listed (calls_of (get msg "tool_calls")) else 0
calls_with_role _ msg = 0

abbrev pub calls_made : List Fields → ℕ
calls_made [] = 0
calls_made (m ∷ ms) = calls_with_role (get m "role") m + calls_made ms

add_call-accounted :
    (json : Json) (tc : Value) (p : Parser) → accounted (add_call json tc p) ≡ accounted p + 1
add_call-accounted json tc p =
    ground (arith, length-append p.log.tool_calls (parse_tool_call json tc ∷ []))

add_calls-accounted :
    (json : Json) (tcs : List Value) (p : Parser)
    → accounted (add_calls json tcs p) ≡ accounted p + length tcs
unfolding add_calls
add_calls-accounted json [] p = omega arith
add_calls-accounted json (tc ∷ tcs) p =
    omega (arith, add_calls-accounted json tcs (add_call json tc p), add_call-accounted json tc p)

with_answer-accounted :
    (content : Value) (p : Parser) → accounted (with_answer content p) ≡ accounted p
with_answer-accounted content p = ground arith

length-set_result :
    (i : ℕ) (r : Fields) (cs : List ToolCallRecord) → length (set_result i r cs) ≡ length cs
length-set_result i r [] = refl
length-set_result ℕ.zero r (c ∷ cs) = refl
length-set_result (suc i) r (c ∷ cs) = ap suc (length-set_result i r cs)

length-set_last_result :
    (r : Fields) (cs : List ToolCallRecord) → length (set_last_result r cs) ≡ length cs
length-set_last_result r [] = refl
length-set_last_result r (c ∷ []) = ground arith
length-set_last_result r (c ∷ d ∷ cs) = ap suc (length-set_last_result r (d ∷ cs))

length-attach :
    (o : Option ℕ) (r : Fields) (cs : List ToolCallRecord) → length (attach o r cs) ≡ length cs
length-attach none r cs = length-set_last_result r cs
length-attach (some i) r cs = length-set_result i r cs

add_result-accounted :
    (json : Json) (msg : Fields) (p : Parser) → accounted (add_result json msg p) ≡ accounted p
unfolding add_result
add_result-accounted json msg p = omega (arith, length-attach)

add_turn-accounted :
    (json : Json) (msg : Fields) (o : Option (List Value)) (p q : Parser)
    → add_turn json msg o p ≡ some q
    → accounted q ≡ accounted p + calls_listed o
add_turn-accounted json msg none p q h = cc
add_turn-accounted json msg (some tcs) p q h = rw (← some-injective _ _ h) (
    with_answer-accounted (get msg "content") (add_calls json tcs p)
    ∙ add_calls-accounted json tcs p)

with_role-accounted :
    (json : Json) (msg : Fields) (role : Value) (p q : Parser)
    → with_role json msg role p ≡ some q
    → accounted q ≡ accounted p + calls_with_role role msg
with_role-accounted json msg (str role) p q h = elim (Bool-cases (str_eq role "assistant")) [
  | inl assistant ↦
      rw assistant
        (add_turn-accounted json msg (calls_of (get msg "tool_calls")) p q (rw assistant at h))
  | inr other ↦ elim (Bool-cases (str_eq role "tool")) [
    | inl tool ↦ ground (arith, add_result-accounted json msg p)
    | inr neither ↦ ground arith
  ]
]
with_role-accounted json msg null p q h = ground arith
with_role-accounted json msg _ p q h = ground arith

add_messages-accounted :
    (json : Json) (ms : List Fields) (p q : Parser)
    → add_messages json ms p ≡ some q
    → accounted q ≡ accounted p + calls_made ms
unfolding add_messages add_message
add_messages-accounted json [] p q h = ground arith
add_messages-accounted json (m ∷ ms) p q h =
    elim (Option-cases (with_role json m (get m "role") p)) [
      | inl raises ↦ absurd (none-ne-some q (rw raises at h))
      | inr (p', e) ↦ omega (
        arith,
        add_messages-accounted json ms p' q (rw e at h),
        with_role-accounted json m (get m "role") p p' e,
      )
    ]

-- Where a transcript parses, the calls that the log records and those that it counts as malformed are
-- together as many as the assistant's messages make: none is dropped and none counted twice.
pub from_completion-accounted :
    (json : Json) (completion : Value) (ms : List Fields) (log : EpisodeLog)
    → unwrap_messages completion ≡ some ms
    → from_completion json completion ≡ some log
    → tool_call_count log + log.malformed_tool_call_count ≡ calls_made ms
unfolding from_completion
from_completion-accounted json completion ms log unwrapped h =
    elim (Option-cases (add_messages json ms empty_parser)) [
      | inl raises ↦ absurd (none-ne-some log (rw (unwrapped, raises) at h))
      | inr (p, e) ↦
          rw (← some-injective _ _ (rw (unwrapped, e) at h))
            (omega (arith, add_messages-accounted json ms empty_parser p e))
    ]
