-- ===== src/Training/Episode.antt =====
-- packages/fde-training/src/fde_training/rewards/_episode.py: the one parser of transcripts. `none` is
-- an exception that leaves the parser (a `TypeError` or an `AttributeError`). The ids of calls are
-- texts, as they are in OpenAI-shape messages, and node keys are hashable.
pub mod Retrieved
pub mod Counted
use fde_agent_platform.Prelude.{
  ℕ, suc, ◌+◌, String, Bool, true, false, Option, none, some, List, [], ◌∷◌, ◌++◌, length, str_eq,
  if◌then◌else◌,
}
use fde_agent_platform.Python.Text.{is_empty}
use fde_agent_platform.Python.Value.{
  Value, Items, Fields, Float, null, str, arr, obj, nil, cons, end, field, get, has, truthy,
}

-- `json.loads` (`none` for a `JSONDecodeError`), `json.dumps`, and `str` of a value that is no text.
pub record Json : Type 0 where
  pub loads : String → Option Value
  pub dumps : Fields → String
  pub repr : Value → String

pub record ToolCallRecord : Type 0 where
  pub tool_name : String
  pub arguments : Fields
  pub result : Option Fields
  pub retrieval : Option Fields
  pub latency_ms : Option Float
  pub raw_arguments_str : Option String
  pub parse_ok : Bool

-- `final_answer` is null for `None`.
pub record EpisodeLog : Type 0 where
  pub tool_calls : List ToolCallRecord
  pub final_answer : Value
  pub malformed_tool_call_count : ℕ

abbrev pub tool_call_count : EpisodeLog → ℕ
tool_call_count log = length log.tool_calls

-- The elements of a JSON list.
abbrev pub elements : Items → List Value
elements nil = []
elements (cons v rest) = v ∷ elements rest

abbrev pub keys : Fields → List Value
keys end = []
keys (field k v rest) = str k ∷ keys rest

abbrev pub characters : String → List Value
characters String.[] = []
characters (String.◌∷◌ c s) = str (String.◌∷◌ c String.[]) ∷ characters s

-- `for x in value`
abbrev pub iterate : Value → Option (List Value)
iterate (arr xs) = some (elements xs)
iterate (obj fs) = some (keys fs)
iterate (str s) = some (characters s)
iterate _ = none

-- All elements are dicts, as `msg.get` needs.
abbrev pub all_objects : List Value → Option (List Fields)
all_objects [] = some []
all_objects (obj fs ∷ rest) = elim (all_objects rest) [ none ↦ none | some os ↦ some (fs ∷ os) ]
all_objects (_ ∷ rest) = none

abbrev pub message_list : Value → Option (List Fields)
message_list v = elim (iterate v) [ none ↦ none | some vs ↦ all_objects vs ]

-- `_unwrap_messages`
unfoldable pub unwrap_messages : Value → Option (List Fields)
unwrap_messages (obj fs) = if has fs "messages" then message_list (get fs "messages") else none
unwrap_messages (arr xs) = all_objects (elements xs)
unwrap_messages (str s) = some (field "role" (str "assistant") (field "content" (str s) end) ∷ [])
unwrap_messages _ = none

abbrev pub unparsed : String → Option String → ToolCallRecord
unparsed name raw = record {
  tool_name = name;
  arguments = end;
  result = none;
  retrieval = none;
  latency_ms = none;
  raw_arguments_str = raw;
  parse_ok = false;
}

abbrev pub parsed : Json → String → Fields → ToolCallRecord
parsed json name args = record {
  tool_name = name;
  arguments = args;
  result = none;
  retrieval = none;
  latency_ms = none;
  raw_arguments_str = some (json.dumps args);
  parse_ok = true;
}

abbrev pub text_or_repr : Json → Value → String
text_or_repr json (str s) = s
text_or_repr json v = json.repr v

-- The text of the arguments that a record without a name keeps, where they are a text.
abbrev pub raw_text : Value → Option String
raw_text (str s) = some s
raw_text _ = none

abbrev pub from_json : Json → String → String → Option Value → ToolCallRecord
from_json json name raw (some (obj args)) = parsed json name args
from_json json name raw _ = unparsed name (some raw)

abbrev pub with_arguments : Json → String → Value → ToolCallRecord
with_arguments json name (str raw) = from_json json name raw (json.loads raw)
with_arguments json name (obj args) = parsed json name args
with_arguments json name raw = unparsed name (some (json.repr raw))

abbrev pub with_name : Json → Value → Value → ToolCallRecord
with_name json (str name) raw =
    if is_empty name then unparsed "" (raw_text raw) else with_arguments json name raw
with_name json name raw = unparsed (json.repr name) (raw_text raw)

abbrev pub parse_function : Json → Value → ToolCallRecord
parse_function json (obj fn) = with_name json (get fn "name") (get fn "arguments")
parse_function json _ = unparsed "" none

-- `_parse_tool_call`
unfoldable pub parse_tool_call : Json → Value → ToolCallRecord
parse_tool_call json (obj tc) = parse_function json (get tc "function")
parse_tool_call json _ = unparsed "" none

-- `(value or "")` of an id.
abbrev pub id_text : Value → String
id_text (str s) = s
id_text _ = ""

abbrev pub call_id : Value → String
call_id (obj tc) = id_text (get tc "id")
call_id _ = ""

-- The variables of `from_completion`. `pending_calls` maps an id to the place of its record in
-- `tool_calls`, since the two share the record.
pub record Parser : Type 0 where
  pub log : EpisodeLog
  pub pending_calls : List (String × ℕ)

-- The later of two calls with one id replaces the earlier.
abbrev pub pending : String → List (String × ℕ) → Option ℕ
pending id [] = none
pending id ((k, i) ∷ rest) = if str_eq k id then some i else pending id rest

abbrev pub add_call : Json → Value → Parser → Parser
add_call json tc p =
    let rec = parse_tool_call json tc in
    if rec.parse_ok
    then record {
      log = record p.log { tool_calls = p.log.tool_calls ++ rec ∷ [] };
      pending_calls = (call_id tc, length p.log.tool_calls) ∷ p.pending_calls;
    }
    else record p {
      log = record p.log { malformed_tool_call_count = p.log.malformed_tool_call_count + 1 };
    }

unfoldable pub add_calls : Json → List Value → Parser → Parser
unfolding parse_tool_call
add_calls json [] p = p
add_calls json (tc ∷ tcs) p = add_calls json tcs (add_call json tc p)

-- `if msg.get("tool_calls"): for tc in msg["tool_calls"]`
abbrev pub calls_of : Value → Option (List Value)
calls_of v = if truthy v then iterate v else some []

abbrev pub with_answer : Value → Parser → Parser
with_answer content p =
    if truthy content then record p { log = record p.log { final_answer = content } } else p

abbrev pub result_of : Value → Option Value → Fields
result_of content (some (obj fs)) = fs
result_of content _ = field "_raw" content end

-- The result that a tool message carries.
abbrev pub tool_result : Json → Value → Fields
tool_result json (str text) = result_of (str text) (json.loads text)
tool_result json content = result_of content (some content)

-- Writes the result of the record at a place.
abbrev pub set_result : ℕ → Fields → List ToolCallRecord → List ToolCallRecord
set_result i result [] = []
set_result ℕ.zero result (c ∷ cs) = record c { result = some result } ∷ cs
set_result (ℕ.suc i) result (c ∷ cs) = c ∷ set_result i result cs

-- The fallback: the last call, where it has no result yet.
abbrev pub set_last_result : Fields → List ToolCallRecord → List ToolCallRecord
set_last_result result [] = []
set_last_result result (c ∷ []) = elim c.result [
  | none ↦ record c { result = some result } ∷ []
  | some r ↦ c ∷ []
]
set_last_result result (c ∷ d ∷ cs) = c ∷ set_last_result result (d ∷ cs)

abbrev pub attach : Option ℕ → Fields → List ToolCallRecord → List ToolCallRecord
attach (some i) result calls = set_result i result calls
attach none result calls = set_last_result result calls

unfoldable pub add_result : Json → Fields → Parser → Parser
add_result json msg p = record p {
  log = record p.log {
    tool_calls =
        attach (pending (id_text (get msg "tool_call_id")) p.pending_calls)
          (tool_result json (get msg "content")) p.log.tool_calls;
  };
}

abbrev pub add_turn : Json → Fields → Option (List Value) → Parser → Option Parser
add_turn json msg none p = none
add_turn json msg (some tcs) p = some (with_answer (get msg "content") (add_calls json tcs p))

abbrev pub with_role : Json → Fields → Value → Parser → Option Parser
with_role json msg (str role) p =
    if str_eq role "assistant"
    then add_turn json msg (calls_of (get msg "tool_calls")) p
    else if str_eq role "tool"
    then some (add_result json msg p)
    else some p
with_role json msg _ p = some p

unfoldable pub add_message : Json → Fields → Parser → Option Parser
unfolding add_calls add_result
add_message json msg p = with_role json msg (get msg "role") p

abbrev pub and_parse : Option Parser → (Parser → Option Parser) → Option Parser
and_parse none next = none
and_parse (some p) next = next p

unfoldable pub add_messages : Json → List Fields → Parser → Option Parser
unfolding add_message
add_messages json [] p = some p
add_messages json (m ∷ ms) p = and_parse (add_message json m p) (add_messages json ms)

abbrev pub empty_log : EpisodeLog
empty_log = record { tool_calls = []; final_answer = null; malformed_tool_call_count = 0 }

abbrev pub empty_parser : Parser
empty_parser = record { log = empty_log; pending_calls = [] }

abbrev pub parsed_log : Option Parser → Option EpisodeLog
parsed_log none = none
parsed_log (some p) = some p.log

abbrev pub log_of : Json → Option (List Fields) → Option EpisodeLog
log_of json none = none
log_of json (some ms) = parsed_log (add_messages json ms empty_parser)

-- `EpisodeLog.from_completion`
unfoldable pub from_completion : Json → Value → Option EpisodeLog
unfolding unwrap_messages add_messages
from_completion json completion = log_of json (unwrap_messages completion)
