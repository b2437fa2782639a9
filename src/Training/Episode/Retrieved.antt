-- ===== src/Training/Episode/Retrieved.antt =====
-- rewards/_episode.py: `EpisodeLog.retrieved_keys`, the node keys that the tool calls of an episode returned.
use fde_agent_platform.Prelude.{
  String, Option, none, some, List, [], ◌∷◌, ◌++◌, str_eq, if◌then◌else◌,
}
use fde_agent_platform.Python.Value.{Value, Fields, obj, end, get, truthy}
use fde_agent_platform.Training.Episode.{ToolCallRecord, EpisodeLog, iterate}

-- `_RESULT_LIST_FIELDS`: the list under which a tool returns its nodes.
abbrev pub result_field : String → Option String
result_field name =
    if str_eq name "kg_search"
    then some "results"
    else if str_eq name "kg_lexical_search"
    then some "results"
    else if str_eq name "kg_traverse"
    then some "nodes"
    else if str_eq name "kg_dependency_closure"
    then some "closure"
    else if str_eq name "kg_impact_radius"
    then some "impact"
    else none

-- The `node_key` of an entry that is a dict with one.
abbrev pub node_key_of : Value → List Value
node_key_of (obj fs) = if truthy (get fs "node_key") then get fs "node_key" ∷ [] else []
node_key_of _ = []

abbrev pub node_keys : List Value → List Value
node_keys [] = []
node_keys (v ∷ vs) = node_key_of v ++ node_keys vs

-- `tc.result.get(list_field) or []`
abbrev pub listed : Value → Option (List Value)
listed v = if truthy v then iterate v else some []

abbrev pub keys_in_result : Option String → Fields → Option (List Value)
keys_in_result none result = some (node_key_of (get result "node"))
keys_in_result (some name) result = elim (listed (get result name)) [
  | none ↦ none
  | some vs ↦ some (node_keys vs)
]

-- The keys that one call retrieved; `if not tc.result` skips an empty result too.
abbrev pub keys_of_call : ToolCallRecord → Option (List Value)
keys_of_call c = elim c.result [
  | none ↦ some []
  | some end ↦ some []
  | some r ↦ keys_in_result (result_field c.tool_name) r
]

abbrev pub join_keys : Option (List Value) → Option (List Value) → Option (List Value)
join_keys none rest = none
join_keys (some ks) none = none
join_keys (some ks) (some rest) = some (ks ++ rest)

unfoldable pub keys_of_calls : List ToolCallRecord → Option (List Value)
keys_of_calls [] = some []
keys_of_calls (c ∷ cs) = join_keys (keys_of_call c) (keys_of_calls cs)

-- `EpisodeLog.retrieved_keys`, as the list of what is added to the set.
unfoldable pub retrieved_keys : EpisodeLog → Option (List Value)
unfolding keys_of_calls
retrieved_keys log = keys_of_calls log.tool_calls
