-- ===== src/Training/Rewards/Validity.antt =====
-- rewards/validity.py: `r_format` and `r_schema_valid`, for one episode. `none` is a `TypeError` or an
-- `AttributeError`, which a test of the arguments raises on a value of the wrong shape.
pub mod Scores
use fde_agent_platform.Prelude.{
  ℕ, suc, ◌+◌, ◌*◌, ◌^◌, String, Bool, true, false, ◌&&◌, Option, none, some, List, [], ◌∷◌, elem,
  leb, ◌==◌, str_eq, if◌then◌else◌,
}
use fde_agent_platform.Prelude.Int.{pos, negsuc}
use fde_agent_platform.Python.Value.{
  Fields, end, field, Value, null, bool, int, float, str, arr, obj, Items, nil, cons, finite, get,
  get_or, truthy,
}
use fde_agent_platform.Python.Text.{ends_with}
use fde_agent_platform.Training.Ratio.{Ratio, ◌//◌}
use fde_agent_platform.Training.Episode.{ToolCallRecord, EpisodeLog, tool_call_count}

-- `NODE_TYPES`, `EDGE_TYPES`, `KNOWN_TOOL_NAMES` and `VALID_DIRECTIONS`
abbrev pub node_types : List String
node_types =
    "org_unit" ∷ "role" ∷ "system" ∷ "system_object" ∷ "capability" ∷ "process" ∷ "activity"
    ∷ "artifact" ∷ "decision" ∷ "control" ∷ "metric" ∷ "pain_point" ∷ "opportunity" ∷ "tool_binding"
    ∷ "evidence_doc" ∷ []

abbrev pub edge_types : List String
edge_types =
    "belongs_to" ∷ "performs" ∷ "precedes" ∷ "hands_off_to" ∷ "produces" ∷ "consumes"
    ∷ "recorded_in" ∷ "depends_on" ∷ "gated_by" ∷ "measured_by" ∷ "blocks" ∷ "addresses"
    ∷ "automatable_by" ∷ "evidenced_by" ∷ "supersedes" ∷ []

abbrev pub known_tool_names : List String
known_tool_names =
    "kg_head_commit" ∷ "kg_as_of" ∷ "kg_search" ∷ "kg_lexical_search" ∷ "kg_get_node"
    ∷ "kg_traverse" ∷ "kg_dependency_closure" ∷ "kg_impact_radius" ∷ "kg_process_flow"
    ∷ "kg_propose" ∷ "kg_submit_proposal" ∷ "kg_proposal_status" ∷ "drift_scan" ∷ "drift_list"
    ∷ "drift_triage" ∷ "wf_list" ∷ "wf_get" ∷ "wf_draft" ∷ []

abbrev pub valid_directions : List String
valid_directions = "out" ∷ "in" ∷ "both" ∷ []

-- `a and b()`, where a test may raise.
abbrev pub and_then : Option Bool → Option Bool → Option Bool
and_then none b = none
and_then (some false) b = some false
and_then (some true) b = b

-- `value in names`: a list or a dict is not hashable.
abbrev pub is_in : List String → Value → Option Bool
is_in names (str s) = some (elem s names)
is_in names (arr items) = none
is_in names (obj fields) = none
is_in names v = some false

abbrev pub all_in : List String → Items → Option Bool
all_in names nil = some true
all_in names (cons v rest) = and_then (is_in names v) (all_in names rest)

abbrev pub all_keys_in : List String → Fields → Option Bool
all_keys_in names end = some true
all_keys_in names (field k v rest) = and_then (some (elem k names)) (all_keys_in names rest)

-- `all(v in names for v in value)`, of a true value: the characters of a text are no names.
abbrev pub each_in : List String → Value → Option Bool
each_in names (arr items) = all_in names items
each_in names (obj fields) = all_keys_in names fields
each_in names (str s) = some false
each_in names v = none

-- `not (value and not all(v in names for v in value))`
unfoldable pub names_valid : List String → Value → Option Bool
names_valid names v = if truthy v then each_in names v else some true

-- `lo <= value <= hi`
unfoldable pub in_range : ℕ → ℕ → Value → Option Bool
in_range lo hi (int (pos n)) = some (leb lo n && leb n hi)
in_range lo hi (int (negsuc n)) = some false
in_range lo hi (bool true) = some (leb lo 1 && leb 1 hi)
in_range lo hi (bool false) = some (leb lo 0)
in_range lo hi (float (finite (pos m))) = some (leb (lo * 10 ^ 6) m && leb m (hi * 10 ^ 6))
in_range lo hi (float _) = some false
in_range lo hi v = none

-- `_valid_kg_traverse_args`
unfoldable pub valid_kg_traverse_args : Fields → Option Bool
unfolding names_valid in_range
valid_kg_traverse_args args = and_then (names_valid edge_types (get args "edge_types")) (
    and_then (in_range 1 6 (get_or args "max_hops" (int (pos 3)))) (
      and_then (in_range 1 5000 (get_or args "max_nodes" (int (pos 500))))
        (is_in valid_directions (get_or args "direction" (str "out")))))

-- `_valid_kg_search_args`
unfoldable pub valid_kg_search_args : Fields → Option Bool
unfolding names_valid in_range
valid_kg_search_args args = and_then (names_valid node_types (get args "node_types")) (
    and_then (in_range 1 200 (get_or args "k" (int (pos 20))))
      (in_range 0 6 (get_or args "expand_hops" (int (pos 2)))))

-- The type that an item of the kind must have.
abbrev pub kind_valid : Bool → List String → Value → Option Bool
kind_valid false names v = some true
kind_valid true names v = is_in names v

abbrev pub confidence_valid : Value → Option Bool
unfolding in_range
confidence_valid null = some true
confidence_valid v = in_range 0 1 v

-- `_valid_kg_propose_item`
unfoldable pub valid_kg_propose_item : Value → Option Bool
unfolding confidence_valid
valid_kg_propose_item (obj item) = elim (get item "op") [
  | null ↦ some false
  | str op ↦ and_then (kind_valid (ends_with op "node") node_types (get item "node_type")) (
      and_then (kind_valid (ends_with op "edge") edge_types (get item "edge_type"))
        (confidence_valid (get item "agent_confidence")))
  | _ ↦ none
]
valid_kg_propose_item v = none

abbrev pub all_items_valid : Items → Option Bool
all_items_valid nil = some true
all_items_valid (cons v rest) = and_then (valid_kg_propose_item v) (all_items_valid rest)

-- `_valid_kg_propose_args`
unfoldable pub valid_kg_propose_args : Fields → Option Bool
unfolding valid_kg_propose_item
valid_kg_propose_args args =
    if truthy (get args "items")
    then (elim (get args "items") [ arr items ↦ all_items_valid items | _ ↦ none ])
    else some true

-- `validate_tool_call_args`, with `_VALIDATORS`
unfoldable pub validate_tool_call_args : String → Fields → Option Bool
unfolding valid_kg_traverse_args valid_kg_search_args valid_kg_propose_args in_range
validate_tool_call_args name args =
    if str_eq name "kg_traverse"
    then valid_kg_traverse_args args
    else if str_eq name "kg_dependency_closure"
    then in_range 1 6 (get_or args "max_hops" (int (pos 4)))
    else if str_eq name "kg_impact_radius"
    then in_range 1 6 (get_or args "max_hops" (int (pos 4)))
    else if str_eq name "kg_search"
    then valid_kg_search_args args
    else if str_eq name "kg_lexical_search"
    then in_range 1 100 (get_or args "k" (int (pos 10)))
    else if str_eq name "kg_propose"
    then valid_kg_propose_args args
    else some true

unfoldable pub is_known : ToolCallRecord → Bool
is_known call = elem call.tool_name known_tool_names

abbrev pub well_formed : List ToolCallRecord → ℕ
well_formed [] = 0
well_formed (call ∷ calls) =
    let rest = well_formed calls in if is_known call then suc rest else rest

-- `r_format`, for one episode.
unfoldable pub format : EpisodeLog → Ratio
unfolding is_known
format log =
    let total = tool_call_count log + log.malformed_tool_call_count in
    if total == 0 then 1 // 1 else well_formed log.tool_calls // total

-- The test of one call.
unfoldable pub call_valid : ToolCallRecord → Option Bool
unfolding is_known validate_tool_call_args
call_valid call =
    if is_known call then validate_tool_call_args call.tool_name call.arguments else some false

abbrev pub counted : Option Bool → Option ℕ → Option ℕ
counted none rest = none
counted (some b) none = none
counted (some b) (some n) = some (if b then suc n else n)

unfoldable pub valid_calls : List ToolCallRecord → Option ℕ
unfolding call_valid
valid_calls [] = some 0
valid_calls (call ∷ calls) = counted (call_valid call) (valid_calls calls)

abbrev pub share : ℕ → Option ℕ → Option Ratio
share total none = none
share total (some n) = some (n // total)

-- `r_schema_valid`, for one episode.
unfoldable pub schema_valid : EpisodeLog → Option Ratio
unfolding valid_calls
schema_valid log =
    if tool_call_count log == 0
    then some (1 // 1)
    else share (tool_call_count log) (valid_calls log.tool_calls)
