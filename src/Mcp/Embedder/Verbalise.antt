-- ===== src/Mcp/Embedder/Verbalise.antt =====
-- embedder_worker.py: the text that a node or an edge is embedded as.
use fde_agent_platform.Prelude.{String, Option, none, some, List, [], ◌∷◌, str_eq, if◌then◌else◌}
use Prim.Native.String.{◌++◌ as ◌<>◌}
use fde_agent_platform.Python.Value.{Fields, Value, obj, get, truthy}
use fde_agent_platform.Python.Text.{is_empty, strip}

-- `EDGE_VERBALISER`
abbrev pub edge_verbaliser : List (String × String)
edge_verbaliser =
    ("belongs_to", "belongs to")
    ∷ ("performs", "performs")
    ∷ ("precedes", "happens before")
    ∷ ("hands_off_to", "hands off to")
    ∷ ("produces", "produces")
    ∷ ("consumes", "consumes")
    ∷ ("recorded_in", "is recorded in")
    ∷ ("depends_on", "depends on")
    ∷ ("gated_by", "is gated by")
    ∷ ("measured_by", "is measured by")
    ∷ ("blocks", "blocks")
    ∷ ("addresses", "addresses")
    ∷ ("automatable_by", "may be automated by")
    ∷ ("evidenced_by", "is evidenced by")
    ∷ ("supersedes", "supersedes")
    ∷ []

abbrev pub find_phrase : List (String × String) → String → Option String
find_phrase [] key = none
find_phrase ((k, phrase) ∷ rest) key = if str_eq k key then some phrase else find_phrase rest key

-- `_phrase_for`; `none` is its `ValueError`.
unfoldable pub phrase_for : String → Option String
phrase_for edge_type = find_phrase edge_verbaliser edge_type

abbrev pub stripped : Option String → String
stripped none = ""
stripped (some s) = strip s

-- `_verbalise_node`
unfoldable pub verbalise_node : String → Option String → String
verbalise_node label summary =
    let l = strip label in let s = stripped summary in if is_empty s then l else l <> ". " <> s

-- `a or b`
abbrev pub or_value : Value → Value → Value
or_value a b = if truthy a then a else b

module _ (py_str : Value → String) where
  abbrev pub attribute_text : Fields → String
  attribute_text fields =
      let condition = or_value (get fields "condition") (get fields "branch_condition") in
      let sla = get fields "sla_seconds" in
      (if truthy condition then ", when " <> py_str condition else "")
      <> (if truthy sla then " (SLA " <> py_str sla <> "s)" else "")

  abbrev pub attributes_text : Value → String
  attributes_text (obj fields) = attribute_text fields
  attributes_text v = ""

  abbrev pub edge_text : Option String → String → String → Value → Option String
  edge_text none src dst attributes = none
  edge_text (some phrase) src dst attributes =
      some (src <> " " <> phrase <> " " <> dst <> attributes_text attributes)

  -- `_verbalise_edge`
  unfoldable pub verbalise_edge : String → String → String → Value → Option String
  unfolding phrase_for
  verbalise_edge src edge_type dst attributes = edge_text (phrase_for edge_type) src dst attributes
