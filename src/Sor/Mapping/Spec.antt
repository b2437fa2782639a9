-- ===== src/Sor/Mapping/Spec.antt =====
-- mapping.py: `MappingSpec` and `MappingSpec.parse`.
pub mod Problems
use fde_agent_platform.Prelude.{
  String, Bool, true, false, not, ◌&&◌, ◌||◌, Option, none, some, List, [], ◌∷◌, ◌++◌, str_eq,
  is_some, if◌then◌else◌,
}
use fde_agent_platform.Python.Text.{is_empty}
use fde_agent_platform.Python.Value.{
  Value, Fields, null, str, arr, obj, nil, end, field, get, get_or, truthy, texts,
}
use fde_agent_platform.Sor.Errors.{
  Problem, required_text, optional_text, required_map, text_map, sub_object, unknown_unit,
  attribute_paths, role_map_without_actor, Result, ok, err, mapping_error,
}

-- A dict from texts to texts.
abbrev pub TextMap : Type 0
TextMap = List (String × String)

pub record MappingSpec : Type 0 where
  pub case_id_field : String
  pub activity_field : String
  pub activity_map : TextMap
  pub timestamp_field : String
  pub actor_field : Option String
  pub actor_role_map : TextMap
  pub duration_field : Option String
  pub duration_unit : String
  pub system_object_field : Option String
  pub attributes_fields : List String
  pub request : Fields
  pub stream : Fields
  pub cdc : Fields

-- A value read, and the problems appended by reading it.
abbrev pub Checked : Type 0 → Type 0
Checked A = A × List Problem

abbrev pub required_str : String → Value → Checked String
required_str key (str s) = if is_empty s then ("", required_text key ∷ []) else (s, [])
required_str key _ = ("", required_text key ∷ [])

abbrev pub optional_str : String → Value → Checked (Option String)
optional_str key null = (none, [])
optional_str key (str s) = if is_empty s then (none, optional_text key ∷ []) else (some s, [])
optional_str key _ = (none, optional_text key ∷ [])

-- The entries, where all values are texts. (The keys of a JSON object always are.)
abbrev pub text_entries : Fields → Option TextMap
text_entries end = some []
text_entries (field k (str v) rest) = elim (text_entries rest) [
  | none ↦ none
  | some m ↦ some ((k, v) ∷ m)
]
text_entries (field k _ rest) = none

abbrev pub str_map : String → Bool → Value → Checked TextMap
str_map key required null = ([], if required then required_map key ∷ [] else [])
str_map key required (obj fs) = elim (text_entries fs) [
  | none ↦ ([], text_map key ∷ [])
  | some m ↦ (m, [])
]
str_map key required _ = ([], text_map key ∷ [])

abbrev pub sub_fields : String → Value → Checked Fields
sub_fields key null = (end, [])
sub_fields key (obj fs) = (fs, [])
sub_fields key _ = (end, sub_object key ∷ [])

-- `duration_unit not in DURATION_UNITS`, and the unit kept.
abbrev pub unit_of : Value → Checked String
unit_of (str s) = if str_eq s "s" || str_eq s "ms" then (s, []) else ("s", unknown_unit ∷ [])
unit_of _ = ("s", unknown_unit ∷ [])

abbrev pub path_list : Value → Checked (List String)
path_list (arr xs) = elim (texts xs) [ none ↦ ([], attribute_paths ∷ []) | some ps ↦ (ps, []) ]
path_list _ = ([], attribute_paths ∷ [])

abbrev pub attribute_list : Value → Checked (List String)
attribute_list v = if truthy v then path_list v else ([], [])

abbrev pub is_nil {ℓ} : {A : Type ℓ} → List A → Bool
is_nil [] = true
is_nil (x ∷ xs) = false

abbrev pub role_problems : TextMap → Option String → List Problem
role_problems roles actor =
    if not (is_nil roles) && not (is_some actor) then role_map_without_actor ∷ [] else []

-- The problems that have been appended when `parse` tests `if problems`.
unfoldable pub early_problems : Fields → List Problem
early_problems m =
    (required_str "case_id_field" (get m "case_id_field")).1
    ++ ((required_str "activity_field" (get m "activity_field")).1
        ++ ((required_str "timestamp_field" (get m "timestamp_field")).1
            ++ ((str_map "activity_map" true (get m "activity_map")).1
                ++ ((str_map "actor_role_map" false (get m "actor_role_map")).1
                    ++ ((unit_of (get_or m "duration_unit" (str "s"))).1
                        ++ ((attribute_list (get_or m "attributes_fields" (arr nil))).1
                            ++ ((optional_str "actor_field" (get m "actor_field")).1
                                ++ role_problems
                                    (str_map "actor_role_map" false (get m "actor_role_map")).0
                                    (optional_str "actor_field" (get m "actor_field")).0)))))))

-- The problems that reading the last five keys appends, after the test.
unfoldable pub late_problems : Fields → List Problem
late_problems m =
    (optional_str "duration_field" (get m "duration_field")).1
    ++ ((optional_str "system_object_field" (get m "system_object_field")).1
        ++ ((sub_fields "request" (get m "request")).1
            ++ ((sub_fields "stream" (get m "stream")).1 ++ (sub_fields "cdc" (get m "cdc")).1)))

unfoldable pub read_spec : Fields → MappingSpec
read_spec m = record {
  case_id_field = (required_str "case_id_field" (get m "case_id_field")).0;
  activity_field = (required_str "activity_field" (get m "activity_field")).0;
  activity_map = (str_map "activity_map" true (get m "activity_map")).0;
  timestamp_field = (required_str "timestamp_field" (get m "timestamp_field")).0;
  actor_field = (optional_str "actor_field" (get m "actor_field")).0;
  actor_role_map = (str_map "actor_role_map" false (get m "actor_role_map")).0;
  duration_field = (optional_str "duration_field" (get m "duration_field")).0;
  duration_unit = (unit_of (get_or m "duration_unit" (str "s"))).0;
  system_object_field = (optional_str "system_object_field" (get m "system_object_field")).0;
  attributes_fields = (attribute_list (get_or m "attributes_fields" (arr nil))).0;
  request = (sub_fields "request" (get m "request")).0;
  stream = (sub_fields "stream" (get m "stream")).0;
  cdc = (sub_fields "cdc" (get m "cdc")).0;
}

-- `if problems: raise MappingError(...)`
unfoldable pub raise_problems : List Problem → MappingSpec → Result MappingSpec
raise_problems [] spec = ok spec
raise_problems (p ∷ ps) spec = err (mapping_error (p ∷ ps))

unfoldable pub parse : Fields → Result MappingSpec
unfolding early_problems read_spec raise_problems
parse m = raise_problems (early_problems m) (read_spec m)
