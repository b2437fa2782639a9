-- ===== src/Sor/Mapping/Normalize.antt =====
-- mapping.py: `NormalizedObservation`, `compute_dedup_key` and `normalize`.
pub mod Dedup
pub mod Raises
pub mod Reads
use mathlib.Core.List
use fde_agent_platform.Prelude.{String, Option, none, some, List, [], ◌∷◌, str_eq, if◌then◌else◌}
use fde_agent_platform.Prelude.Int.{ℤ}
use fde_agent_platform.Python.Text.{is_empty, strip}
use fde_agent_platform.Python.Text.Split.{joined}
use fde_agent_platform.Python.Value.{Value, Fields, null, str, obj, is_null}
use fde_agent_platform.Sor.Errors.{
  Result, ok, err, ◌>>=◌, record_error, missing_or_empty, no_hasher, unicode_error,
}
use fde_agent_platform.Sor.Stdlib.{Stdlib}
use fde_agent_platform.Sor.Mapping.Path.{resolve_path}
use fde_agent_platform.Sor.Mapping.Numbers.{parse_timestamp, parse_duration}
use fde_agent_platform.Sor.Mapping.Spec.{MappingSpec, TextMap}

pub record NormalizedObservation : Type 0 where
  pub case_ref : String
  pub activity_key : Option String
  pub raw_activity : String
  pub actor_hash : Option String
  pub actor_role_key : Option String
  pub system_object_key : Option String
  pub occurred_at : ℤ
  pub duration_seconds : Option ℤ
  pub attributes : List (String × Value)
  pub dedup_key : String

-- `mapping.get(key)` of a dict of texts.
abbrev pub lookup {ℓ} : {V : Type ℓ} → String → List (String × V) → Option V
lookup key [] = none
lookup key ((k, v) ∷ rest) = if str_eq k key then some v else lookup key rest

-- `build_hasher` returns such a function, which raises where the identifier has no UTF-8 encoding.
abbrev pub Hasher : Type 0
Hasher = String → Result String

-- `str(value)`
abbrev pub to_text : Stdlib → Value → String
to_text py (str s) = s
to_text py v = py.repr v

abbrev pub or_empty : Option String → String
or_empty none = ""
or_empty (some s) = s

unfoldable pub dedup_material : Stdlib → String → String → ℤ → Option String → String
dedup_material py case_ref raw_activity occurred_at actor_hash =
    joined "|" case_ref
      (joined "|" raw_activity (joined "|" (py.isoformat occurred_at) (or_empty actor_hash)))

unfoldable pub compute_dedup_key : Stdlib → String → String → ℤ → Option String → Result String
unfolding dedup_material
compute_dedup_key py case_ref raw_activity occurred_at actor_hash =
    let material = dedup_material py case_ref raw_activity occurred_at actor_hash in
    if py.encodes material then ok (py.sha256 material) else err unicode_error

-- The case id and the activity: neither absent nor blank.
unfoldable pub required_text_of : Stdlib → Value → String → Result String
unfolding strip
required_text_of py null name = err (record_error missing_or_empty name)
required_text_of py (str s) name =
    if is_empty (strip s) then err (record_error missing_or_empty name) else ok s
required_text_of py v name = ok (py.repr v)

-- The hash and the role of an actor, from the value at its path.
unfoldable pub actor_of : Stdlib → TextMap → Hasher → Value → Result (Option String × Option String)
actor_of py roles hasher v =
    if is_null v
    then ok (none, none)
    else hasher (to_text py v) >>= (λ h. ok (some h, lookup (to_text py v) roles))

unfoldable pub actor_columns :
    Stdlib
    → TextMap
    → Fields
    → Option String
    → Option Hasher
    → Result (Option String × Option String)
unfolding actor_of resolve_path
actor_columns py roles payload none hasher = ok (none, none)
actor_columns py roles payload (some path) none = err (record_error no_hasher path)
actor_columns py roles payload (some path) (some h) =
    actor_of py roles h (resolve_path (obj payload) path)

unfoldable pub duration_column : Stdlib → Fields → String → Option String → Result (Option ℤ)
unfolding resolve_path parse_duration
duration_column py payload unit none = ok none
duration_column py payload unit (some path) =
    parse_duration py (resolve_path (obj payload) path) unit path

-- `None if value is None else str(value)`
abbrev pub optional_text_of : Stdlib → Value → Option String
optional_text_of py v = if is_null v then none else some (to_text py v)

unfoldable pub object_column : Stdlib → Fields → Option String → Option String
unfolding resolve_path
object_column py payload none = none
object_column py payload (some path) = optional_text_of py (resolve_path (obj payload) path)

-- `attributes[path] = value`
abbrev pub insert {ℓ} : {V : Type ℓ} → String → V → List (String × V) → List (String × V)
insert key v [] = (key, v) ∷ []
insert key v ((k, w) ∷ rest) = if str_eq k key then (k, v) ∷ rest else (k, w) ∷ insert key v rest

pub collect_attributes : Fields → List String → List (String × Value) → List (String × Value)
unfolding resolve_path
collect_attributes payload [] acc = acc
collect_attributes payload (path ∷ paths) acc =
    let value = resolve_path (obj payload) path in
    collect_attributes payload paths (if is_null value then acc else insert path value acc)

unfoldable pub normalize :
    Stdlib → MappingSpec → Fields → Option Hasher → Result NormalizedObservation
unfolding resolve_path required_text_of parse_timestamp actor_columns duration_column object_column
    collect_attributes compute_dedup_key
normalize py spec payload hasher = do
  case_ref ← required_text_of py (resolve_path (obj payload) spec.case_id_field) spec.case_id_field
  raw_activity ←
      required_text_of py (resolve_path (obj payload) spec.activity_field) spec.activity_field
  occurred_at ←
      parse_timestamp py (resolve_path (obj payload) spec.timestamp_field) spec.timestamp_field
  actor ← actor_columns py spec.actor_role_map payload spec.actor_field hasher
  duration ← duration_column py payload spec.duration_unit spec.duration_field
  key ← compute_dedup_key py case_ref raw_activity occurred_at actor.0
  ok (record {
    case_ref = case_ref;
    activity_key = lookup raw_activity spec.activity_map;
    raw_activity = raw_activity;
    actor_hash = actor.0;
    actor_role_key = actor.1;
    system_object_key = object_column py payload spec.system_object_field;
    occurred_at = occurred_at;
    duration_seconds = duration;
    attributes = collect_attributes payload spec.attributes_fields [];
    dedup_key = key;
  })
