-- ===== src/Sor/Mapping/Normalize/Reads.antt =====
-- mapping.py: what of a record `normalize` depends on.
use fde_agent_platform.Prelude.{
  String, List, [], ◌∷◌, ◌++◌, Option, none, some, ◌≡◌, refl, inl, inr,
}
use fde_agent_platform.Prelude.Int.{ℤ}
use fde_agent_platform.Python.Value.{Value, Fields, obj}
use fde_agent_platform.Sor.Errors.{Result, ok, ◌>>=◌}
use fde_agent_platform.Sor.Stdlib.{Stdlib}
use fde_agent_platform.Sor.Mapping.Path.{resolve_path}
use fde_agent_platform.Sor.Mapping.Numbers.{parse_timestamp}
use fde_agent_platform.Sor.Mapping.Spec.{MappingSpec, TextMap}
use fde_agent_platform.Sor.Mapping.Normalize.{
  Hasher, NormalizedObservation, required_text_of, actor_of, actor_columns, duration_column,
  object_column, collect_attributes, normalize, lookup, compute_dedup_key,
}
use fde_agent_platform.Sor.Mapping.Normalize.Raises.{
  optional, IsOneOf, IsOneOf-append_left, IsOneOf-append_right,
}

-- The paths whose values are stored as they are.
abbrev pub value_paths : MappingSpec → List String
value_paths spec =
    spec.case_id_field
    ∷ spec.activity_field
    ∷ spec.timestamp_field
    ∷ (optional spec.duration_field
        ++ (optional spec.system_object_field ++ spec.attributes_fields))

-- Both records have the same value at each of the paths.
abbrev pub Agree : Fields → Fields → List String → Type 0
Agree p q paths =
    (path : String) → IsOneOf path paths → resolve_path (obj p) path ≡ resolve_path (obj q) path

Agree-left : (p q : Fields) (xs ys : List String) → Agree p q (xs ++ ys) → Agree p q xs
Agree-left p q xs ys h path at = h path (IsOneOf-append_left path xs ys at)

Agree-right : (p q : Fields) (xs ys : List String) → Agree p q (xs ++ ys) → Agree p q ys
Agree-right p q xs ys h path at = h path (IsOneOf-append_right path xs ys at)

module _ (py : Stdlib) (p q : Fields) where
  duration_column-Agree :
      (unit : String) (path : Option String)
      → Agree p q (optional path)
      → duration_column py p unit path ≡ duration_column py q unit path
  unfolding duration_column
  duration_column-Agree unit none same = refl
  duration_column-Agree unit (some path) same = rw (same path (inl refl))

  object_column-Agree :
      (path : Option String)
      → Agree p q (optional path)
      → object_column py p path ≡ object_column py q path
  unfolding object_column
  object_column-Agree none same = refl
  object_column-Agree (some path) same = rw (same path (inl refl))

  actor_columns-Agree :
      (roles : TextMap) (path : Option String) (hasher : Option Hasher)
      → ((at : String) (h : Hasher)
          → path ≡ some at
          → hasher ≡ some h
          → actor_of py roles h (resolve_path (obj p) at)
            ≡ actor_of py roles h (resolve_path (obj q) at))
      → actor_columns py roles p path hasher ≡ actor_columns py roles q path hasher
  unfolding actor_columns
  actor_columns-Agree roles none hasher same = refl
  actor_columns-Agree roles (some path) none same = refl
  actor_columns-Agree roles (some path) (some h) same = rw (same path h refl refl)

collect_attributes-Agree :
    (p q : Fields) (paths : List String) (acc : List (String × Value))
    → Agree p q paths
    → collect_attributes p paths acc ≡ collect_attributes q paths acc
unfolding collect_attributes
collect_attributes-Agree p q [] acc same = refl
collect_attributes-Agree p q (path ∷ paths) acc same =
    rw (same path (inl refl)) (collect_attributes-Agree p q paths _ (λ x h. same x (inr h)))

-- The observation, or the error, from the values at the paths.
abbrev assemble :
    Stdlib
    → MappingSpec
    → Value
    → Value
    → Value
    → Result (Option String × Option String)
    → Result (Option ℤ)
    → Option String
    → List (String × Value)
    → Result NormalizedObservation
assemble py spec case_value activity_value time_value actor_result duration_result system_object
      attributes =
    do
      case_ref ← required_text_of py case_value spec.case_id_field
      raw_activity ← required_text_of py activity_value spec.activity_field
      occurred_at ← parse_timestamp py time_value spec.timestamp_field
      actor ← actor_result
      duration ← duration_result
      key ← compute_dedup_key py case_ref raw_activity occurred_at actor.0
      ok (record {
        case_ref = case_ref;
        activity_key = lookup raw_activity spec.activity_map;
        raw_activity = raw_activity;
        actor_hash = actor.0;
        actor_role_key = actor.1;
        system_object_key = system_object;
        occurred_at = occurred_at;
        duration_seconds = duration;
        attributes = attributes;
        dedup_key = key;
      })

assemble-eq :
    (py : Stdlib) (spec : MappingSpec) {c c' a a' t t' : Value}
    {ac ac' : Result (Option String × Option String)} {d d' : Result (Option ℤ)}
    {o o' : Option String} {xs xs' : List (String × Value)}
    → c ≡ c'
    → a ≡ a'
    → t ≡ t'
    → ac ≡ ac'
    → d ≡ d'
    → o ≡ o'
    → xs ≡ xs'
    → assemble py spec c a t ac d o xs ≡ assemble py spec c' a' t' ac' d' o' xs'
assemble-eq py spec p1 p2 p3 p4 p5 p6 p7 =
    λ i. assemble py spec (p1 i) (p2 i) (p3 i) (p4 i) (p5 i) (p6 i) (p7 i)

-- Two records that agree at the mapped paths other than the actor's, and whose actors have the same hash
-- and the same role, are normalised alike: nothing else of a record, and nothing else of the
-- actor's identifier, reaches the observation or the error.
pub normalize-reads :
    (py : Stdlib) (spec : MappingSpec) (p q : Fields) (hasher : Option Hasher)
    → Agree p q (value_paths spec)
    → ((at : String) (h : Hasher)
        → spec.actor_field ≡ some at
        → hasher ≡ some h
        → actor_of py spec.actor_role_map h (resolve_path (obj p) at)
          ≡ actor_of py spec.actor_role_map h (resolve_path (obj q) at))
    → normalize py spec p hasher ≡ normalize py spec q hasher
unfolding normalize
normalize-reads py spec p q hasher same same_actor =
    let later =
      λ (x : String)
          (h : IsOneOf x (
            optional spec.duration_field
            ++ (optional spec.system_object_field ++ spec.attributes_fields))).
        same x (inr (inr (inr h))) in
    let rest = Agree-right p q (optional spec.duration_field) _ later in
    assemble-eq py spec (same spec.case_id_field (inl refl))
      (same spec.activity_field (inr (inl refl))) (same spec.timestamp_field (inr (inr (inl refl))))
      (actor_columns-Agree py p q spec.actor_role_map spec.actor_field hasher same_actor)
      (duration_column-Agree py p q spec.duration_unit spec.duration_field
        (Agree-left p q (optional spec.duration_field) _ later))
      (object_column-Agree py p q spec.system_object_field
        (Agree-left p q (optional spec.system_object_field) spec.attributes_fields rest))
      (collect_attributes-Agree p q spec.attributes_fields []
        (Agree-right p q (optional spec.system_object_field) spec.attributes_fields rest))
