-- ===== src/Sor/Mapping/Spec/Problems.antt =====
-- mapping.py: what `MappingSpec.parse` guarantees of a mapping that it accepts, and what it lets through.
use fde_agent_platform.Prelude.{
  String, List, [], ◌∷◌, ◌++◌, Bool, true, false, Option, none, some, ◌≡◌, ◌≢◌, refl, ◌⊎◌, inl, inr,
  arith, eq_iff, is_some,
}
use fde_agent_platform.Python.Text.{is_empty}
use fde_agent_platform.Python.Value.{Value, Fields, null, str, arr, nil, get, get_or, truthy}
use fde_agent_platform.Sor.Errors.{Problem, optional_text, ok}
use fde_agent_platform.Sor.Mapping.Spec.{
  MappingSpec, TextMap, parse, early_problems, late_problems, read_spec, raise_problems,
  required_str, optional_str, str_map, unit_of, attribute_list, role_problems,
}

append-nil_left : {A : Type 0} (xs ys : List A) → xs ++ ys ≡ [] → xs ≡ []
append-nil_left [] ys h = refl
append-nil_left (x ∷ xs) ys h = cc

append-nil_right : {A : Type 0} (xs ys : List A) → xs ++ ys ≡ [] → ys ≡ []
append-nil_right [] ys h = h
append-nil_right (x ∷ xs) ys h = cc

raise_problems-ok :
    (ps : List Problem) (s t : MappingSpec) → raise_problems ps s ≡ ok t → (ps ≡ []) × (s ≡ t)
unfolding raise_problems
raise_problems-ok [] s t h = ground arith
raise_problems-ok (p ∷ ps) s t h = cc

required_str-reads :
    (key : String) (v : Value)
    → (required_str key v).1 ≡ []
    → (v ≡ str (required_str key v).0) × (is_empty (required_str key v).0 ≡ false)
required_str-reads key (str s) h = ground arith
required_str-reads key null h = cc
required_str-reads key _ h = cc

unit_of-known : (v : Value) → (unit_of v).1 ≡ [] → ((unit_of v).0 ≡ "s") ⊎ ((unit_of v).0 ≡ "ms")
unit_of-known (str s) h = ground (arith, eq_iff s "s", eq_iff s "ms")
unit_of-known null h = cc
unit_of-known _ h = cc

role_problems-none :
    (roles : TextMap) (actor : Option String)
    → role_problems roles actor ≡ []
    → (roles ≡ []) ⊎ (is_some actor ≡ true)
role_problems-none [] actor h = inl refl
role_problems-none (r ∷ roles) (some a) h = inr refl
role_problems-none (r ∷ roles) none h = cc

abbrev pub is_text : Value → Bool
is_text (str s) = true
is_text _ = false

-- What a mapping that is accepted satisfies.
pub record IsValid (m : Fields) (spec : MappingSpec) : Type 0 where
  pub case_id : get m "case_id_field" ≡ str spec.case_id_field
  pub case_id_there : is_empty spec.case_id_field ≡ false
  pub activity : get m "activity_field" ≡ str spec.activity_field
  pub activity_there : is_empty spec.activity_field ≡ false
  pub timestamp : get m "timestamp_field" ≡ str spec.timestamp_field
  pub timestamp_there : is_empty spec.timestamp_field ≡ false
  pub unit : (spec.duration_unit ≡ "s") ⊎ (spec.duration_unit ≡ "ms")
  pub roles : (spec.actor_role_map ≡ []) ⊎ (is_some spec.actor_field ≡ true)

-- The parts of a sum of nine lists that is empty.
module _ {A : Type 0} where
  abbrev AllNil : List (List A) → Type 0
  AllNil [] = Unit
  AllNil (xs ∷ rest) = (xs ≡ []) × AllNil rest

  abbrev concat : List (List A) → List A
  concat [] = []
  concat (xs ∷ []) = xs
  concat (xs ∷ rest) = xs ++ concat rest

  AllNil-concat : (xss : List (List A)) → concat xss ≡ [] → AllNil xss
  AllNil-concat [] h = tt
  AllNil-concat (xs ∷ []) h = (h, tt)
  AllNil-concat (xs ∷ ys ∷ rest) h =
      (append-nil_left xs _ h, AllNil-concat (ys ∷ rest) (append-nil_right xs _ h))

abbrev early_parts : Fields → List (List Problem)
early_parts m =
    (required_str "case_id_field" (get m "case_id_field")).1
    ∷ (required_str "activity_field" (get m "activity_field")).1
    ∷ (required_str "timestamp_field" (get m "timestamp_field")).1
    ∷ (str_map "activity_map" true (get m "activity_map")).1
    ∷ (str_map "actor_role_map" false (get m "actor_role_map")).1
    ∷ (unit_of (get_or m "duration_unit" (str "s"))).1
    ∷ (attribute_list (get_or m "attributes_fields" (arr nil))).1
    ∷ (optional_str "actor_field" (get m "actor_field")).1
    ∷ role_problems (str_map "actor_role_map" false (get m "actor_role_map")).0
        (optional_str "actor_field" (get m "actor_field")).0
    ∷ []

early_parts-nil : (m : Fields) → early_problems m ≡ [] → AllNil (early_parts m)
unfolding early_problems
early_parts-nil m h = AllNil-concat (early_parts m) h

read_spec-IsValid : (m : Fields) → early_problems m ≡ [] → IsValid m (read_spec m)
unfolding read_spec
read_spec-IsValid m h =
    let parts = early_parts-nil m h in
    let case_id = required_str-reads "case_id_field" (get m "case_id_field") parts.0 in
    let activity = required_str-reads "activity_field" (get m "activity_field") parts.1.0 in
    let timestamp = required_str-reads "timestamp_field" (get m "timestamp_field") parts.1.1.0 in
    record {
      case_id = case_id.0;
      case_id_there = case_id.1;
      activity = activity.0;
      activity_there = activity.1;
      timestamp = timestamp.0;
      timestamp_there = timestamp.1;
      unit = unit_of-known (get_or m "duration_unit" (str "s")) parts.1.1.1.1.1.0;
      roles =
          role_problems-none (str_map "actor_role_map" false (get m "actor_role_map")).0
            (optional_str "actor_field" (get m "actor_field")).0 parts.1.1.1.1.1.1.1.1.0;
    }

-- A mapping that `parse` accepts gives the case, activity and timestamp paths as they are written, none
-- of them empty, a unit of seconds or milliseconds, and roles only together with an actor path.
pub parse-IsValid : (m : Fields) (spec : MappingSpec) → parse m ≡ ok spec → IsValid m spec
unfolding parse
parse-IsValid m spec h =
    let (none_early, same) = raise_problems-ok (early_problems m) (read_spec m) spec h in
    rw (← same) (read_spec-IsValid m none_early)

optional_str-late :
    (key : String) (v : Value)
    → truthy v ≡ true
    → is_text v ≡ false
    → ((optional_str key v).1 ≡ optional_text key ∷ []) × ((optional_str key v).0 ≡ none)
optional_str-late key (str s) h k = cc
optional_str-late key null h k = cc
optional_str-late key _ h k = (refl, refl)

-- `parse` reads `duration_field` after its test for problems: where the keys read before the test are in
-- order, a `duration_field` that is true as a Boolean and no text is a problem, and the mapping is accepted as one
-- without a duration.
pub duration_problem_dropped :
    (m : Fields)
    → early_problems m ≡ []
    → truthy (get m "duration_field") ≡ true
    → is_text (get m "duration_field") ≡ false
    → (late_problems m ≢ []) × (parse m ≡ ok (read_spec m)) × ((read_spec m).duration_field ≡ none)
unfolding parse late_problems read_spec
duration_problem_dropped m h there wrong =
    let (problem, dropped) =
      optional_str-late "duration_field" (get m "duration_field") there wrong in
    (rw problem (ground arith), rw h refl, dropped)
