-- ===== src/Sor/Mapping/Normalize/Raises.antt =====
-- mapping.py: what `normalize` can raise.
use mathlib.Core.Path.{subst}
use fde_agent_platform.Prelude.{
  String, List, [], ◌∷◌, ◌++◌, Option, none, some, ◌≡◌, refl, sym, ◌⊎◌, inl, inr, Option-cases,
  arith, leb, if◌then◌else◌,
}
use fde_agent_platform.Prelude.Int.{ℤ, abs}
use fde_agent_platform.Python.Text.{strip, replace}
use fde_agent_platform.Python.Value.{
  Value, Float, Fields, null, bool, int, float, str, obj, finite, infinite, nan,
}
use fde_agent_platform.Sor.Errors.{
  Raised, Result, ok, err, ◌>>=◌, record_error, arithmetic_error, unicode_error,
}
use fde_agent_platform.Sor.Stdlib.{Stdlib, Datetime}
use fde_agent_platform.Sor.Mapping.Path.{resolve_path}
use fde_agent_platform.Sor.Mapping.Numbers.{
  parse_timestamp, parse_duration, to_float, round_seconds, float_of_int, from_epoch, to_utc,
  check_instant, epoch_millis_threshold, round_div,
}
use fde_agent_platform.Sor.Mapping.Spec.{MappingSpec}
use fde_agent_platform.Sor.Hashing.{actor_hash, build_hasher}
use fde_agent_platform.Sor.Mapping.Normalize.{
  Hasher, actor_of, to_text, lookup, compute_dedup_key, required_text_of, actor_columns,
  duration_column, normalize,
}

-- A result whose error, if it is one, satisfies `P`.
abbrev pub ErrorsAre : {A : Type 0} → (Raised → Type 0) → Result A → Type 0
ErrorsAre P (ok a) = Unit
ErrorsAre P (err e) = P e

ErrorsAre-bind :
    {A B : Type 0} (P : Raised → Type 0) (m : Result A) (f : A → Result B)
    → ErrorsAre P m
    → ((a : A) → ErrorsAre P (f a))
    → ErrorsAre P (m >>= f)
ErrorsAre-bind P (ok a) f h k = k a
ErrorsAre-bind P (err e) f h k = h

ErrorsAre-mono :
    {A : Type 0} (P Q : Raised → Type 0) (m : Result A)
    → ErrorsAre P m
    → ((e : Raised) → P e → Q e)
    → ErrorsAre Q m
ErrorsAre-mono P Q (ok a) h k = tt
ErrorsAre-mono P Q (err e) h k = k e h

-- A `RecordError` about that field, or an error of the number and text libraries.
abbrev pub IsAbout : String → Raised → Type 0
IsAbout name (record_error r f) = f ≡ name
IsAbout name arithmetic_error = Unit
IsAbout name unicode_error = Unit
IsAbout name _ = ⊥

abbrev pub optional : Option String → List String
optional none = []
optional (some s) = s ∷ []

-- The fields that the mapping declares for the columns that can fail.
abbrev pub declared : MappingSpec → List String
declared spec =
    spec.case_id_field
    ∷ spec.activity_field
    ∷ spec.timestamp_field
    ∷ (optional spec.actor_field ++ optional spec.duration_field)

abbrev pub IsOneOf : String → List String → Type 0
IsOneOf s [] = ⊥
IsOneOf s (x ∷ xs) = (s ≡ x) ⊎ IsOneOf s xs

abbrev pub IsDeclared : MappingSpec → Raised → Type 0
IsDeclared spec (record_error r f) = IsOneOf f (declared spec)
IsDeclared spec arithmetic_error = Unit
IsDeclared spec unicode_error = Unit
IsDeclared spec _ = ⊥

check_instant-IsAbout : (name : String) (t : ℤ) → ErrorsAre (IsAbout name) (check_instant t)
check_instant-IsAbout name t = ground arith

from_epoch-IsAbout : (name : String) (x : Float) → ErrorsAre (IsAbout name) (from_epoch x)
unfolding from_epoch
from_epoch-IsAbout name (finite m) =
    check_instant-IsAbout name (if leb epoch_millis_threshold (abs m) then round_div m 1000 else m)
from_epoch-IsAbout name infinite = tt
from_epoch-IsAbout name nan = tt

float_of_int-IsAbout : (name : String) (n : ℤ) → ErrorsAre (IsAbout name) (float_of_int n)
unfolding float_of_int
float_of_int-IsAbout name n = ground arith

to_utc-IsAbout : (name : String) (d : Datetime) → ErrorsAre (IsAbout name) (to_utc d)
unfolding to_utc
to_utc-IsAbout name d = ground arith

required_text_of-IsAbout :
    (py : Stdlib) (v : Value) (name : String)
    → ErrorsAre (IsAbout name) (required_text_of py v name)
unfolding required_text_of
required_text_of-IsAbout py (str s) name = ground arith
required_text_of-IsAbout py null name = refl
required_text_of-IsAbout py _ name = tt

parse_timestamp-IsAbout :
    (py : Stdlib) (v : Value) (name : String) → ErrorsAre (IsAbout name) (parse_timestamp py v name)
unfolding parse_timestamp
parse_timestamp-IsAbout py (int n) name =
    ErrorsAre-bind (IsAbout name) (float_of_int n) from_epoch (float_of_int-IsAbout name n)
      (from_epoch-IsAbout name)
parse_timestamp-IsAbout py (float x) name = from_epoch-IsAbout name x
parse_timestamp-IsAbout py (str s) name =
    elim (Option-cases (py.parse_iso (replace b'Z' "+00:00" (strip s)))) [
      | inl none_read ↦ rw none_read refl
      | inr (d, e) ↦ rw e (to_utc-IsAbout name d)
    ]
parse_timestamp-IsAbout py _ name = refl

to_float-IsAbout :
    (py : Stdlib) (v : Value) (name : String) → ErrorsAre (IsAbout name) (to_float py v name)
unfolding to_float
to_float-IsAbout py (bool b) name = tt
to_float-IsAbout py (int n) name = float_of_int-IsAbout name n
to_float-IsAbout py (str s) name = ground arith
to_float-IsAbout py (float x) name = tt
to_float-IsAbout py _ name = refl

round_seconds-IsAbout :
    (unit name : String) (x : Float) → ErrorsAre (IsAbout name) (round_seconds unit x)
unfolding round_seconds
round_seconds-IsAbout unit name (finite m) = tt
round_seconds-IsAbout unit name _ = tt

parse_duration-IsAbout :
    (py : Stdlib) (v : Value) (unit name : String)
    → ErrorsAre (IsAbout name) (parse_duration py v unit name)
unfolding parse_duration
parse_duration-IsAbout py null unit name = tt
parse_duration-IsAbout py v unit name =
    ErrorsAre-bind (IsAbout name) (to_float py v name) (round_seconds unit)
      (to_float-IsAbout py v name) (round_seconds-IsAbout unit name)

pub IsOneOf-append_left : (s : String) (xs ys : List String) → IsOneOf s xs → IsOneOf s (xs ++ ys)
IsOneOf-append_left s [] ys h = absurd h
IsOneOf-append_left s (x ∷ xs) ys (inl e) = inl e
IsOneOf-append_left s (x ∷ xs) ys (inr h) = inr (IsOneOf-append_left s xs ys h)

pub IsOneOf-append_right : (s : String) (xs ys : List String) → IsOneOf s ys → IsOneOf s (xs ++ ys)
IsOneOf-append_right s [] ys h = h
IsOneOf-append_right s (x ∷ xs) ys h = inr (IsOneOf-append_right s xs ys h)

IsOneOf-optional : (s t : String) (o : Option String) → o ≡ some t → s ≡ t → IsOneOf s (optional o)
IsOneOf-optional s t none e h = cc
IsOneOf-optional s t (some u) e h = inl (ground arith)

IsAbout-declared :
    (spec : MappingSpec) (name : String)
    → IsOneOf name (declared spec)
    → (e : Raised) → IsAbout name e
    → IsDeclared spec e
IsAbout-declared spec name h (record_error r f) e = subst (λ g. IsOneOf g (declared spec)) (sym e) h
IsAbout-declared spec name h arithmetic_error e = tt
IsAbout-declared spec name h unicode_error e = tt
IsAbout-declared spec name h _ e = absurd e

-- Where the errors of a step are about a field that `P` allows, `P` allows them.
module _ {A : Type 0} (spec : MappingSpec) (name : String) (m : Result A) where
  about : ErrorsAre (IsAbout name) m → IsOneOf name (declared spec) → ErrorsAre (IsDeclared spec) m
  about h d = ErrorsAre-mono (IsAbout name) (IsDeclared spec) m h (IsAbout-declared spec name d)

-- The hashers of `build_hasher`, where there is a salt.
abbrev pub hasher_from : Stdlib → Option String → Option Hasher
hasher_from py none = none
hasher_from py (some salt) = some (build_hasher py salt)

build_hasher-IsDeclared :
    (py : Stdlib) (spec : MappingSpec) (salt raw : String)
    → ErrorsAre (IsDeclared spec) (build_hasher py salt raw)
unfolding build_hasher actor_hash
build_hasher-IsDeclared py spec salt raw = ground arith

compute_dedup_key-IsDeclared :
    (py : Stdlib) (spec : MappingSpec) (c a : String) (t : ℤ) (h : Option String)
    → ErrorsAre (IsDeclared spec) (compute_dedup_key py c a t h)
unfolding compute_dedup_key
compute_dedup_key-IsDeclared py spec c a t h = ground arith

actor_of-IsDeclared :
    (py : Stdlib) (spec : MappingSpec) (salt : String) (v : Value)
    → ErrorsAre (IsDeclared spec) (actor_of py spec.actor_role_map (build_hasher py salt) v)
unfolding actor_of
actor_of-IsDeclared py spec salt null = tt
actor_of-IsDeclared py spec salt v =
    ErrorsAre-bind (IsDeclared spec) (build_hasher py salt (to_text py v))
      (λ h. ok (some h, lookup (to_text py v) spec.actor_role_map))
      (build_hasher-IsDeclared py spec salt (to_text py v)) (λ h. tt)

actor_columns-IsOneOf :
    (py : Stdlib) (spec : MappingSpec) (payload : Fields) (actor : Option String)
    (salt : Option String)
    → ((name : String) → actor ≡ some name → IsOneOf name (declared spec))
    → ErrorsAre
        (IsDeclared spec)
        (actor_columns py spec.actor_role_map payload actor (hasher_from py salt))
unfolding actor_columns
actor_columns-IsOneOf py spec payload none salt h = tt
actor_columns-IsOneOf py spec payload (some path) none h = h path refl
actor_columns-IsOneOf py spec payload (some path) (some salt) h =
    actor_of-IsDeclared py spec salt (resolve_path (obj payload) path)

duration_column-IsOneOf :
    (py : Stdlib) (spec : MappingSpec) (payload : Fields) (unit : String) (path : Option String)
    → ((name : String) → path ≡ some name → IsOneOf name (declared spec))
    → ErrorsAre (IsDeclared spec) (duration_column py payload unit path)
unfolding duration_column
duration_column-IsOneOf py spec payload unit none h = tt
duration_column-IsOneOf py spec payload unit (some path) h =
    about spec path (parse_duration py (resolve_path (obj payload) path) unit path)
      (parse_duration-IsAbout py (resolve_path (obj payload) path) unit path) (h path refl)

actor_declared :
    (spec : MappingSpec) (name : String)
    → spec.actor_field ≡ some name
    → IsOneOf name (declared spec)
actor_declared spec name e = inr (
    inr (
      inr (
        IsOneOf-append_left name (optional spec.actor_field) (optional spec.duration_field)
          (IsOneOf-optional name name spec.actor_field e refl))))

duration_declared :
    (spec : MappingSpec) (name : String)
    → spec.duration_field ≡ some name
    → IsOneOf name (declared spec)
duration_declared spec name e = inr (
    inr (
      inr (
        IsOneOf-append_right name (optional spec.actor_field) (optional spec.duration_field)
          (IsOneOf-optional name name spec.duration_field e refl))))

-- `normalize` raises nothing but a `RecordError` that names one of the fields that the mapping
-- declares, never a value of the record, or an `OverflowError`, `OSError`, `ValueError` or
-- `UnicodeEncodeError` of the number, date and text libraries; with the hasher of a salt, or with none.
pub normalize-raises :
    (py : Stdlib) (spec : MappingSpec) (payload : Fields) (salt : Option String)
    → ErrorsAre (IsDeclared spec) (normalize py spec payload (hasher_from py salt))
unfolding normalize
normalize-raises py spec payload salt =
    let at = λ (path : String). resolve_path (obj payload) path in
    let P = IsDeclared spec in
    ErrorsAre-bind P (required_text_of py (at spec.case_id_field) spec.case_id_field) _
      (about spec _ _ (required_text_of-IsAbout py (at spec.case_id_field) spec.case_id_field)
        (inl refl))
      λ c.
        ErrorsAre-bind P (required_text_of py (at spec.activity_field) spec.activity_field) _
          (about spec _ _ (required_text_of-IsAbout py (at spec.activity_field) spec.activity_field)
            (inr (inl refl)))
          λ a.
            ErrorsAre-bind P (parse_timestamp py (at spec.timestamp_field) spec.timestamp_field) _
              (about spec _ _
                (parse_timestamp-IsAbout py (at spec.timestamp_field) spec.timestamp_field)
                (inr (inr (inl refl))))
              λ t.
                ErrorsAre-bind P
                  (actor_columns py spec.actor_role_map payload spec.actor_field
                    (hasher_from py salt))
                  _
                  (actor_columns-IsOneOf py spec payload spec.actor_field salt
                    (actor_declared spec))
                  λ actor.
                    ErrorsAre-bind P
                      (duration_column py payload spec.duration_unit spec.duration_field) _
                      (duration_column-IsOneOf py spec payload spec.duration_unit
                        spec.duration_field (duration_declared spec))
                      λ d.
                        ErrorsAre-bind P (compute_dedup_key py c a t actor.0) _
                          (compute_dedup_key-IsDeclared py spec c a t actor.0) λ key. tt
