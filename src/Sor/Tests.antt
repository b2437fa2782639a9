-- ===== src/Sor/Tests.antt =====
-- Concrete uses of the mapping of fde-sor, and its theorems at concrete inputs.
pub mod Runs
pub mod Batches
pub mod Scans
pub mod Operators
use mathlib.Core.Option.{some-injective}
use fde_agent_platform.Prelude.{
  true, code, ℕ, zero, suc, String, none, some, [], ◌∷◌, ◌≡◌, ◌≢◌, refl, ap, arith, str_eq,
  if◌then◌else◌, inl, inr,
}
use fde_agent_platform.Prelude.Int.{ℤ, pos, negsuc}
use fde_agent_platform.Python.Text.{split}
use fde_agent_platform.Python.Value.{
  Fields, int, float, str, arr, obj, nil, cons, end, field, finite,
}
use fde_agent_platform.Sor.Errors.{ok, err, arithmetic_error}
use fde_agent_platform.Sor.Stdlib.{Stdlib}
use fde_agent_platform.Sor.Mapping.Path.{resolve_path}
use fde_agent_platform.Sor.Mapping.Numbers.{parse_timestamp, parse_duration}
use fde_agent_platform.Sor.Mapping.Numbers.Range.{timestamp_overflow}
use fde_agent_platform.Sor.Mapping.Spec.{parse, early_problems, late_problems, read_spec}
use fde_agent_platform.Sor.Mapping.Spec.Problems.{IsValid, parse-IsValid, duration_problem_dropped}
use fde_agent_platform.Sor.Mapping.Normalize.{
  Hasher, normalize, compute_dedup_key, or_empty, actor_of,
}
use fde_agent_platform.Sor.Mapping.Normalize.Dedup.{
  HasNoBar, compute_dedup_key-injective, dedup_bar_collision,
}
use fde_agent_platform.Sor.Mapping.Normalize.Raises.{ErrorsAre, IsDeclared, normalize-raises}
use fde_agent_platform.Sor.Mapping.Normalize.Reads.{Agree, value_paths, normalize-reads}

unfoldable pub tally : ℕ → String
tally zero = ""
tally (suc n) = String.◌∷◌ "x" (tally n)

abbrev pub toy_isoformat : ℤ → String
toy_isoformat (pos n) = String.◌∷◌ "p" (tally n)
toy_isoformat (negsuc n) = String.◌∷◌ "n" (tally n)

abbrev pub mapping : Fields
mapping = field "case_id_field" (str "issue.key") (
    field "activity_field" (str "status") (
      field "timestamp_field" (str "at")
        (field "activity_map" (obj (field "Done" (str "act:done") end)) end)))

abbrev pub record_of : String → ℕ → Fields
record_of key at =
    field "issue" (obj (field "key" (str key) end))
      (field "status" (str "Done") (field "at" (float (finite (pos at))) end))

-- A library whose digests are the texts themselves.
abbrev pub toy : Stdlib
toy = record {
  repr = λ v. "?";
  parse_iso =
      λ s. if str_eq s "then" then some (record { local = pos 7; offset = some (pos 2) }) else none;
  parse_float = λ s. none;
  parse_json = λ s.
      if str_eq s "good"
      then some (obj (record_of "A" 1))
      else if str_eq s "poor"
      then some (obj end)
      else none;
  isoformat = toy_isoformat;
  encodes = λ s. true;
  sha256 = λ s. s;
  hmac_sha256 = λ salt s. "h";
}

last_of_list : resolve_path (arr (cons (int (pos 1)) (cons (int (pos 2)) nil))) " -1 " ≡ int (pos 2)
unfolding resolve_path
last_of_list = refl

timestamp_overflow_example :
    parse_timestamp toy (int (pos 253402300800000)) "at" ≡ err arithmetic_error
timestamp_overflow_example = timestamp_overflow toy 253402300800000 "at" (omega arith)

offset_is_taken_off : parse_timestamp toy (str " then ") "at" ≡ ok (pos 5)
unfolding parse_timestamp
offset_is_taken_off = refl

half_even : parse_duration toy (int (pos 2500)) "ms" "d" ≡ ok (some (pos 2))
unfolding parse_duration
half_even = refl

parse-IsValid_example : IsValid mapping (read_spec mapping)
unfolding parse
parse-IsValid_example = parse-IsValid mapping (read_spec mapping) refl

abbrev with_number : Fields
with_number = field "duration_field" (int (pos 5)) mapping

duration_problem_dropped_example :
    (late_problems with_number ≢ [])
    × (parse with_number ≡ ok (read_spec with_number))
    × ((read_spec with_number).duration_field ≡ none)
unfolding early_problems
duration_problem_dropped_example = duration_problem_dropped with_number refl refl refl

tally-injective : (m n : ℕ) → tally m ≡ tally n → m ≡ n
unfolding tally
tally-injective zero zero h = refl
tally-injective zero (suc n) h = cc
tally-injective (suc m) zero h = cc
tally-injective (suc m) (suc n) h = ap suc (tally-injective m n (ground arith))

first_code : String → ℕ
first_code String.[] = 0
first_code (String.◌∷◌ c s) = code c

toy_isoformat-injective : (x y : ℤ) → toy_isoformat x ≡ toy_isoformat y → x ≡ y
unfolding first_code
toy_isoformat-injective (pos m) (pos n) h = ap pos (tally-injective m n (ground arith))
toy_isoformat-injective (negsuc m) (negsuc n) h = ap negsuc (tally-injective m n (ground arith))
toy_isoformat-injective (pos m) (negsuc n) h = absurd (omega (arith, ap first_code h))
toy_isoformat-injective (negsuc m) (pos n) h = absurd (omega (arith, ap first_code h))

tally-HasNoBar : (n : ℕ) → HasNoBar (tally n)
unfolding tally split
tally-HasNoBar zero = refl
tally-HasNoBar (suc n) = ground (arith, tally-HasNoBar n)

toy_isoformat-HasNoBar : (x : ℤ) → HasNoBar (toy_isoformat x)
unfolding split
toy_isoformat-HasNoBar (pos n) = ground (arith, tally-HasNoBar n)
toy_isoformat-HasNoBar (negsuc n) = ground (arith, tally-HasNoBar n)

compute_dedup_key-injective_example :
    (◌≡◌ {A = String} "A" "A")
    × (◌≡◌ {A = String} "Done" "Done")
    × (pos 3 ≡ pos 3)
    × (or_empty none ≡ or_empty (some ""))
unfolding compute_dedup_key split tally
compute_dedup_key-injective_example =
    compute_dedup_key-injective toy "A" "Done" "A" "Done" "A|Done|pxxx|" (pos 3) (pos 3) none
      (some "") (λ x y h. h) toy_isoformat-injective toy_isoformat-HasNoBar refl refl refl refl refl
      refl refl refl

dedup_bar_collision_example :
    compute_dedup_key toy "A|B" "C" (pos 3) none ≡ compute_dedup_key toy "A" "B|C" (pos 3) none
dedup_bar_collision_example = dedup_bar_collision toy "A" "B" "C" (pos 3) none

normalize-raises_example :
    ErrorsAre (IsDeclared (read_spec mapping)) (normalize toy (read_spec mapping) end none)
normalize-raises_example = normalize-raises toy (read_spec mapping) end none

abbrev pub with_actor : Fields
with_actor = field "actor_field" (str "who") mapping

abbrev pub by : String → Fields
by actor = field "who" (str actor) (record_of "A" 1)

by-Agree : Agree (by "ann") (by "bob") (value_paths (read_spec with_actor))
unfolding read_spec resolve_path
by-Agree path (inl e) = rw e refl
by-Agree path (inr (inl e)) = rw e refl
by-Agree path (inr (inr (inl e))) = rw e refl
by-Agree path (inr (inr (inr none_left))) = elim none_left [ ]

same_actor :
    (at : String) (h : Hasher)
    → (read_spec with_actor).actor_field ≡ some at
    → some (λ (s : String). ok "h") ≡ some h
    → actor_of toy (read_spec with_actor).actor_role_map h (resolve_path (obj (by "ann")) at)
      ≡ actor_of toy (read_spec with_actor).actor_role_map h (resolve_path (obj (by "bob")) at)
unfolding read_spec resolve_path actor_of
same_actor at h e k = rw (← some-injective _ _ k) (rw (← some-injective "who" at e) refl)

normalize-reads_example :
    normalize toy (read_spec with_actor) (by "ann") (some (λ s. ok "h"))
    ≡ normalize toy (read_spec with_actor) (by "bob") (some (λ s. ok "h"))
normalize-reads_example =
    normalize-reads toy (read_spec with_actor) (by "ann") (by "bob") (some (λ s. ok "h")) by-Agree
      same_actor
