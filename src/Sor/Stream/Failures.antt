-- ===== src/Sor/Stream/Failures.antt =====
-- observations.py: `failed_refs` names every record that did not normalise.
use mathlib.Core.List.{append-nil, append_assoc}
use mathlib.Core.Path.{subst}
use fde_agent_platform.Prelude.{
  String, Bool, true, false, Option, none, some, List, [], ◌∷◌, ◌++◌, ◌≡◌, refl, sym, arith,
  Bool-cases, inl, inr, leb, length,
}
use fde_agent_platform.Sor.Errors.{Result, ok, err, record_error}
use fde_agent_platform.Sor.Mapping.Normalize.{NormalizedObservation, normalize}
use fde_agent_platform.Sor.State.{RawRecord, Fetch, State}
use fde_agent_platform.Sor.Ingest.{
  Job, Run, Outcome, going, raised, end_batch, end_if_full, last_batch, take_result, and_then,
  fetched_one, ingest_record, ingest_records, start, finish, pump, add_observation, with_ref,
}

abbrev pub ref_if_failed : Result NormalizedObservation → Option String → List String
ref_if_failed (ok o) ref = []
ref_if_failed (err e) ref = with_ref ref []

-- The handles of the records that do not normalise.
abbrev pub failures : Job → List RawRecord → List String
failures j [] = []
failures j (r ∷ rs) =
    ref_if_failed (normalize j.py j.spec r.payload j.hasher) r.ref ++ failures j rs

abbrev GoingRefs : List String → Outcome → Type 0
GoingRefs refs (going s) = s.acc.failed_refs ≡ refs
GoingRefs refs (raised e s) = Unit

module _ (j : Job) where
  end_batch-refs : (s : Run) → GoingRefs s.acc.failed_refs (end_batch j s)
  unfolding end_batch
  end_batch-refs s = ground arith

  end_if_full-refs : (s : Run) → GoingRefs s.acc.failed_refs (end_if_full j s)
  end_if_full-refs s = elim (Bool-cases (leb j.size (length s.batch))) [
    | inl full ↦ simp full (end_batch-refs s)
    | inr room ↦ simp room refl
  ]

  with_ref-append :
      (ref : Option String) (refs : List String) → with_ref ref refs ≡ refs ++ with_ref ref []
  with_ref-append none refs = sym (append-nil refs)
  with_ref-append (some r) refs = refl

  take_result-refs :
      (r : RawRecord) (res : Result NormalizedObservation) (s : Run)
      → GoingRefs (s.acc.failed_refs ++ ref_if_failed res r.ref) (take_result j r res s)
  unfolding take_result
  take_result-refs r (ok o) s =
      rw append-nil (unfold add_observation in end_if_full-refs (add_observation o r.cursor s))
  take_result-refs r (err (record_error reason name)) s = with_ref-append r.ref s.acc.failed_refs
  take_result-refs r (err e) s = tt

  and_then-refs :
      (refs all : List String) (out : Outcome) (next : Run → Outcome)
      → GoingRefs refs out
      → ((s : Run) → s.acc.failed_refs ≡ refs → GoingRefs all (next s))
      → GoingRefs all (and_then out next)
  and_then-refs refs all (going s) next h later = later s h
  and_then-refs refs all (raised e s) next h later = tt

  ingest_records-refs :
      (rs : List RawRecord) (refs : List String) (s : Run)
      → s.acc.failed_refs ≡ refs
      → GoingRefs (refs ++ failures j rs) (ingest_records j rs s)
  unfolding ingest_records
  ingest_records-refs [] refs s h = rw append-nil h
  ingest_records-refs (r ∷ rs) refs s h =
      let new = ref_if_failed (normalize j.py j.spec r.payload j.hasher) r.ref in
      and_then-refs (refs ++ new) (refs ++ failures j (r ∷ rs)) (ingest_record j r s)
        (ingest_records j rs)
        (rw (← h) (
          unfold ingest_record in
          take_result-refs r (normalize j.py j.spec r.payload j.hasher) (fetched_one s)))
        (λ s' h'. rw (← append_assoc) (ingest_records-refs rs (refs ++ new) s' h'))

  last_batch-refs :
      (os : List NormalizedObservation) (s : Run) → GoingRefs s.acc.failed_refs (last_batch j os s)
  unfolding last_batch
  last_batch-refs [] s = refl
  last_batch-refs (o ∷ os) s = end_batch-refs s

  finish-refs :
      (refs : List String) (fails : Bool) (out : Outcome)
      → GoingRefs refs out
      → GoingRefs refs (finish j fails out)
  unfolding finish
  finish-refs refs true (going s) h = tt
  finish-refs refs false (going s) h = rw (← h) (last_batch-refs s.batch s)
  finish-refs refs _ (raised e s) h = tt

  -- A run that no exception ends reports the handle of each record that did not normalise, in their
  -- order, and no other.
  pub failed_refs-eq-failures :
      (source : Fetch) (c : Option String) (state : State) (s : Run)
      → pump j source c state ≡ going s
      → s.acc.failed_refs ≡ failures j source.records
  unfolding pump
  failed_refs-eq-failures source c state s e = subst (GoingRefs (failures j source.records)) e (
      finish-refs (failures j source.records) source.fails
        (ingest_records j source.records (start state c))
        (ingest_records-refs source.records [] (start state c) refl))
