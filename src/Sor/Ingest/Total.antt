-- ===== src/Sor/Ingest/Total.antt =====
-- observations.py: a run of `ingest` that nothing interrupts returns, and what it returns.
use fde_agent_platform.Prelude.{
  ℕ, suc, ◌+◌, Bool, true, false, Option, String, List, [], ◌∷◌, length, All, ◌≡◌, refl, arith,
  Bool-cases, inl, inr, leb,
}
use mathlib.Core.Path.{subst}
use fde_agent_platform.Sor.Errors.{Result, ok, err, record_error}
use fde_agent_platform.Sor.Mapping.Normalize.{NormalizedObservation, normalize}
use fde_agent_platform.Sor.State.{RawRecord, Fetch, State}
use fde_agent_platform.Sor.Ingest.{
  Job, Run, Outcome, going, raised, end_batch, end_if_full, last_batch, take_result, and_then,
  fetched_one, ingest_record, ingest_records, start, finish, pump, add_observation,
}

-- Nothing but a `RecordError`.
abbrev pub IsNormal : Result NormalizedObservation → Type 0
IsNormal (ok o) = Unit
IsNormal (err (record_error reason name)) = Unit
IsNormal (err e) = ⊥

-- Nothing interrupts the run: the transactions commit, the source takes each acknowledgement and ends,
-- and no record makes `normalize` raise anything but a `RecordError`.
pub record IsClean (j : Job) (source : Fetch) : Type 0 where
  pub commits : (n : ℕ) → j.commits n ≡ true
  pub acks : (n : ℕ) → j.acks n ≡ true
  pub ends : source.fails ≡ false
  pub normal : All (λ r. IsNormal (normalize j.py j.spec r.payload j.hasher)) source.records

abbrev pub Goes : Outcome → ℕ → Type 0
Goes (going s) n = s.acc.fetched ≡ n
Goes (raised e s) n = ⊥

and_then-Goes :
    (next : Run → Outcome) (out : Outcome) (n k : ℕ)
    → Goes out (n + 1)
    → ((s : Run) → Goes (next s) (s.acc.fetched + k))
    → Goes (and_then out next) (n + suc k)
and_then-Goes next (going s) n k h later = subst (λ m. Goes (next s) m) (omega arith) (later s)
and_then-Goes next (raised e s) n k h later = absurd h

module _ (j : Job) (commits : (n : ℕ) → j.commits n ≡ true) (acks : (n : ℕ) → j.acks n ≡ true) where
  end_batch-Goes : (s : Run) → Goes (end_batch j s) s.acc.fetched
  unfolding end_batch
  end_batch-Goes s = ground (arith, commits s.acc.batches, acks (s.acc.batches + 1))

  end_if_full-Goes : (s : Run) → Goes (end_if_full j s) s.acc.fetched
  end_if_full-Goes s = elim (Bool-cases (leb j.size (length s.batch))) [
    | inl full ↦ simp full (end_batch-Goes s)
    | inr room ↦ simp room refl
  ]

  take_result-Goes :
      (r : RawRecord) (res : Result NormalizedObservation) (s : Run)
      → IsNormal res
      → Goes (take_result j r res s) s.acc.fetched
  unfolding take_result
  take_result-Goes r (ok o) s h = end_if_full-Goes (add_observation o r.cursor s)
  take_result-Goes r (err (record_error reason name)) s h = refl
  take_result-Goes r (err e) s h = absurd h

  ingest_record-Goes :
      (r : RawRecord) (s : Run)
      → IsNormal (normalize j.py j.spec r.payload j.hasher)
      → Goes (ingest_record j r s) (s.acc.fetched + 1)
  unfolding ingest_record
  ingest_record-Goes r s h =
      take_result-Goes r (normalize j.py j.spec r.payload j.hasher) (fetched_one s) h

  ingest_records-Goes :
      (rs : List RawRecord) (s : Run)
      → All (λ r. IsNormal (normalize j.py j.spec r.payload j.hasher)) rs
      → Goes (ingest_records j rs s) (s.acc.fetched + length rs)
  unfolding ingest_records
  ingest_records-Goes [] s h = omega arith
  ingest_records-Goes (r ∷ rs) s h =
      and_then-Goes (ingest_records j rs) (ingest_record j r s) s.acc.fetched (length rs)
        (ingest_record-Goes r s h.0) (λ s'. ingest_records-Goes rs s' h.1)

  last_batch-Goes :
      (os : List NormalizedObservation) (s : Run) → Goes (last_batch j os s) s.acc.fetched
  unfolding last_batch
  last_batch-Goes [] s = refl
  last_batch-Goes (o ∷ os) s = end_batch-Goes s

  finish-Goes :
      (fails : Bool) (out : Outcome) (n : ℕ)
      → fails ≡ false
      → Goes out n
      → Goes (finish j fails out) n
  unfolding finish
  finish-Goes true out n e h = cc
  finish-Goes false (going s) n e h =
      subst (λ k. Goes (last_batch j s.batch s) k) h (last_batch-Goes s.batch s)
  finish-Goes false (raised x s) n e h = h

Goes-going :
    (out : Outcome) (n : ℕ) → Goes out n → (s : Run) × (out ≡ going s) × (s.acc.fetched ≡ n)
Goes-going (going s) n h = (s, refl, h)
Goes-going (raised e s) n h = absurd h

-- A run that nothing interrupts comes to its end, with every record of the source fetched.
pub pump-going :
    (j : Job) (source : Fetch) (last_cursor : Option String) (state : State)
    → IsClean j source
    → (s : Run) × (pump j source last_cursor state ≡ going s)
      × (s.acc.fetched ≡ length source.records)
unfolding pump
pump-going j source last_cursor state clean =
    let out = ingest_records j source.records (start state last_cursor) in
    Goes-going (finish j source.fails out) (length source.records) (
      finish-Goes j clean.commits clean.acks source.fails out (length source.records) clean.ends (
        subst (λ k. Goes out k) (omega arith)
          (ingest_records-Goes j clean.commits clean.acks source.records (start state last_cursor)
            clean.normal)))
