-- ===== src/Sor/Ingest/Induction.antt =====
-- observations.py: an invariant of the loop's elementary steps holds when `ingest` ends, however it ends.
use fde_agent_platform.Prelude.{
  Bool, true, false, not, ◌&&◌, Option, String, List, [], ◌∷◌, ◌++◌, length, ◌≡◌, Bool-cases, inl,
  inr, leb,
}
use fde_agent_platform.Sor.Errors.{Reason, Result, ok, err, record_error}
use fde_agent_platform.Sor.Mapping.Normalize.{NormalizedObservation, normalize}
use fde_agent_platform.Sor.State.{RawRecord, Fetch, State}
use fde_agent_platform.Sor.Ingest.{
  Job, Run, Outcome, going, raised, end_batch, end_if_full, last_batch, take_result, and_then,
  fetched_one, ingest_record, ingest_records, start, finish, pump, add_observation, note_error,
  commit, flush, acknowledge, acknowledged,
}
use fde_agent_platform.Sor.Ingest.Follows.{run_of}

-- What each elementary step keeps.
pub record Keeps (j : Job) (P : Run → Type 0) : Type 0 where
  pub fetched : (s : Run) → P s → P (fetched_one s)
  pub noted :
      (reason : Reason) (name : String) (ref : Option String) (s : Run)
      → P s
      → P (record s { acc = note_error j.limit reason name ref s.acc })
  pub added :
      (o : NormalizedObservation) (cursor : Option String) (s : Run)
      → P s
      → P (add_observation o cursor s)
  pub ended : (s : Run) → P s → P (run_of (end_batch j s))

module _ (j : Job) (P : Run → Type 0) (keeps : Keeps j P) where
  end_if_full-keeps : (s : Run) → P s → P (run_of (end_if_full j s))
  end_if_full-keeps s h = elim (Bool-cases (leb j.size (length s.batch))) [
    | inl full ↦ simp full (keeps.ended s h)
    | inr room ↦ simp room h
  ]

  take_result-keeps :
      (r : RawRecord) (res : Result NormalizedObservation) (s : Run)
      → P s
      → P (run_of (take_result j r res s))
  unfolding take_result
  take_result-keeps r (ok o) s h =
      end_if_full-keeps (add_observation o r.cursor s) (keeps.added o r.cursor s h)
  take_result-keeps r (err (record_error reason name)) s h = keeps.noted reason name r.ref s h
  take_result-keeps r (err e) s h = h

  and_then-keeps :
      (out : Outcome) (next : Run → Outcome)
      → P (run_of out)
      → ((s : Run) → P s → P (run_of (next s)))
      → P (run_of (and_then out next))
  and_then-keeps (going s) next h later = later s h
  and_then-keeps (raised e s) next h later = h

  ingest_records-keeps : (rs : List RawRecord) (s : Run) → P s → P (run_of (ingest_records j rs s))
  unfolding ingest_records
  ingest_records-keeps [] s h = h
  ingest_records-keeps (r ∷ rs) s h =
      and_then-keeps (ingest_record j r s) (ingest_records j rs)
        (unfold ingest_record in
          take_result-keeps r (normalize j.py j.spec r.payload j.hasher) (fetched_one s)
            (keeps.fetched s h))
        (λ s' h'. ingest_records-keeps rs s' h')

  last_batch-keeps :
      (os : List NormalizedObservation) (s : Run) → P s → P (run_of (last_batch j os s))
  unfolding last_batch
  last_batch-keeps [] s h = h
  last_batch-keeps (o ∷ os) s h = keeps.ended s h

  finish-keeps : (fails : Bool) (out : Outcome) → P (run_of out) → P (run_of (finish j fails out))
  unfolding finish
  finish-keeps true (going s) h = h
  finish-keeps false (going s) h = last_batch-keeps s.batch s h
  finish-keeps _ (raised e s) h = h

  pub pump-keeps :
      (source : Fetch) (c : Option String) (state : State)
      → P (start state c)
      → P (run_of (pump j source c state))
  unfolding pump
  pump-keeps source c state h =
      finish-keeps source.fails (ingest_records j source.records (start state c))
        (ingest_records-keeps source.records (start state c) h)

-- A property of the state alone: what a committed batch and an acknowledgement keep.
pub record KeepsState (j : Job) (Q : State → Type 0) : Type 0 where
  pub committed : (s : Run) → j.dry_run ≡ false → Q s.state → Q (commit j s)
  pub acked :
      (state : State) (cursor : Option String)
      → j.dry_run ≡ false
      → Q state
      → Q (record state { acked = state.acked ++ cursor ∷ [] })

module _ (j : Job) (Q : State → Type 0) (keeps : KeepsState j Q) where
  acknowledge-keeps : (s : Run) → j.dry_run ≡ false → Q s.state → Q (acknowledge j s).state
  acknowledge-keeps s wet h = elim (Bool-cases j.acking) [
    | inl acks ↦ simp acks (keeps.acked s.state s.batch_cursor wet h)
    | inr silent ↦ simp silent h
  ]

  acknowledged-keeps :
      (s : Run) → j.dry_run ≡ false → Q s.state → Q (run_of (acknowledged j s)).state
  acknowledged-keeps s wet h = elim (Bool-cases (j.acking && not (j.acks s.acc.batches))) [
    | inl lost ↦ simp lost (acknowledge-keeps s wet h)
    | inr taken ↦ simp taken (acknowledge-keeps s wet h)
  ]

  end_batch-keeps : (s : Run) → Q s.state → Q (run_of (end_batch j s)).state
  unfolding end_batch
  end_batch-keeps s h = elim (Bool-cases j.dry_run) [
    | inl dry ↦ simp dry h
    | inr wet ↦ elim (Bool-cases (j.commits s.acc.batches)) [
      | inl commits ↦
          simp (wet, commits) (acknowledged-keeps (flush j s) wet (keeps.committed s wet h))
      | inr rolled_back ↦ simp (wet, rolled_back) h
    ]
  ]

  pub pump-keeps_state :
      (source : Fetch) (c : Option String) (state : State)
      → Q state
      → Q (run_of (pump j source c state)).state
  unfolding add_observation
  pump-keeps_state source c state h =
      pump-keeps j (λ s. Q s.state)
        (record {
          fetched = λ s h. h;
          noted = λ reason name ref s h. h;
          added = λ o cursor s h. h;
          ended = end_batch-keeps;
        })
        source c state h
