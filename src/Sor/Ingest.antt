-- ===== src/Sor/Ingest.antt =====
-- packages/fde-sor/src/fde_sor/observations.py: `ingest`, the one writer of `sor.observation`.
pub mod Table
pub mod Entry
pub mod Follows
pub mod Committed
pub mod Total
pub mod Exact
pub mod Whole
pub mod Induction
pub mod Invariants
pub mod Cursor
use fde_agent_platform.Prelude.{
  ℕ, ◌+◌, ◌-◌, not, ◌&&◌, String, Bool, true, false, Option, none, some, List, [], ◌∷◌, ◌++◌,
  length, ltb, leb, ◌==◌, is_some, or_else, if◌then◌else◌,
}
use fde_agent_platform.Sor.Errors.{
  Reason, Raised, Result, ok, err, record_error, source_error, database_error, ack_error,
}
use fde_agent_platform.Sor.Stdlib.{Stdlib}
use fde_agent_platform.Sor.Mapping.Spec.{MappingSpec}
use fde_agent_platform.Sor.Mapping.Normalize.{Hasher, NormalizedObservation, normalize}
use fde_agent_platform.Sor.State.{RawRecord, Fetch, State}
use fde_agent_platform.Sor.Hashing.{non_empty}
use fde_agent_platform.Sor.Ingest.Table.{insert_rows, rowcount, advance}

-- An entry of `record_errors`: the message of a `RecordError`, or that further ones are left out.
pub data Note : Type 0 where
  message : Reason → String → Note
  suppressed : ℕ → Note

pub record IngestStats : Type 0 where
  pub adapter_key : String
  pub fetched : ℕ
  pub inserted : ℕ
  pub duplicates : ℕ
  pub unmapped_activities : ℕ
  pub batches : ℕ
  pub last_cursor : Option String
  pub record_errors : List Note
  pub failed_refs : List String
  pub dry_run : Bool

pub record Accumulator : Type 0 where
  pub fetched : ℕ
  pub inserted : ℕ
  pub duplicates : ℕ
  pub unmapped_activities : ℕ
  pub batches : ℕ
  pub last_cursor : Option String
  pub record_errors : List Note
  pub failed_refs : List String

abbrev pub with_ref : Option String → List String → List String
with_ref none refs = refs
with_ref (some ref) refs = refs ++ ref ∷ []

abbrev pub with_note : ℕ → Note → List Note → List Note
with_note limit note notes =
    if ltb (length notes) limit
    then notes ++ note ∷ []
    else if length notes == limit
    then notes ++ suppressed limit ∷ []
    else notes

unfoldable pub note_error : ℕ → Reason → String → Option String → Accumulator → Accumulator
note_error limit reason name ref acc = record acc {
  record_errors = with_note limit (message reason name) acc.record_errors;
  failed_refs = with_ref ref acc.failed_refs;
}

-- What one run works with. `commits n` says whether its transaction number `n` commits, and `acks n`
-- whether `on_batch_committed` returns when `n` batches are committed: the database and the source
-- are parameters.
pub record Job : Type 0 where
  pub py : Stdlib
  pub spec : MappingSpec
  pub hasher : Option Hasher
  pub adapter_id : ℕ
  pub engagement_id : String
  pub size : ℕ
  pub limit : ℕ
  pub dry_run : Bool
  pub advance_cursor : Bool
  pub acking : Bool
  pub commits : ℕ → Bool
  pub acks : ℕ → Bool

-- The variables of the loop.
pub record Run : Type 0 where
  pub state : State
  pub acc : Accumulator
  pub batch : List NormalizedObservation
  pub batch_cursor : Option String

-- The loop goes on, or an exception leaves `ingest`.
pub data Outcome : Type 0 where
  going : Run → Outcome
  raised : Raised → Run → Outcome

-- One transaction: the inserts and the advance of the cursor.
unfoldable pub commit : Job → Run → State
commit j s = record s.state {
  observations = insert_rows j.engagement_id j.adapter_id s.state.observations s.batch;
  adapters =
      advance j.adapter_id (if j.advance_cursor then s.batch_cursor else none) s.state.clock
        s.state.adapters;
}

-- `_flush`, where the transaction commits.
unfoldable pub flush : Job → Run → Run
unfolding commit
flush j s =
    let inserted = rowcount j.engagement_id j.adapter_id s.state.observations s.batch in
    record s {
      state = commit j s;
      acc = record s.acc {
        inserted = s.acc.inserted + inserted;
        duplicates = s.acc.duplicates + (length s.batch - inserted);
        batches = s.acc.batches + 1;
        last_cursor = or_else s.batch_cursor s.acc.last_cursor;
      };
    }

-- The call of `on_batch_committed`.
abbrev pub acknowledge : Job → Run → Run
acknowledge j s =
    if j.acking
    then record s { state = record s.state { acked = s.state.acked ++ s.batch_cursor ∷ [] } }
    else s

-- A batch counted and not written.
unfoldable pub count_batch : Run → Run
count_batch s = record s {
  acc = record s.acc {
    batches = s.acc.batches + 1;
    last_cursor = or_else (non_empty s.batch_cursor) s.acc.last_cursor;
  };
}

abbrev pub emptied : Run → Run
emptied s = record s { batch = [] }

-- What follows a commit: the call may raise, and then nothing reads the batch any more.
abbrev pub acknowledged : Job → Run → Outcome
acknowledged j s =
    if j.acking && not (j.acks s.acc.batches)
    then raised ack_error (emptied (acknowledge j s))
    else going (emptied (acknowledge j s))

-- The end of a batch.
unfoldable pub end_batch : Job → Run → Outcome
unfolding flush count_batch
end_batch j s =
    if j.dry_run
    then going (emptied (count_batch s))
    else if j.commits s.acc.batches
    then acknowledged j (flush j s)
    else raised database_error s

-- A record that was normalised joins the batch.
unfoldable pub add_observation : NormalizedObservation → Option String → Run → Run
add_observation o cursor s = record s {
  acc = record s.acc {
    unmapped_activities = s.acc.unmapped_activities + (if is_some o.activity_key then 0 else 1);
  };
  batch = s.batch ++ o ∷ [];
  batch_cursor = or_else cursor s.batch_cursor;
}

abbrev pub fetched_one : Run → Run
fetched_one s = record s { acc = record s.acc { fetched = s.acc.fetched + 1 } }

abbrev pub end_if_full : Job → Run → Outcome
end_if_full j s = if leb j.size (length s.batch) then end_batch j s else going s

-- The body of the loop, from the result of `normalize`.
unfoldable pub take_result : Job → RawRecord → Result NormalizedObservation → Run → Outcome
unfolding end_batch add_observation note_error
take_result j r (ok o) s = end_if_full j (add_observation o r.cursor s)
take_result j r (err (record_error reason name)) s =
    going (record s { acc = note_error j.limit reason name r.ref s.acc })
take_result j r (err e) s = raised e s

unfoldable pub ingest_record : Job → RawRecord → Run → Outcome
unfolding take_result normalize
ingest_record j r s = take_result j r (normalize j.py j.spec r.payload j.hasher) (fetched_one s)

-- What follows a step, unless the step raised.
abbrev pub and_then : Outcome → (Run → Outcome) → Outcome
and_then (going s) next = next s
and_then (raised e s) next = raised e s

-- `async for record in adapter.fetch(...)`
unfoldable pub ingest_records : Job → List RawRecord → Run → Outcome
unfolding ingest_record
ingest_records j [] s = going s
ingest_records j (r ∷ rs) s = and_then (ingest_record j r s) (ingest_records j rs)

-- `if batch:`
unfoldable pub last_batch : Job → List NormalizedObservation → Run → Outcome
unfolding end_batch
last_batch j [] s = going s
last_batch j (o ∷ os) s = end_batch j s

-- After the loop: the source's own exception, or the last batch.
unfoldable pub finish : Job → Bool → Outcome → Outcome
unfolding last_batch
finish j fails (raised e s) = raised e s
finish j true (going s) = raised source_error s
finish j false (going s) = last_batch j s.batch s

abbrev pub start : State → Option String → Run
start state last_cursor = record {
  state = state;
  acc = record {
    fetched = 0;
    inserted = 0;
    duplicates = 0;
    unmapped_activities = 0;
    batches = 0;
    last_cursor = last_cursor;
    record_errors = [];
    failed_refs = [];
  };
  batch = [];
  batch_cursor = none;
}

-- The loop and what follows it, from the first fetch on.
unfoldable pub pump : Job → Fetch → Option String → State → Outcome
unfolding ingest_records finish
pump j source last_cursor state =
    finish j source.fails (ingest_records j source.records (start state last_cursor))
