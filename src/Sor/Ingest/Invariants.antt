-- ===== src/Sor/Ingest/Invariants.antt =====
-- observations.py: what `ingest` keeps however it ends.
use fde_agent_platform.Prelude.{
  ℕ, ◌+◌, ◌≤◌, true, false, Option, none, String, List, [], ◌∷◌, length, length-append, ◌≡◌, ◌≢◌,
  refl, ◌∙◌, arith, ◌==◌, if◌then◌else◌,
}
use fde_agent_platform.Sor.State.{Fetch, State, StoredAdapter}
use fde_agent_platform.Sor.Ingest.{
  Job, Run, Note, commit, end_batch, pump, add_observation, note_error, with_note, message,
  suppressed,
}
use fde_agent_platform.Sor.Ingest.Table.{advance}
use fde_agent_platform.Sor.Ingest.Table.Counts.{rows_of, rows_of-insert_rows}
use fde_agent_platform.Sor.Ingest.Table.Unique.{IsUnique, insert_rows-IsUnique}
use fde_agent_platform.Sor.Ingest.Follows.{run_of}
use fde_agent_platform.Sor.Ingest.Induction.{pump-keeps, pump-keeps_state}

-- No two rows of one adapter have one key when a run ends, in any way, if none had before.
pub pump-IsUnique :
    (j : Job) (source : Fetch) (c : Option String) (state : State)
    → IsUnique state.observations
    → IsUnique (run_of (pump j source c state)).state.observations
unfolding commit
pump-IsUnique j source c state u =
    pump-keeps_state j (λ t. IsUnique t.observations)
      (record {
        committed = λ s wet h.
            insert_rows-IsUnique j.engagement_id j.adapter_id s.state.observations s.batch h;
        acked = λ t cursor wet h. h;
      })
      source c state u

-- A dry run changes nothing that it was given: no row, no cursor, no acknowledgement.
pub pump-dry :
    (j : Job) (source : Fetch) (c : Option String) (state : State)
    → j.dry_run ≡ true
    → (run_of (pump j source c state)).state ≡ state
pump-dry j source c state dry =
    pump-keeps_state j (λ t. t ≡ state)
      (record { committed = λ s wet h. cc; acked = λ t cursor wet h. cc }) source c state refl

-- The rows of `sor.adapter` with another id.
abbrev pub others : ℕ → List StoredAdapter → List StoredAdapter
others a [] = []
others a (x ∷ xs) = let rest = others a xs in if x.adapter_id == a then rest else x ∷ rest

others-advance :
    (a : ℕ) (cursor : Option String) (now : ℕ) (xs : List StoredAdapter)
    → others a (advance a cursor now xs) ≡ others a xs
unfolding advance
others-advance a cursor now [] = refl
others-advance a cursor now (x ∷ xs) = ground (arith, others-advance a cursor now xs)

-- A run for one adapter leaves the observations and the rows of every other adapter as they are.
pub pump-others :
    (j : Job) (b : ℕ) (source : Fetch) (c : Option String) (state : State)
    → j.adapter_id ≢ b
    → (rows_of b (run_of (pump j source c state)).state.observations ≡ rows_of b state.observations)
      × (others j.adapter_id (run_of (pump j source c state)).state.adapters
          ≡ others j.adapter_id state.adapters)
unfolding commit
pump-others j b source c state ne =
    pump-keeps_state j
      (λ t.
        (rows_of b t.observations ≡ rows_of b state.observations)
        × (others j.adapter_id t.adapters ≡ others j.adapter_id state.adapters))
      (record {
        committed = λ s wet h. (
          rows_of-insert_rows j.engagement_id j.adapter_id b s.state.observations s.batch ne ∙ h.0,
          others-advance j.adapter_id _ s.state.clock s.state.adapters ∙ h.1,
        );
        acked = λ t cursor wet h. h;
      })
      source c state (refl, refl)

abbrev pub cursors : List StoredAdapter → List (Option String)
cursors [] = []
cursors (x ∷ xs) = x.last_cursor ∷ cursors xs

cursors-advance-none :
    (a now : ℕ) (xs : List StoredAdapter) → cursors (advance a none now xs) ≡ cursors xs
unfolding advance
cursors-advance-none a now [] = refl
cursors-advance-none a now (x ∷ xs) = ground (arith, cursors-advance-none a now xs)

-- With `advance_cursor=False` a run leaves the watermark of every adapter as it is.
pub pump-cursors :
    (j : Job) (source : Fetch) (c : Option String) (state : State)
    → j.advance_cursor ≡ false
    → cursors (run_of (pump j source c state)).state.adapters ≡ cursors state.adapters
unfolding commit
pump-cursors j source c state held =
    pump-keeps_state j (λ t. cursors t.adapters ≡ cursors state.adapters)
      (record {
        committed = λ s wet h.
            simp held (cursors-advance-none j.adapter_id s.state.clock s.state.adapters ∙ h);
        acked = λ t cursor wet h. h;
      })
      source c state refl

with_note-le :
    (limit : ℕ) (note : Note) (notes : List Note)
    → length notes ≤ limit + 1
    → length (with_note limit note notes) ≤ limit + 1
with_note-le limit note notes h =
    ground (arith, length-append notes (note ∷ []), length-append notes (suppressed limit ∷ []))

end_batch-notes :
    (j : Job) (s : Run)
    → length s.acc.record_errors ≤ j.limit + 1
    → length (run_of (end_batch j s)).acc.record_errors ≤ j.limit + 1
unfolding end_batch
end_batch-notes j s h = ground arith

end_batch-acked :
    (j : Job)
    → j.acking ≡ true
    → j.dry_run ≡ false
    → (n : ℕ) (s : Run) → length s.state.acked ≡ n + s.acc.batches
    → length (run_of (end_batch j s)).state.acked ≡ n + (run_of (end_batch j s)).acc.batches
unfolding end_batch commit
end_batch-acked j acks wet n s h = ground (arith, length-append s.state.acked (s.batch_cursor ∷ []))

-- A run keeps at most one message more than `max_record_errors`.
pub record_errors-bounded :
    (j : Job) (source : Fetch) (c : Option String) (state : State)
    → length (run_of (pump j source c state)).acc.record_errors ≤ j.limit + 1
unfolding note_error add_observation
record_errors-bounded j source c state =
    pump-keeps j (λ s. length s.acc.record_errors ≤ j.limit + 1)
      (record {
        fetched = λ s h. h;
        noted =
            λ reason name ref s h. with_note-le j.limit (message reason name) s.acc.record_errors h;
        added = λ o cursor s h. h;
        ended = end_batch-notes j;
      })
      source c state (omega arith)

-- The adapter is told of a batch once for each batch that has committed.
pub acked-eq-batches :
    (j : Job) (source : Fetch) (c : Option String) (state : State)
    → j.acking ≡ true
    → j.dry_run ≡ false
    → length (run_of (pump j source c state)).state.acked
      ≡ length state.acked + (run_of (pump j source c state)).acc.batches
unfolding note_error add_observation
acked-eq-batches j source c state acks wet =
    pump-keeps j (λ s. length s.state.acked ≡ length state.acked + s.acc.batches)
      (record {
        fetched = λ s h. h;
        noted = λ reason name ref s h. h;
        added = λ o cursor s h. h;
        ended = end_batch-acked j acks wet (length state.acked);
      })
      source c state (omega arith)
