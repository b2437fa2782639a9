-- ===== src/Sor/Ingest/Committed.antt =====
-- observations.py: what a run of `ingest` has committed when it ends, however it ends.
use fde_agent_platform.Prelude.{
  ◌+◌, Bool, true, false, Option, String, List, [], ◌∷◌, ◌++◌, length, ◌≡◌, refl, sym, ◌∙◌, ap,
  arith,
}
use mathlib.Core.List.{append-nil, append_assoc}
use fde_agent_platform.Sor.Mapping.Normalize.{NormalizedObservation}
use fde_agent_platform.Sor.State.{RawRecord, Fetch, StoredObservation, State}
use fde_agent_platform.Sor.Ingest.{
  Job, Run, Outcome, going, raised, end_batch, last_batch, ingest_records, start, finish, pump,
}
use fde_agent_platform.Sor.Ingest.Table.{insert_rows, rowcount}
use fde_agent_platform.Sor.Ingest.Follows.{
  observed, run_of, Seen, ingest_records-Seen, end_batch-Follows, start-Follows,
}

end_batch-emptied : (j : Job) (s s' : Run) → end_batch j s ≡ going s' → s'.batch ≡ []
unfolding end_batch
end_batch-emptied j s s' h = ground arith

last_batch-emptied :
    (j : Job) (os : List NormalizedObservation) (s s' : Run)
    → s.batch ≡ os
    → last_batch j os s ≡ going s'
    → s'.batch ≡ []
unfolding last_batch
last_batch-emptied j [] s s' e h = ground arith
last_batch-emptied j (o ∷ os) s s' e h = end_batch-emptied j s s' h

finish-emptied :
    (j : Job) (fails : Bool) (out : Outcome) (s : Run) → finish j fails out ≡ going s → s.batch ≡ []
unfolding finish
finish-emptied j true (going s) s' h = cc
finish-emptied j false (going s) s' h = last_batch-emptied j s.batch s s' refl h
finish-emptied j _ (raised e s) s' h = cc

module _ (j : Job) (t0 : List StoredObservation) (rs : List RawRecord) where
  last_batch-Seen :
      (os : List NormalizedObservation) (s : Run)
      → j.dry_run ≡ false
      → Seen j t0 rs [] (going s)
      → Seen j t0 rs [] (last_batch j os s)
  unfolding last_batch
  last_batch-Seen [] s wet h = h
  last_batch-Seen (o ∷ os) s wet h =
      let (done, f) = h.follows in
      record {
        these = h.these;
        others = h.others;
        parts = h.parts;
        follows = end_batch-Follows j t0 done h.these s wet f;
        complete = λ s' e. h.complete s refl;
      }

  finish-Seen :
      (fails : Bool) (out : Outcome)
      → j.dry_run ≡ false
      → Seen j t0 rs [] out
      → Seen j t0 rs [] (finish j fails out)
  unfolding finish
  finish-Seen true (going s) wet h = record {
    these = h.these;
    others = h.others;
    parts = h.parts;
    follows = h.follows;
    complete = λ s' e. cc;
  }
  finish-Seen false (going s) wet h = last_batch-Seen s.batch s wet h
  finish-Seen _ (raised e s) wet h = h

-- The observations committed are the first ones of those that the source's records normalise to, each
-- inserted once; and all of them, where no exception ended the run.
pub record Committed (j : Job) (t0 : List StoredObservation) (source : Fetch) (out : Outcome)
    : Type 0 where
  pub done : List NormalizedObservation
  pub others : List NormalizedObservation
  pub parts : observed j source.records ≡ done ++ others
  pub table : (run_of out).state.observations ≡ insert_rows j.engagement_id j.adapter_id t0 done
  pub inserted : (run_of out).acc.inserted ≡ rowcount j.engagement_id j.adapter_id t0 done
  pub counted : (run_of out).acc.inserted + (run_of out).acc.duplicates ≡ length done
  pub complete : (s : Run) → out ≡ going s → others ≡ []

Seen-Committed :
    (j : Job) (t0 : List StoredObservation) (source : Fetch) (out : Outcome)
    → Seen j t0 source.records [] out
    → ((s : Run) → out ≡ going s → s.batch ≡ [])
    → Committed j t0 source out
Seen-Committed j t0 source (going s) h empty =
    let (done, f) = h.follows in
    let all_done : done ≡ h.these =
      sym (append-nil done) ∙ ap (λ l. done ++ l) (sym (empty s refl)) ∙ f.parts in
    record {
      done = done;
      others = h.others;
      parts = h.parts ∙ ap (λ l. l ++ h.others) (sym all_done);
      table = f.table;
      inserted = f.inserted;
      counted = f.counted;
      complete = h.complete;
    }
Seen-Committed j t0 source (raised e s) h empty =
    let (done, f) = h.follows in
    record {
      done = done;
      others = s.batch ++ h.others;
      parts = h.parts ∙ ap (λ l. l ++ h.others) (sym f.parts) ∙ append_assoc done s.batch h.others;
      table = f.table;
      inserted = f.inserted;
      counted = f.counted;
      complete = λ s' e'. cc;
    }

-- A run that writes has committed a first part of what the records normalise to, each observation
-- that was not in the table inserted and counted once, whatever the batch size and whatever ends the
-- run; a run that no exception ends has committed them all.
pub pump-Committed :
    (j : Job) (source : Fetch) (last_cursor : Option String) (state : State)
    → j.dry_run ≡ false
    → Committed j state.observations source (pump j source last_cursor state)
unfolding pump
pump-Committed j source last_cursor state wet =
    let t0 = state.observations in
    let out = ingest_records j source.records (start state last_cursor) in
    Seen-Committed j t0 source (finish j source.fails out)
      (finish-Seen j t0 source.records source.fails out wet (
        ingest_records-Seen j t0 source.records [] (start state last_cursor) wet
          (start-Follows j t0 state last_cursor refl)))
      (finish-emptied j source.fails out)
