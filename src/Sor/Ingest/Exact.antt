-- ===== src/Sor/Ingest/Exact.antt =====
-- observations.py: `ingest` against its promise, that each observation is stored once.
use fde_agent_platform.Prelude.{
  ℕ, ◌+◌, false, Option, String, List, ◌++◌, length, [], ◌∷◌, ◌≡◌, refl, sym, ◌∙◌, ap,
}
use mathlib.Core.List.{append-nil, append_assoc}
use fde_agent_platform.Sor.Mapping.Normalize.{NormalizedObservation, normalize}
use fde_agent_platform.Sor.State.{RawRecord, Fetch, StoredObservation, State}
use fde_agent_platform.Sor.Ingest.{Job, Run, Outcome, going, pump}
use fde_agent_platform.Sor.Ingest.Table.{insert_rows, rowcount}
use fde_agent_platform.Sor.Ingest.Table.Keys.{
  insert_rows_resume, insert_rows_twice, insert_rows-AllKnown, rowcount-known,
}
use fde_agent_platform.Sor.Ingest.Follows.{observed, kept, run_of}
use fde_agent_platform.Sor.Ingest.Committed.{Committed, pump-Committed}
use fde_agent_platform.Sor.Ingest.Total.{IsClean, pump-going}

-- The statistics and the table of a run that stored `os` on top of the table `t`.
pub record Stores (j : Job) (t : List StoredObservation) (n : ℕ) (os : List NormalizedObservation)
    (s : Run) : Type 0 where
  pub table : s.state.observations ≡ insert_rows j.engagement_id j.adapter_id t os
  pub fetched : s.acc.fetched ≡ n
  pub inserted : s.acc.inserted ≡ rowcount j.engagement_id j.adapter_id t os
  pub counted : s.acc.inserted + s.acc.duplicates ≡ length os

Committed-Stores :
    (j : Job) (t : List StoredObservation) (source : Fetch) (out : Outcome) (s : Run)
    → out ≡ going s
    → s.acc.fetched ≡ length source.records
    → Committed j t source out
    → Stores j t (length source.records) (observed j source.records) s
Committed-Stores j t source out s e n c =
    let all_done : observed j source.records ≡ c.done =
      c.parts ∙ ap (λ l. c.done ++ l) (c.complete s e) ∙ append-nil c.done in
    let same : run_of out ≡ s = ap run_of e in
    rw all_done (record {
      table = ap (λ r. r.state.observations) (sym same) ∙ c.table;
      fetched = n;
      inserted = ap (λ r. r.acc.inserted) (sym same) ∙ c.inserted;
      counted = ap (λ r. r.acc.inserted + r.acc.duplicates) (sym same) ∙ c.counted;
    })

pub pump-Stores :
    (j : Job) (source : Fetch) (last_cursor : Option String) (state : State)
    → j.dry_run ≡ false
    → IsClean j source
    → (s : Run) × (pump j source last_cursor state ≡ going s)
      × Stores j state.observations (length source.records) (observed j source.records) s
pump-Stores j source last_cursor state wet clean =
    let (s, e, n) = pump-going j source last_cursor state clean in
    (
      s,
      e,
      Committed-Stores j state.observations source (pump j source last_cursor state) s e n
          (pump-Committed j source last_cursor state wet),
    )

-- Two runs for one adapter, under one mapping and hasher: what `normalize` and the table depend on.
pub record IsSameAdapter (j again : Job) : Type 0 where
  pub py : j.py ≡ again.py
  pub spec : j.spec ≡ again.spec
  pub hasher : j.hasher ≡ again.hasher
  pub adapter_id : j.adapter_id ≡ again.adapter_id
  pub engagement_id : j.engagement_id ≡ again.engagement_id

observed-same :
    (j again : Job) (rs : List RawRecord)
    → IsSameAdapter j again
    → observed j rs ≡ observed again rs
observed-same j again [] same = refl
observed-same j again (r ∷ rs) same =
    rw (same.py, same.spec, same.hasher)
      (ap (λ os. kept (normalize again.py again.spec r.payload again.hasher) ++ os)
        (observed-same j again rs same))

observed-append :
    (j : Job) (rs more : List RawRecord)
    → observed j (rs ++ more) ≡ observed j rs ++ observed j more
observed-append j [] more = refl
observed-append j (r ∷ rs) more =
    let first = kept (normalize j.py j.spec r.payload j.hasher) in
    ap (λ os. first ++ os) (observed-append j rs more)
    ∙ sym (append_assoc first (observed j rs) (observed j more))

-- What a first run has committed, a run over at least its records completes.
resumed :
    (j again : Job) (source : Fetch) (more : List RawRecord) (t0 : List StoredObservation)
    (out : Outcome)
    → IsSameAdapter j again
    → Committed j t0 source out
    → insert_rows again.engagement_id again.adapter_id
        (run_of out).state.observations
        (observed again (source.records ++ more))
      ≡ insert_rows again.engagement_id again.adapter_id t0
          (observed again (source.records ++ more))
resumed j again source more t0 out same first =
    let e = again.engagement_id in
    let a = again.adapter_id in
    let later = first.others ++ observed again more in
    let parts : observed again (source.records ++ more) ≡ first.done ++ later =
      observed-append again source.records more
      ∙ ap (λ os. os ++ observed again more)
          (sym (observed-same j again source.records same) ∙ first.parts)
      ∙ append_assoc first.done first.others (observed again more) in
    let table : (run_of out).state.observations ≡ insert_rows e a t0 first.done =
      first.table ∙ rw (same.engagement_id, same.adapter_id) refl in
    rw parts (rw table (insert_rows_resume e a t0 first.done later))

-- A first run that writes may end in any way: a transaction or an acknowledgement fails, or the source
-- raises after a part of its records. A second run that writes for the same adapter, with the
-- same mapping and hasher and any batch size, which nothing interrupts and which is given at least the
-- records that the first one was given, leaves the table that one run over them would have left.
pub resume_after_crash :
    (j again : Job) (source second : Fetch) (c c' : Option String) (more : List RawRecord)
    (state : State)
    → j.dry_run ≡ false
    → again.dry_run ≡ false
    → IsSameAdapter j again
    → second.records ≡ source.records ++ more
    → IsClean again second
    → (s : Run) × (pump again second c' (run_of (pump j source c state)).state ≡ going s)
      × (s.state.observations
          ≡ insert_rows again.engagement_id again.adapter_id state.observations
              (observed again second.records))
resume_after_crash j again source second c c' more state wet wet' same records clean =
    let out = pump j source c state in
    let (s, e, stores) = pump-Stores again second c' (run_of out).state wet' clean in
    (
      s,
      e,
      stores.table
          ∙ rw records (
              resumed j again source more state.observations out same
                (pump-Committed j source c state wet)),
    )

-- A second run over records that a first run has ingested, with nothing interrupting either, inserts
-- no row and leaves the table as it is.
pub ingest_again :
    (j : Job) (source : Fetch) (c c' : Option String) (state : State)
    → j.dry_run ≡ false
    → IsClean j source
    → (s : Run) × (pump j source c' (run_of (pump j source c state)).state ≡ going s)
      × (s.acc.inserted ≡ 0)
      × (s.state.observations ≡ (run_of (pump j source c state)).state.observations)
ingest_again j source c c' state wet clean =
    let os = observed j source.records in
    let (s1, e1, first) = pump-Stores j source c state wet clean in
    let (s2, e2, second) =
      pump-Stores j source c' (run_of (pump j source c state)).state wet clean in
    let table1 : (run_of (pump j source c state)).state.observations
        ≡ insert_rows j.engagement_id j.adapter_id state.observations os =
      ap (λ o. (run_of o).state.observations) e1 ∙ first.table in
    (
      s2,
      e2,
      second.inserted
          ∙ rw table1 (
              rowcount-known j.engagement_id j.adapter_id _ os
                (insert_rows-AllKnown j.engagement_id j.adapter_id state.observations os)),
      second.table
          ∙ rw table1 (insert_rows_twice j.engagement_id j.adapter_id state.observations os),
    )
