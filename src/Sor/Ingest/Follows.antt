-- ===== src/Sor/Ingest/Follows.antt =====
-- observations.py: the loop of `ingest` against the plain list of what its records normalise to.
use fde_agent_platform.Prelude.{
  not, ◌&&◌, ◌+◌, String, false, Option, List, [], ◌∷◌, ◌++◌, length, length-append, ◌≡◌, refl, sym,
  ◌∙◌, ap, arith, Bool-cases, inl, inr, leb,
}
use mathlib.Core.List.{append-nil, append_assoc}
use fde_agent_platform.Sor.Errors.{Result, ok, err, record_error}
use fde_agent_platform.Sor.Mapping.Normalize.{NormalizedObservation, normalize}
use fde_agent_platform.Sor.State.{RawRecord, StoredObservation, State}
use fde_agent_platform.Sor.Ingest.{
  acknowledged, Job, Run, Outcome, going, raised, flush, end_batch, end_if_full, emptied,
  acknowledge, add_observation, take_result, and_then, fetched_one, ingest_record, ingest_records,
  start,
}
use fde_agent_platform.Sor.Ingest.Table.{insert_rows, rowcount}
use fde_agent_platform.Sor.Ingest.Table.Keys.{insert_rows-append}
use fde_agent_platform.Sor.Ingest.Table.Counts.{rowcount-append, rowcount-le-length}

abbrev pub kept : Result NormalizedObservation → List NormalizedObservation
kept (ok o) = o ∷ []
kept (err e) = []

-- What the records normalise to, without those that do not.
abbrev pub observed : Job → List RawRecord → List NormalizedObservation
observed j [] = []
observed j (r ∷ rs) = kept (normalize j.py j.spec r.payload j.hasher) ++ observed j rs

abbrev pub run_of : Outcome → Run
run_of (going s) = s
run_of (raised e s) = s

-- A run that began at the table `t0` has committed `done`, and `done` with its batch is `seen`.
pub record Follows (j : Job) (t0 : List StoredObservation) (done seen : List NormalizedObservation)
    (s : Run) : Type 0 where
  pub table : s.state.observations ≡ insert_rows j.engagement_id j.adapter_id t0 done
  pub parts : done ++ s.batch ≡ seen
  pub inserted : s.acc.inserted ≡ rowcount j.engagement_id j.adapter_id t0 done
  pub counted : s.acc.inserted + s.acc.duplicates ≡ length done

abbrev pub SomeFollows : Job → List StoredObservation → List NormalizedObservation → Run → Type 0
SomeFollows j t0 seen s = (done : List NormalizedObservation) × Follows j t0 done seen s

module _ (j : Job) (t0 : List StoredObservation) where
  flush-Follows :
      (done seen : List NormalizedObservation) (s : Run)
      → Follows j t0 done seen s
      → Follows j t0 seen seen (emptied (flush j s))
  unfolding flush
  flush-Follows done seen s f =
      let table = insert_rows-append j.engagement_id j.adapter_id t0 done s.batch in
      let rows = rowcount-append j.engagement_id j.adapter_id t0 done s.batch in
      let size = length-append done s.batch in
      let most = rowcount-le-length j.engagement_id j.adapter_id s.state.observations s.batch in
      rw (← f.parts) (record {
        table = ground (arith, table, f.table);
        parts = append-nil (done ++ s.batch);
        inserted = ground (arith, rows, f.inserted, f.table);
        counted = omega (arith, size, most, f.counted);
      })

  acknowledge-Follows :
      (done seen : List NormalizedObservation) (s : Run)
      → Follows j t0 done seen (emptied s)
      → Follows j t0 done seen (emptied (acknowledge j s))
  acknowledge-Follows done seen s f = elim (Bool-cases j.acking) [
    | inl acks ↦
        simp acks
          (record { table = f.table; parts = f.parts; inserted = f.inserted; counted = f.counted })
    | inr silent ↦ simp silent f
  ]

  acknowledged-Follows :
      (done : List NormalizedObservation) (s : Run)
      → Follows j t0 done done (emptied s)
      → Follows j t0 done done (run_of (acknowledged j s))
  acknowledged-Follows done s f = elim (Bool-cases (j.acking && not (j.acks s.acc.batches))) [
    | inl lost ↦ simp lost (acknowledge-Follows done done s f)
    | inr taken ↦ simp taken (acknowledge-Follows done done s f)
  ]

  pub end_batch-Follows :
      (done seen : List NormalizedObservation) (s : Run)
      → j.dry_run ≡ false
      → Follows j t0 done seen s
      → SomeFollows j t0 seen (run_of (end_batch j s))
  unfolding end_batch
  end_batch-Follows done seen s wet f = elim (Bool-cases (j.commits s.acc.batches)) [
    | inl commits ↦
        simp (wet, commits)
          (seen, acknowledged-Follows seen (flush j s) (flush-Follows done seen s f))
    | inr rolled_back ↦ simp (wet, rolled_back) (done, f)
  ]

  end_if_full-Follows :
      (done seen : List NormalizedObservation) (s : Run)
      → j.dry_run ≡ false
      → Follows j t0 done seen s
      → SomeFollows j t0 seen (run_of (end_if_full j s))
  end_if_full-Follows done seen s wet f = elim (Bool-cases (leb j.size (length s.batch))) [
    | inl full ↦ simp full (end_batch-Follows done seen s wet f)
    | inr room ↦ simp room (done, f)
  ]

  add_observation-Follows :
      (done seen : List NormalizedObservation) (o : NormalizedObservation) (cursor : Option String)
      (s : Run)
      → Follows j t0 done seen s
      → Follows j t0 done (seen ++ o ∷ []) (add_observation o cursor s)
  unfolding add_observation
  add_observation-Follows done seen o cursor s f = record {
    table = f.table;
    parts = sym (append_assoc done s.batch (o ∷ [])) ∙ ap (λ l. l ++ o ∷ []) f.parts;
    inserted = f.inserted;
    counted = f.counted;
  }

  take_result-Follows :
      (seen : List NormalizedObservation) (r : RawRecord) (res : Result NormalizedObservation)
      (s : Run)
      → j.dry_run ≡ false
      → SomeFollows j t0 seen s
      → SomeFollows j t0 (seen ++ kept res) (run_of (take_result j r res s))
  unfolding take_result
  take_result-Follows seen r (ok o) s wet (done, f) =
      end_if_full-Follows done (seen ++ o ∷ []) (add_observation o r.cursor s) wet
        (add_observation-Follows done seen o r.cursor s f)
  take_result-Follows seen r (err (record_error reason name)) s wet (done, f) = rw append-nil (
    done,
    record { table = f.table; parts = f.parts; inserted = f.inserted; counted = f.counted },
  )
  take_result-Follows seen r (err e) s wet h = rw append-nil h

  ingest_record-Follows :
      (seen : List NormalizedObservation) (r : RawRecord) (s : Run)
      → j.dry_run ≡ false
      → SomeFollows j t0 seen s
      → SomeFollows j t0
          (seen ++ kept (normalize j.py j.spec r.payload j.hasher))
          (run_of (ingest_record j r s))
  unfolding ingest_record
  ingest_record-Follows seen r s wet (done, f) =
      take_result-Follows seen r (normalize j.py j.spec r.payload j.hasher) (fetched_one s) wet (
        done,
        record { table = f.table; parts = f.parts; inserted = f.inserted; counted = f.counted },
      )

  -- However the loop ends, what it has seen is a first part of what the records normalise to, and all
  -- of it where no exception ended it.
  pub record Seen (rs : List RawRecord) (seen : List NormalizedObservation) (out : Outcome)
      : Type 0 where
    pub these : List NormalizedObservation
    pub others : List NormalizedObservation
    pub parts : observed j rs ≡ these ++ others
    pub follows : SomeFollows j t0 (seen ++ these) (run_of out)
    pub complete : (s : Run) → out ≡ going s → others ≡ []

  Seen-and_then :
      (r : RawRecord) (rs : List RawRecord) (seen : List NormalizedObservation) (out : Outcome)
      → SomeFollows j t0 (seen ++ kept (normalize j.py j.spec r.payload j.hasher)) (run_of out)
      → ((s : Run)
          → SomeFollows j t0 (seen ++ kept (normalize j.py j.spec r.payload j.hasher)) s
          → Seen rs
              (seen ++ kept (normalize j.py j.spec r.payload j.hasher))
              (ingest_records j rs s))
      → Seen (r ∷ rs) seen (and_then out (ingest_records j rs))
  Seen-and_then r rs seen (going s) f later =
      let first = kept (normalize j.py j.spec r.payload j.hasher) in
      let rest = later s f in
      record {
        these = first ++ rest.these;
        others = rest.others;
        parts = rw rest.parts (sym (append_assoc first rest.these rest.others));
        follows = rw (← append_assoc) rest.follows;
        complete = rest.complete;
      }
  Seen-and_then r rs seen (raised e s) f later = record {
    these = kept (normalize j.py j.spec r.payload j.hasher);
    others = observed j rs;
    parts = refl;
    follows = f;
    complete = λ s'' h. cc;
  }

  pub ingest_records-Seen :
      (rs : List RawRecord) (seen : List NormalizedObservation) (s : Run)
      → j.dry_run ≡ false
      → SomeFollows j t0 seen s
      → Seen rs seen (ingest_records j rs s)
  unfolding ingest_records
  ingest_records-Seen [] seen s wet f = record {
    these = [];
    others = [];
    parts = refl;
    follows = rw append-nil f;
    complete = λ s' h. refl;
  }
  ingest_records-Seen (r ∷ rs) seen s wet f =
      Seen-and_then r rs seen (ingest_record j r s) (ingest_record-Follows seen r s wet f) (λ s' f'.
        ingest_records-Seen rs (seen ++ kept (normalize j.py j.spec r.payload j.hasher)) s' wet f')

  pub start-Follows :
      (state : State) (last_cursor : Option String)
      → state.observations ≡ t0
      → SomeFollows j t0 [] (start state last_cursor)
  unfolding insert_rows rowcount
  start-Follows state last_cursor h =
      ([], record { table = h; parts = refl; inserted = refl; counted = omega arith })
