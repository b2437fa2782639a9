-- ===== src/Sor/Ingest/Cursor.antt =====
-- observations.py: the watermark that `ingest` commits.
use mathlib.Core.Path.{subst}
use fde_agent_platform.Prelude.{
  ℕ, not, ◌&&◌, Bool, true, false, Option, none, some, String, List, [], ◌∷◌, ◌++◌, or_else, ◌≡◌,
  refl, ◌∙◌, ap, arith, Bool-cases, inl, inr, ◌==◌, leb, length, if◌then◌else◌,
}
use fde_agent_platform.Sor.Errors.{Result, ok, err, record_error}
use fde_agent_platform.Sor.Mapping.Normalize.{NormalizedObservation, normalize}
use fde_agent_platform.Sor.State.{RawRecord, Fetch, State, StoredAdapter}
use fde_agent_platform.Sor.Ingest.{
  Job, Run, Outcome, going, raised, commit, flush, end_batch, end_if_full, last_batch, take_result,
  and_then, fetched_one, ingest_record, ingest_records, start, finish, pump, emptied, acknowledge,
  acknowledged, add_observation,
}
use fde_agent_platform.Sor.Ingest.Table.{advance}

-- The `last_cursor` of an adapter, where it has a row.
abbrev pub cursor_of : ℕ → List StoredAdapter → Option (Option String)
cursor_of a [] = none
cursor_of a (x ∷ xs) = if x.adapter_id == a then some x.last_cursor else cursor_of a xs

cursor_of-advance :
    (a : ℕ) (c old : Option String) (now : ℕ) (xs : List StoredAdapter)
    → cursor_of a xs ≡ some old
    → cursor_of a (advance a c now xs) ≡ some (or_else c old)
unfolding advance
cursor_of-advance a c old now [] h = cc
cursor_of-advance a c old now (x ∷ xs) h = ground (arith, cursor_of-advance a c old now xs)

abbrev pub cursor_kept :
    Result NormalizedObservation → Option String → Option String → Option String
cursor_kept (ok o) cursor w = or_else cursor w
cursor_kept (err e) cursor w = w

-- The cursor of the last record that normalises and has one.
abbrev pub watermark : Job → List RawRecord → Option String → Option String
watermark j [] w = w
watermark j (r ∷ rs) w =
    watermark j rs (cursor_kept (normalize j.py j.spec r.payload j.hasher) r.cursor w)

-- The cursor in the table, and what a commit would make of it.
pub record Tracks (a : ℕ) (c0 w : Option String) (s : Run) : Type 0 where
  pub at : s.batch_cursor ≡ w
  pub db : Option String
  pub row : cursor_of a s.state.adapters ≡ some db
  pub next : or_else w db ≡ or_else w c0
  pub idle : s.batch ≡ [] → db ≡ or_else w c0

abbrev GoingTracks : ℕ → Option String → Option String → Outcome → Type 0
GoingTracks a c0 w (going s) = Tracks a c0 w s
GoingTracks a c0 w (raised e s) = Unit

or_else_twice : (w c : Option String) → or_else w (or_else w c) ≡ or_else w c
or_else_twice none c = refl
or_else_twice (some x) c = refl

or_else_newer :
    (c w a b : Option String)
    → or_else w a ≡ or_else w b
    → or_else (or_else c w) a ≡ or_else (or_else c w) b
or_else_newer none w a b h = h
or_else_newer (some x) w a b h = refl

module _ (j : Job) (c0 : Option String) (advances : j.advance_cursor ≡ true)
    (wet : j.dry_run ≡ false) where
  commit-row :
      (w : Option String) (s : Run) (t : Tracks j.adapter_id c0 w s)
      → cursor_of j.adapter_id (commit j s).adapters ≡ some (or_else w c0)
  unfolding commit
  commit-row w s t = simp advances (
      cursor_of-advance j.adapter_id s.batch_cursor t.db s.state.clock s.state.adapters t.row
      ∙ ap some (ap (λ x. or_else x t.db) t.at ∙ t.next))

  flush-Tracks :
      (w : Option String) (s : Run)
      → Tracks j.adapter_id c0 w s
      → Tracks j.adapter_id c0 w (emptied (acknowledge j (flush j s)))
  unfolding flush
  flush-Tracks w s t = elim (Bool-cases j.acking) [
    | inl acks ↦ simp acks (record {
      at = t.at;
      db = or_else w c0;
      row = commit-row w s t;
      next = or_else_twice w c0;
      idle = λ e. refl;
    })
    | inr silent ↦ simp silent (record {
      at = t.at;
      db = or_else w c0;
      row = commit-row w s t;
      next = or_else_twice w c0;
      idle = λ e. refl;
    })
  ]

  acknowledged-Tracks :
      (w : Option String) (s : Run)
      → Tracks j.adapter_id c0 w s
      → GoingTracks j.adapter_id c0 w (acknowledged j (flush j s))
  acknowledged-Tracks w s t = elim (Bool-cases (j.acking && not (j.acks (flush j s).acc.batches))) [
    | inl lost ↦ simp lost tt
    | inr taken ↦ simp taken (flush-Tracks w s t)
  ]

  end_batch-Tracks :
      (w : Option String) (s : Run)
      → Tracks j.adapter_id c0 w s
      → GoingTracks j.adapter_id c0 w (end_batch j s)
  unfolding end_batch
  end_batch-Tracks w s t = elim (Bool-cases (j.commits s.acc.batches)) [
    | inl commits ↦ simp (wet, commits) (acknowledged-Tracks w s t)
    | inr rolled_back ↦ simp (wet, rolled_back) tt
  ]

  append-ne-nil :
      (xs : List NormalizedObservation) (o : NormalizedObservation) → xs ++ o ∷ [] ≡ [] → ⊥
  append-ne-nil [] o h = cc
  append-ne-nil (x ∷ xs) o h = cc

  end_if_full-Tracks :
      (w : Option String) (s : Run)
      → Tracks j.adapter_id c0 w s
      → GoingTracks j.adapter_id c0 w (end_if_full j s)
  end_if_full-Tracks w s t = elim (Bool-cases (leb j.size (length s.batch))) [
    | inl full ↦ simp full (end_batch-Tracks w s t)
    | inr room ↦ simp room t
  ]

  take_result-Tracks :
      (w : Option String) (r : RawRecord) (res : Result NormalizedObservation) (s : Run)
      → Tracks j.adapter_id c0 w s
      → GoingTracks j.adapter_id c0 (cursor_kept res r.cursor w) (take_result j r res s)
  unfolding take_result add_observation
  take_result-Tracks w r (ok o) s t =
      end_if_full-Tracks (or_else r.cursor w) (add_observation o r.cursor s) (record {
        at = ap (or_else r.cursor) t.at;
        db = t.db;
        row = t.row;
        next = or_else_newer r.cursor w t.db c0 t.next;
        idle = λ e. absurd (append-ne-nil s.batch o e);
      })
  take_result-Tracks w r (err (record_error reason name)) s t = record {
    at = t.at;
    db = t.db;
    row = t.row;
    next = t.next;
    idle = t.idle;
  }
  take_result-Tracks w r (err e) s t = tt

  and_then-Tracks :
      (w w' : Option String) (out : Outcome) (next : Run → Outcome)
      → GoingTracks j.adapter_id c0 w out
      → ((s : Run) → Tracks j.adapter_id c0 w s → GoingTracks j.adapter_id c0 w' (next s))
      → GoingTracks j.adapter_id c0 w' (and_then out next)
  and_then-Tracks w w' (going s) next t later = later s t
  and_then-Tracks w w' (raised e s) next t later = tt

  ingest_records-Tracks :
      (rs : List RawRecord) (w : Option String) (s : Run)
      → Tracks j.adapter_id c0 w s
      → GoingTracks j.adapter_id c0 (watermark j rs w) (ingest_records j rs s)
  unfolding ingest_records
  ingest_records-Tracks [] w s t = t
  ingest_records-Tracks (r ∷ rs) w s t =
      and_then-Tracks (cursor_kept (normalize j.py j.spec r.payload j.hasher) r.cursor w)
        (watermark j (r ∷ rs) w) (ingest_record j r s) (ingest_records j rs)
        (unfold ingest_record in
          take_result-Tracks w r (normalize j.py j.spec r.payload j.hasher) (fetched_one s)
            (record { at = t.at; db = t.db; row = t.row; next = t.next; idle = t.idle }))
        (λ s' t'.
          ingest_records-Tracks rs
            (cursor_kept (normalize j.py j.spec r.payload j.hasher) r.cursor w) s' t')

  abbrev GoingRow : Option String → Outcome → Type 0
  GoingRow w (going s) = cursor_of j.adapter_id s.state.adapters ≡ some (or_else w c0)
  GoingRow w (raised e s) = Unit

  end_batch-row :
      (w : Option String) (s : Run) → Tracks j.adapter_id c0 w s → GoingRow w (end_batch j s)
  unfolding end_batch flush
  end_batch-row w s t = elim (Bool-cases (j.commits s.acc.batches)) [
    | inl commits ↦ simp (wet, commits) (ground (arith, commit-row w s t))
    | inr rolled_back ↦ simp (wet, rolled_back) tt
  ]

  last_batch-row :
      (w : Option String) (os : List NormalizedObservation) (s : Run)
      → s.batch ≡ os
      → Tracks j.adapter_id c0 w s
      → GoingRow w (last_batch j os s)
  unfolding last_batch
  last_batch-row w [] s e t = t.row ∙ ap some (t.idle e)
  last_batch-row w (o ∷ os) s e t = end_batch-row w s t

  finish-row :
      (w : Option String) (fails : Bool) (out : Outcome)
      → GoingTracks j.adapter_id c0 w out
      → GoingRow w (finish j fails out)
  unfolding finish
  finish-row w true (going s) t = tt
  finish-row w false (going s) t = last_batch-row w s.batch s refl t
  finish-row w _ (raised e s) t = tt

-- A run that writes, advances the cursor and ends without an exception leaves as `last_cursor` of its adapter the
-- cursor of the last record that normalised and had one, and the old cursor where there is none.
pub pump-cursor :
    (j : Job) (source : Fetch) (c c0 : Option String) (state : State) (s : Run)
    → j.advance_cursor ≡ true
    → j.dry_run ≡ false
    → cursor_of j.adapter_id state.adapters ≡ some c0
    → pump j source c state ≡ going s
    → cursor_of j.adapter_id s.state.adapters ≡ some (or_else (watermark j source.records none) c0)
unfolding pump
pump-cursor j source c c0 state s advances wet registered e =
    let w = watermark j source.records none in
    subst (GoingRow j c0 advances wet w) e (
      finish-row j c0 advances wet w source.fails (ingest_records j source.records (start state c))
        (ingest_records-Tracks j c0 advances wet source.records none (start state c)
          (record { at = refl; db = c0; row = registered; next = refl; idle = λ h. refl })))
