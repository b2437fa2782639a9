-- ===== src/Sor/Handlers/Watermarks.antt =====
-- backfill.py: a backfill leaves the watermarks of the live sources alone.
use fde_agent_platform.Prelude.{
  String, Bool, false, Option, none, List, [], ◌∷◌, ◌≡◌, refl, ◌∙◌, ap,
}
use fde_agent_platform.Python.Value.{Fields, get, get_or, truthy, bool}
use fde_agent_platform.Sor.Errors.{Result, ok, err}
use fde_agent_platform.Sor.Mapping.Spec.{MappingSpec, parse}
use fde_agent_platform.Sor.Mapping.Normalize.{Hasher, to_text}
use fde_agent_platform.Sor.State.{AdapterRow, SorAdapter, State}
use fde_agent_platform.Sor.Hashing.{resolve_actor_hasher}
use fde_agent_platform.Sor.Ingest.{Outcome, going, raised, IngestStats, pump}
use fde_agent_platform.Sor.Ingest.Entry.{
  World, Options, job_of, returned, ingest_with, ingest_parsed, ingest,
}
use fde_agent_platform.Sor.Ingest.Follows.{run_of}
use fde_agent_platform.Sor.Ingest.Invariants.{cursors, pump-cursors}
use fde_agent_platform.Sor.Registry.{load_adapter}
use fde_agent_platform.Sor.Replay.{replay_adapter}
use fde_agent_platform.Sor.Handlers.{
  replied, require, unknown_params, unwrap_event, backfill_row, backfill, backfill_args,
  backfill_handler,
}

returned-state :
    (row : AdapterRow) (options : Options) (out : Outcome)
    → (returned row options out).1 ≡ (run_of out).state
returned-state row options (going s) = refl
returned-state row options (raised e s) = refl

replied-cursors :
    (r : Result IngestStats × State) (cs : List (Option String))
    → cursors r.1.adapters ≡ cs
    → cursors (replied r).1.adapters ≡ cs
replied-cursors (ok s, state) cs h = h
replied-cursors (err e, state) cs h = h

module _ (w : World) (adapter : SorAdapter) (row : AdapterRow) (options : Options)
    (held : options.advance_cursor ≡ false) where
  ingest_with-cursors :
      (spec : MappingSpec) (h : Result (Option Hasher)) (state : State)
      → cursors (ingest_with w adapter row options spec h state).1.adapters ≡ cursors state.adapters
  unfolding ingest_with job_of
  ingest_with-cursors spec (err e) state = refl
  ingest_with-cursors spec (ok hasher) state =
      let j = job_of w adapter row options spec hasher in
      ap (λ (t : State). cursors t.adapters)
        (returned-state row options (pump j (adapter.fetch row.last_cursor) row.last_cursor state))
      ∙ pump-cursors j (adapter.fetch row.last_cursor) row.last_cursor state held

  ingest_parsed-cursors :
      (spec : Result MappingSpec) (state : State)
      → cursors (ingest_parsed w adapter row options spec state).1.adapters ≡ cursors state.adapters
  unfolding ingest_parsed
  ingest_parsed-cursors (err e) state = refl
  ingest_parsed-cursors (ok spec) state =
      let (h, cache) =
        resolve_actor_hasher w.py w.settings w.secrets spec row.engagement_id state.salt_cache in
      ingest_with-cursors spec h (record state { salt_cache = cache })

  ingest-cursors :
      (state : State)
      → cursors (ingest w adapter row options state).1.adapters ≡ cursors state.adapters
  unfolding ingest
  ingest-cursors state = ingest_parsed-cursors (parse row.mapping) state

module _ (w : World) (lines : String → List String) where
  backfill_row-cursors :
      (uri : String) (dry_run : Bool) (state : State) (r : Result AdapterRow)
      → cursors (backfill_row w lines uri dry_run state r).1.adapters ≡ cursors state.adapters
  backfill_row-cursors uri dry_run state (err e) = refl
  backfill_row-cursors uri dry_run state (ok row) =
      ingest-cursors w (replay_adapter w.py (lines uri)) (record row { last_cursor = none })
        (record { batch_size = none; dry_run = dry_run; advance_cursor = false }) refl state

  backfill-cursors :
      (engagement key uri : String) (dry_run : Bool) (state : State)
      → cursors (backfill w lines engagement key uri dry_run state).1.adapters
        ≡ cursors state.adapters
  unfolding backfill
  backfill-cursors engagement key uri dry_run state =
      backfill_row-cursors uri dry_run state (load_adapter engagement key state.adapters)

  backfill_args-cursors :
      (args : Fields) (absent others : List String) (state : State)
      → cursors (backfill_args w lines args absent others state).1.adapters ≡ cursors state.adapters
  backfill_args-cursors args (name ∷ names) others state = refl
  backfill_args-cursors args [] (name ∷ names) state = refl
  backfill_args-cursors args [] [] state =
      let engagement = to_text w.py (get args "engagement_id") in
      let key = to_text w.py (get args "adapter_key") in
      let uri = to_text w.py (get args "s3_uri") in
      let dry_run = truthy (get_or args "dry_run" (bool false)) in
      replied-cursors (backfill w lines engagement key uri dry_run state) (cursors state.adapters)
        (backfill-cursors engagement key uri dry_run state)

  -- Whatever event the backfill handler gets, and however its run ends, the watermark of every adapter is
  -- what it was.
  pub backfill_handler-cursors :
      (event : Fields) (state : State)
      → cursors (backfill_handler w lines event state).1.adapters ≡ cursors state.adapters
  unfolding backfill_handler
  backfill_handler-cursors event state =
      let args = unwrap_event event in
      backfill_args-cursors args (require args ("engagement_id" ∷ "adapter_key" ∷ "s3_uri" ∷ []))
        (unknown_params args) state
