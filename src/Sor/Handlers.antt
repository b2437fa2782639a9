-- ===== src/Sor/Handlers.antt =====
-- packages/fde-sor/src/fde_sor/lambda_handlers.py and backfill.py: the entry points of the Lambdas. The state
-- holds the tables; the lines of an export are a parameter.
pub mod Inactive
pub mod Watermarks
use fde_agent_platform.Prelude.{String, Bool, true, false, none, List, [], ◌∷◌, elem, if◌then◌else◌}
use fde_agent_platform.Python.Value.{Value, Fields, str, obj, end, field, get, get_or, truthy, bool}
use fde_agent_platform.Sor.Errors.{Result, ok, err}
use fde_agent_platform.Sor.Mapping.Spec.{MappingSpec, parse}
use fde_agent_platform.Sor.Mapping.Normalize.{to_text}
use fde_agent_platform.Sor.State.{AdapterRow, SorAdapter, State}
use fde_agent_platform.Sor.Ingest.{IngestStats}
use fde_agent_platform.Sor.Ingest.Entry.{World, ingest}
use fde_agent_platform.Sor.Replay.{replay_adapter}
use fde_agent_platform.Sor.Registry.{Builders, load_adapter, load_adapter_by_queue, build_adapter}
use fde_agent_platform.Sor.Stream.{consume_sqs_batch_with}

-- What a handler returns.
pub data Reply : Type 0 where
  stats : IngestStats → Reply
  skipped : String → Reply
  missing unknown : List String → Reply

abbrev pub replied : Result IngestStats × State → Result Reply × State
replied (ok s, state) = (ok (stats s), state)
replied (err e, state) = (err e, state)

-- `_unwrap`
abbrev pub nested_or : Value → Fields → Fields
nested_or (obj args) event = args
nested_or _ event = event

unfoldable pub unwrap_event : Fields → Fields
unwrap_event event =
    nested_or (get event "arguments")
      (nested_or (get event "input") (nested_or (get event "body") event))

-- `_require`
abbrev pub require : Fields → List String → List String
require args [] = []
require args (name ∷ names) =
    let rest = require args names in if truthy (get args name) then rest else name ∷ rest

module _ (w : World) (b : Builders) where
  abbrev pub poll_built : AdapterRow → Bool → State → Result SorAdapter → Result Reply × State
  poll_built row dry_run state (err e) = (err e, state)
  poll_built row dry_run state (ok adapter) = replied (
      ingest w adapter row (record { batch_size = none; dry_run = dry_run; advance_cursor = true })
        state)

  abbrev pub poll_row : Bool → State → Result AdapterRow → Result Reply × State
  poll_row dry_run state (err e) = (err e, state)
  poll_row dry_run state (ok row) =
      if row.is_active
      then poll_built row dry_run state (build_adapter b row none none)
      else (ok (skipped row.adapter_key), state)

  -- `poll`
  unfoldable pub poll : String → String → Bool → State → Result Reply × State
  unfolding build_adapter ingest load_adapter
  poll engagement key dry_run state =
      poll_row dry_run state (load_adapter engagement key state.adapters)

  abbrev pub poll_args : Fields → List String → State → Result Reply × State
  poll_args args [] state =
      poll (to_text w.py (get args "engagement_id")) (to_text w.py (get args "adapter_key"))
        (truthy (get_or args "dry_run" (bool false))) state
  poll_args args (name ∷ names) state = (ok (missing (name ∷ names)), state)

  unfoldable pub poll_handler : Fields → State → Result Reply × State
  unfolding poll unwrap_event
  poll_handler event state =
      let args = unwrap_event event in
      poll_args args (require args ("engagement_id" ∷ "adapter_key" ∷ [])) state

-- `BACKFILL_PARAMS`
abbrev pub backfill_params : List String
backfill_params = "engagement_id" ∷ "adapter_key" ∷ "s3_uri" ∷ "dry_run" ∷ []

-- `set(args) - set(BACKFILL_PARAMS)`, unsorted.
abbrev pub unknown_params : Fields → List String
unknown_params end = []
unknown_params (field name v rest) =
    let others = unknown_params rest in if elem name backfill_params then others else name ∷ others

module _ (w : World) (lines : String → List String) where
  abbrev pub backfill_row : String → Bool → State → Result AdapterRow → Result IngestStats × State
  backfill_row uri dry_run state (err e) = (err e, state)
  backfill_row uri dry_run state (ok row) =
      ingest w (replay_adapter w.py (lines uri)) (record row { last_cursor = none })
        (record { batch_size = none; dry_run = dry_run; advance_cursor = false }) state

  -- `backfill`
  unfoldable pub backfill : String → String → String → Bool → State → Result IngestStats × State
  unfolding ingest load_adapter replay_adapter
  backfill engagement key uri dry_run state =
      backfill_row uri dry_run state (load_adapter engagement key state.adapters)

  abbrev pub backfill_args : Fields → List String → List String → State → Result Reply × State
  backfill_args args [] [] state = replied (
      backfill (to_text w.py (get args "engagement_id")) (to_text w.py (get args "adapter_key"))
        (to_text w.py (get args "s3_uri")) (truthy (get_or args "dry_run" (bool false))) state)
  backfill_args args [] (name ∷ names) state = (ok (unknown (name ∷ names)), state)
  backfill_args args (name ∷ names) others state = (ok (missing (name ∷ names)), state)

  unfoldable pub backfill_handler : Fields → State → Result Reply × State
  unfolding backfill unwrap_event
  backfill_handler event state =
      let args = unwrap_event event in
      backfill_args args (require args ("engagement_id" ∷ "adapter_key" ∷ "s3_uri" ∷ []))
        (unknown_params args) state

module _ (w : World) where
  abbrev pub consume_parsed :
      List Fields → State → AdapterRow → Result MappingSpec → Result (List String) × State
  consume_parsed sqs_records state row (err e) = (err e, state)
  consume_parsed sqs_records state row (ok spec) =
      let (reply, after) = consume_sqs_batch_with w row spec sqs_records state in (ok reply, after)

  abbrev pub consume_row : List Fields → State → Result AdapterRow → Result (List String) × State
  consume_row sqs_records state (err e) = (err e, state)
  consume_row sqs_records state (ok row) = consume_parsed sqs_records state row (parse row.mapping)

  -- `consume_sqs_batch`: the ids of the messages to retry.
  unfoldable pub consume_sqs_batch : List Fields → State → Result (List String) × State
  unfolding load_adapter_by_queue consume_sqs_batch_with parse
  consume_sqs_batch [] state = (ok [], state)
  consume_sqs_batch (r ∷ rs) state =
      consume_row (r ∷ rs) state
        (load_adapter_by_queue (to_text w.py (get_or r "eventSourceARN" (str ""))) state.adapters)
