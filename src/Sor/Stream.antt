-- ===== src/Sor/Stream.antt =====
-- packages/fde-sor/src/fde_sor/adapters/event_stream.py: `decode_sqs_body`, `decode_sqs_records` and
-- `StaticRecordAdapter`; lambda_handlers.py: `consume_sqs_batch`, from the adapter row on.
pub mod Failures
pub mod NoLoss
pub mod Polling
use fde_agent_platform.Prelude.{
  String, true, false, Option, none, some, List, [], ◌∷◌, ◌++◌, str_eq, if◌then◌else◌,
}
use fde_agent_platform.Python.Text.{is_empty}
use fde_agent_platform.Python.Value.{Value, Fields, str, obj, get, get_or, truthy}
use fde_agent_platform.Sor.Errors.{Result, ok, err}
use fde_agent_platform.Sor.Stdlib.{Stdlib}
use fde_agent_platform.Sor.Mapping.Path.{resolve_path}
use fde_agent_platform.Sor.Mapping.Spec.{MappingSpec}
use fde_agent_platform.Sor.Mapping.Normalize.{to_text}
use fde_agent_platform.Sor.State.{AdapterRow, RawRecord, SorAdapter, State}
use fde_agent_platform.Sor.Ingest.{IngestStats}
use fde_agent_platform.Sor.Ingest.Entry.{World, Options, ingest}

-- `none` is an `EventStreamError` or a `JSONDecodeError`, which the callers handle alike.
abbrev pub as_object : Value → Option Fields
as_object (obj fs) = some fs
as_object _ = none

abbrev pub loads : Stdlib → String → Option Fields
loads py text = elim (py.parse_json text) [ none ↦ none | some v ↦ as_object v ]

-- What stands under `Message`: JSON text, or an object.
abbrev pub inner_message : Stdlib → Value → Option Fields
inner_message py (str text) = loads py text
inner_message py v = as_object v

abbrev pub unwrap : Stdlib → Value → Fields → Option Fields
unwrap py (str envelope) parsed =
    if str_eq envelope "sns"
    then inner_message py (get parsed "Message")
    else if str_eq envelope "raw"
    then some parsed
    else none
unwrap py _ parsed = none

unfoldable pub at_record_path : Stdlib → Value → Fields → Option Fields
unfolding resolve_path
at_record_path py record_path parsed =
    if truthy record_path
    then as_object (resolve_path (obj parsed) (to_text py record_path))
    else some parsed

abbrev pub and_maybe : Option Fields → (Fields → Option Fields) → Option Fields
and_maybe none next = none
and_maybe (some fs) next = next fs

unfoldable pub decode_sqs_body : Stdlib → String → Fields → Option Fields
unfolding at_record_path
decode_sqs_body py body stream_config = and_maybe (loads py body) λ parsed.
    and_maybe (unwrap py (get_or stream_config "envelope" (str "raw")) parsed)
      λ unwrapped. at_record_path py (get stream_config "record_path") unwrapped

abbrev pub message_id : Stdlib → Fields → String
message_id py sqs_record = to_text py (get_or sqs_record "messageId" (str ""))

unfoldable pub decode_sqs_record : Stdlib → Fields → Fields → Option Fields
unfolding decode_sqs_body
decode_sqs_record py stream_config sqs_record =
    decode_sqs_body py (to_text py (get_or sqs_record "body" (str ""))) stream_config

abbrev pub optional_id : String → Option String
optional_id s = if is_empty s then none else some s

-- One message: a record, or the id of a message that will not decode.
abbrev pub sort_message :
    String → Option Fields → List RawRecord × List String → List RawRecord × List String
sort_message id none (records, failures) = (records, id ∷ failures)
sort_message id (some payload) (records, failures) =
    (record { payload = payload; cursor = optional_id id; ref = some id } ∷ records, failures)

unfoldable pub decode_sqs_records : Stdlib → Fields → List Fields → List RawRecord × List String
unfolding decode_sqs_record
decode_sqs_records py stream_config [] = ([], [])
decode_sqs_records py stream_config (r ∷ rs) =
    sort_message (message_id py r) (decode_sqs_record py stream_config r)
      (decode_sqs_records py stream_config rs)

abbrev pub static_records : List RawRecord → SorAdapter
static_records records = record {
  fetch = λ cursor. record { records = records; fails = false };
  acking = false;
}

-- `[{"itemIdentifier": mid} for mid in ids if mid]`
abbrev pub identified : List String → List String
identified [] = []
identified (id ∷ ids) = let rest = identified ids in if is_empty id then rest else id ∷ rest

abbrev pub all_ids : Stdlib → List Fields → List String
all_ids py [] = []
all_ids py (r ∷ rs) = message_id py r ∷ all_ids py rs

abbrev pub ingest_defaults : Options
ingest_defaults = record { batch_size = none; dry_run = false; advance_cursor = true }

-- The `batchItemFailures`, and the state that the call leaves.
abbrev pub batch_reply :
    Stdlib → List Fields → List String → Result IngestStats × State → List String × State
batch_reply py sqs_records undecodable (ok stats, state) =
    (identified (undecodable ++ stats.failed_refs), state)
batch_reply py sqs_records undecodable (err e, state) = (identified (all_ids py sqs_records), state)

unfoldable pub consume_sqs_batch_with :
    World → AdapterRow → MappingSpec → List Fields → State → List String × State
unfolding decode_sqs_records ingest
consume_sqs_batch_with w row spec sqs_records state =
    let (records, undecodable) = decode_sqs_records w.py spec.stream sqs_records in
    batch_reply w.py sqs_records undecodable
      (ingest w (static_records records) row ingest_defaults state)
