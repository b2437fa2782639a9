-- ===== src/Sor/Stream/Polling.antt =====
-- adapters/event_stream.py: `SqsPollingAdapter`, as the messages that it takes from the queue and the
-- commits of which `ingest` tells it. A message holds a `ReceiptHandle`, as SQS documents.
pub mod Receipts
use fde_agent_platform.Prelude.{
  ℕ, suc, String, Option, none, some, List, [], ◌∷◌, ◌++◌, take, length,
}
use fde_agent_platform.Python.Value.{Fields, str, get, get_or}
use fde_agent_platform.Sor.Stdlib.{Stdlib}
use fde_agent_platform.Sor.Mapping.Normalize.{to_text}
use fde_agent_platform.Sor.State.{RawRecord}
use fde_agent_platform.Sor.Stream.{decode_sqs_body, optional_id}

-- The messages that `fetch` goes through: responses of the queue, until one is empty or `max_batches` are
-- received.
unfoldable pub received : Option ℕ → List (List Fields) → List Fields
received max_batches [] = []
received (some ℕ.zero) (messages ∷ responses) = []
received max_batches ([] ∷ responses) = []
received none ((m ∷ ms) ∷ responses) = (m ∷ ms) ++ received none responses
received (some (suc n)) ((m ∷ ms) ∷ responses) = (m ∷ ms) ++ received (some n) responses

-- The receipts of one call of `delete_message_batch`: SQS has deleted their messages, or the call raised
-- or was not made, because one before it raised.
pub data Call : Type 0 where
  deleted abandoned : List String → Call

-- `_pending_receipts`, and the calls.
pub record Poller : Type 0 where
  pub pending : List String
  pub calls : List Call

abbrev pub drop : ℕ → List String → List String
drop ℕ.zero xs = xs
drop (suc n) [] = []
drop (suc n) (x ∷ xs) = drop n xs

-- `entries[start : start + 10]`, for as many calls as there are entries at most.
unfoldable pub chunks : ℕ → List String → List (List String)
chunks calls [] = []
chunks ℕ.zero (x ∷ xs) = []
chunks (suc calls) (x ∷ xs) = take 10 (x ∷ xs) ∷ chunks calls (drop 10 (x ∷ xs))

-- The calls of one commit, of which SQS takes the first `n`.
unfoldable pub outcomes : ℕ → List (List String) → List Call
outcomes n [] = []
outcomes ℕ.zero (chunk ∷ rest) = abandoned chunk ∷ outcomes 0 rest
outcomes (suc n) (chunk ∷ rest) = deleted chunk ∷ outcomes n rest

-- `on_batch_committed`, which empties `_pending_receipts` before its calls. It raises where SQS takes fewer
-- calls than there are.
unfoldable pub on_batch_committed : ℕ → Poller → Poller
unfolding chunks outcomes
on_batch_committed n p = record {
  pending = [];
  calls = p.calls ++ outcomes n (chunks (length p.pending) p.pending);
}

module _ (py : Stdlib) (stream_config : Fields) where
  abbrev pub receipt : Fields → String
  receipt message = to_text py (get message "ReceiptHandle")

  abbrev pub decoded : Fields → Option Fields
  decoded message = decode_sqs_body py (to_text py (get_or message "Body" (str ""))) stream_config

  abbrev pub note_receipt : Option Fields → String → Poller → Poller
  note_receipt none handle p = p
  note_receipt (some payload) handle p = record p { pending = p.pending ++ handle ∷ [] }

  abbrev pub yielded : Option Fields → String → List RawRecord
  yielded none id = []
  yielded (some payload) id =
      record { payload = payload; cursor = optional_id id; ref = some id } ∷ []

  -- One message of `fetch`: the receipt that it notes, and the record that it yields.
  unfoldable pub take_message : Fields → Poller → List RawRecord × Poller
  unfolding decode_sqs_body
  take_message message p = (
    yielded (decoded message) (to_text py (get_or message "MessageId" (str ""))),
    note_receipt (decoded message) (receipt message) p,
  )

  -- What happens to the adapter in runs of `ingest`; with a commit, how many calls SQS takes.
  pub data Event : Type 0 where
    message : Fields → Event
    committed : ℕ → Event

  unfoldable pub run_events : List Event → Poller → Poller
  unfolding take_message on_batch_committed
  run_events [] p = p
  run_events (message m ∷ events) p = run_events events (take_message m p).1
  run_events (committed n ∷ events) p = run_events events (on_batch_committed n p)
