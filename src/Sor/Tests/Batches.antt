-- ===== src/Sor/Tests/Batches.antt =====
-- Concrete batches of SQS messages, and the theorems on `consume_sqs_batch` at them.
use fde_agent_platform.Prelude.{String, none, List, [], ◌∷◌, ◌≡◌, refl, inl}
use fde_agent_platform.Python.Value.{Fields, str, end, field}
use fde_agent_platform.Sor.Mapping.Spec.{read_spec, parse}
use fde_agent_platform.Sor.Hashing.{resolve_actor_hasher}
use fde_agent_platform.Sor.Ingest.Table.{insert_rows, rowcount}
use fde_agent_platform.Sor.Stream.{consume_sqs_batch_with, decode_sqs_body}
use fde_agent_platform.Sor.Stream.NoLoss.{Accounted, consume_sqs_batch_no_loss}
use fde_agent_platform.Sor.Stream.Polling.{Event, message, committed}
use fde_agent_platform.Sor.Tests.{mapping, tally}
use fde_agent_platform.Sor.Tests.Runs.{row, state, world}

abbrev sent : String → String → Fields
sent id body = field "messageId" (str id) (field "body" (str body) end)

-- One message is stored, one will not decode, and one will not normalise.
abbrev batch : List Fields
batch = sent "m1" "good" ∷ sent "m2" "bad" ∷ sent "m3" "poor" ∷ []

reply : (consume_sqs_batch_with world row (read_spec mapping) batch state).0 ≡ "m2" ∷ "m3" ∷ []
unfolding consume_sqs_batch_with parse resolve_actor_hasher decode_sqs_body insert_rows rowcount
    read_spec tally
reply = refl

consume_sqs_batch_no_loss_example :
    Accounted world row
      (read_spec mapping)
      none
      batch
      (sent "m1" "good")
      (consume_sqs_batch_with world row (read_spec mapping) batch state)
unfolding parse resolve_actor_hasher
consume_sqs_batch_no_loss_example =
    consume_sqs_batch_no_loss world row (read_spec mapping) none [] batch (sent "m1" "good") state
      refl refl (inl refl) refl

abbrev queued : String → String → Fields
queued handle body = field "ReceiptHandle" (str handle) (field "Body" (str body) end)

-- Messages that decode and one that does not, a commit whose call raises, and one whose call is taken.
abbrev events : List (Event world.py end)
events =
    message (queued "h1" "good")
    ∷ message (queued "h2" "bad")
    ∷ committed 0
    ∷ message (queued "h3" "good")
    ∷ committed 1
    ∷ []
