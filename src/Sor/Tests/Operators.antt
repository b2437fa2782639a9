-- ===== src/Sor/Tests/Operators.antt =====
-- The theorems on the registry, the replay and the handlers at concrete inputs.
use fde_agent_platform.Prelude.{
  String, true, false, none, some, List, [], ◌∷◌, ◌++◌, ◌≡◌, refl, inl, inr,
}
use fde_agent_platform.Python.Text.{int_of_text, strip}
use fde_agent_platform.Python.Text.Split.{joined}
use fde_agent_platform.Python.Value.{Fields, str, obj, end, field}
use fde_agent_platform.Sor.Errors.{ok}
use fde_agent_platform.Sor.Stdlib.{Stdlib}
use fde_agent_platform.Sor.Ingest.Invariants.{cursors}
use fde_agent_platform.Sor.Replay.{replay_adapter}
use fde_agent_platform.Sor.Replay.Resumes.{replay_resumes}
use fde_agent_platform.Sor.Registry.{
  Builders, Registration, disable_adapter, like_from, name_pattern,
}
use fde_agent_platform.Sor.Registry.Queues.{name_pattern-Covers}
use fde_agent_platform.Sor.Handlers.{skipped, poll, backfill_handler}
use fde_agent_platform.Sor.Handlers.Inactive.{poll_disabled}
use fde_agent_platform.Sor.Handlers.Watermarks.{backfill_handler-cursors}
use fde_agent_platform.Sor.Tests.{toy, mapping}
use fde_agent_platform.Sor.Tests.Runs.{state, world, adapter}

abbrev builders : Builders
builders = record {
  rest_poll = λ spec. λ arn. adapter;
  event_stream = λ config. adapter;
  db_cdc = λ config. λ arn. λ dsn. adapter;
  replay = λ uri. adapter;
}

poll_disabled_example :
    poll world builders "e" "k" false
      (record state { adapters = disable_adapter "e" "k" state.adapters })
    ≡ (ok (skipped "k"), record state { adapters = disable_adapter "e" "k" state.adapters })
poll_disabled_example = poll_disabled world builders "e" "k" false state

abbrev event : Fields
event =
    field "input"
      (obj (
        field "engagement_id" (str "e")
          (field "adapter_key" (str "k") (field "s3_uri" (str "f") end))))
      end

backfill_handler-cursors_example :
    cursors (backfill_handler world (λ uri. "good" ∷ []) event state).1.adapters ≡ some "0" ∷ []
backfill_handler-cursors_example = backfill_handler-cursors world (λ uri. "good" ∷ []) event state

abbrev registration : Registration
registration = record {
  engagement_id = "e";
  adapter_key = "new";
  system_node_key = "sys:crm";
  kind = "event_stream";
  mapping = mapping;
  secret_arn = none;
  poll_cron = none;
}

abbrev counting : Stdlib
counting = record toy { repr = λ v. "0" }

abbrev export : List String
export = "good" ∷ "bad" ∷ "good" ∷ []

replay_resumes_example :
    ((replay_adapter counting export).fetch none).records
    ≡ ((replay_adapter counting ("good" ∷ [])).fetch none).records
      ++ ((replay_adapter counting export).fetch (some "0")).records
unfolding int_of_text strip
replay_resumes_example = replay_resumes counting export 0 refl

-- The name `a_b` also matches the url of a queue `a-b`.
name_pattern-Covers_example :
    like_from false (name_pattern "a_b") (joined "/" "https://sqs/1" "a-b") ≡ true
name_pattern-Covers_example =
    name_pattern-Covers "a_b" "https://sqs/1" "a-b"
      (inl (refl, refl), (inr refl, (inl (refl, refl), refl)))
