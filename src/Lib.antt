-- ===== src/Lib.antt =====
-- FDE Agent Platform: the ingestion of a system of record's events (packages/fde-sor), the runs of
-- workflows and the forms of the gate (packages/fde-gate, db/013), the wait of an agent for a person
-- (packages/fde-agents), the embedding queue (packages/fde-mcp) and the reward terms of agent training
-- (packages/fde-training), as functions and theorems on them.
--
-- The parts and the files that model them. Paths are from the repository's root; `fde_sor` stands for
-- packages/fde-sor/src/fde_sor and `rewards` for packages/fde-training/src/fde_training/rewards.
--   Prelude, Python: the shared names, integers, and what Python's strings and JSON values do.
--   Sor.Errors, Sor.Stdlib, Sor.State: exceptions as values, the parts of Python's library that are
--     parameters, and the tables `sor.observation` and `sor.adapter`, the salt cache and the calls of
--     `on_batch_committed` (fde_sor/adapters/base.py).
--   Sor.Mapping: fde_sor/mapping.py. Path is `resolve_path`, Numbers `_parse_timestamp` and
--     `_parse_duration`, Spec `MappingSpec.parse`, Normalize `compute_dedup_key` and `normalize`.
--   Sor.Hashing: fde_sor/hashing.py, from the salt to the fail-closed `resolve_actor_hasher`.
--   Sor.Ingest: fde_sor/observations.py. `pump` is the loop of `ingest` from the first fetch on, Entry
--     what stands around it, and Table holds the two SQL statements that one transaction sends.
--   Sor.Stream: fde_sor/adapters/event_stream.py (`decode_sqs_body`, `decode_sqs_records`,
--     `StaticRecordAdapter`; Polling is `SqsPollingAdapter`), and `consume_sqs_batch` of
--     fde_sor/lambda_handlers.py.
--   Sor.Replay: fde_sor/adapters/replay.py. Sor.Registry: fde_sor/registry.py, with PostgreSQL's LIKE written
--     out. Sor.Detectors: fde_sor/detectors.py, and `active_engagement_ids` of the registry.
--   Sor.Handlers: fde_sor/lambda_handlers.py and fde_sor/backfill.py, the entry points over the tables.
--   Training.Episode: rewards/_episode.py, the parser of transcripts; Retrieved is `retrieved_keys`.
--   Training.Rewards.Efficiency: `r_hop_efficiency` of rewards/efficiency.py, for one episode.
--   Training.Rewards.Grounding: `r_grounded` of rewards/grounding.py, for one episode.
--   Training.Rewards.Validity: `r_format` and `r_schema_valid` of rewards/validity.py, for one episode.
--   Training.Rewards.Outcome: `_f1` of rewards/outcome.py.
--   Training.Compose: `compose_rewards` of rewards/__init__.py. Training.Monitor: rewards/monitor.py.
--   Gate.Workflow: db/006 and db/013. Tables are wf.step, wf.run and wf.run_step; Transitions and Operations
--     the procedures on one run, from `wf.start_run` to `wf.timeout_steps`, with `Op` for any of them and
--     `Reach` for the runs that they lead to. Stack, Consistent, Reach, Safety and Heals are proofs.
--   Gate.Runner, Gate.Tick: packages/fde-gate/src/fde_gate/runner.py, `advance` and `tick`. Interleaved,
--     Reports, Rounds, Finishes, Stale, Exhausted, GivesUp and Tick.Recovers are proofs.
--   Gate.Forms: packages/fde-gate/src/fde_gate/forms.py. Schema is `fields_from_schema`, Read
--     `values_from_form`; Typed, Whole and Options are proofs.
--   Agents.Hitl: packages/fde-agents/src/fde_agents/common/hitl.py.
--   Mcp.Embedder: packages/fde-mcp/src/fde_mcp/embedder_worker.py; Verbalise is the text of a subject.
-- A handler decodes its batch, loads the adapter's row and calls `ingest`, which parses the row's mapping,
-- resolves the hasher, and then normalises and commits what the adapter yields. A reward term parses the
-- transcript and scores the log. `advance` executes a run step by step, between a transaction that opens an
-- attempt and one that settles it, and `tick` first has the database fail what is overdue; an operator
-- answers a parked step by a form that the step's schema gives.
--
-- How the code is read. An exception is a value (`err`, `raised`, or `none` where the callers make no
-- difference); a run that an exception ends keeps the state that it had reached. A fetch is the list of
-- the records that it yields, and whether it raises after the last. A float is a whole number of
-- millionths, or not finite: `round` is to even, and the range of `datetime` is kept. Scores are
-- fractions, without the rounding of floats. Most loops are over lists. `advance` runs its 50 rounds, the
-- source's own bound. The wait for a gate has a bound on its polls, and its theorem names one that is
-- enough; the worker is run for a number of rounds, and its theorem says how many drain the queue.
--
-- A run of a workflow is one record: its row, and its attempts, the newest first, numbered within the run.
-- A transaction is a function that returns the new run or the exception, which leaves the run as it
-- was. What other processes do on the run before each round loads it and around its first transaction
-- is any list of such transactions, given for each round. A run's steps do not change, a run given to `advance` exists,
-- and a lost connection is not modelled.
--
-- Parameters: `Stdlib` (SHA-256, HMAC, which texts have a UTF-8 encoding, `str` of a value, ISO-8601,
-- `float` of a text, JSON), `Secrets` (Secrets Manager), `commits` (which transactions commit), `acks`
-- (which calls of `on_batch_committed` return), how many delete calls of a commit SQS takes, `Json`, `canonical` and `lower` (JSON
-- texts and `str.lower`), `Builders` (the live adapters), the lines of an export, `Services` (the SQL
-- detectors, SNS, the clock and the order of texts of the database), the table of reward functions that are
-- composed, the executors of the kinds of steps and the clock of each round, `Python` (`lower`, `str`,
-- `float` and `splitlines` of the forms), the polls and the growth of the delay, the embedding service
-- and the tables that the worker reads. What a theorem relies on of them is among its hypotheses.
--
-- Not modelled: logging, threads and locks, the HTTP and replication pollers, the command line, the
-- executors, services and pages of the gate, the agents' runtimes, the MCP tools, the training runs,
-- the database's other procedures and the deployment code. Of db/013, `publish_workflow` and the
-- procedures of proposals are left out; of the runner, `default_invoker` and `expiry_sweep`. Of
-- fde_sor, `list_adapters` is left out; of the rewards, the terms on retrieval quality, citation
-- format and cost.
pub mod Prelude
pub mod Python
pub mod Sor
pub mod Training
pub mod Gate
pub mod Mcp
pub mod Agents
