-- ===== src/Sor/Ingest/Entry.antt =====
-- observations.py: `ingest`, around its loop.
use fde_agent_platform.Prelude.{ℕ, Bool, Option, none, some, ◌==◌, if◌then◌else◌}
use fde_agent_platform.Sor.Errors.{Result, ok, err}
use fde_agent_platform.Sor.Stdlib.{Stdlib}
use fde_agent_platform.Sor.Mapping.Spec.{MappingSpec, parse}
use fde_agent_platform.Sor.Mapping.Normalize.{Hasher}
use fde_agent_platform.Sor.State.{SorSettings, AdapterRow, SorAdapter, State}
use fde_agent_platform.Sor.Hashing.{Secrets, resolve_actor_hasher}
use fde_agent_platform.Sor.Ingest.{IngestStats, Accumulator, Job, Outcome, going, raised, pump}

-- The keyword arguments of `ingest`.
pub record Options : Type 0 where
  pub batch_size : Option ℕ
  pub dry_run : Bool
  pub advance_cursor : Bool

-- What stands outside the package.
pub record World : Type 0 where
  pub py : Stdlib
  pub settings : SorSettings
  pub secrets : Secrets
  pub commits : ℕ → Bool
  pub acks : ℕ → Bool

-- `batch_size or settings.batch_size`
abbrev pub size_of : Option ℕ → ℕ → ℕ
size_of none default = default
size_of (some n) default = if n == 0 then default else n

unfoldable pub job_of :
    World → SorAdapter → AdapterRow → Options → MappingSpec → Option Hasher → Job
job_of w adapter row options spec hasher = record {
  py = w.py;
  spec = spec;
  hasher = hasher;
  adapter_id = row.adapter_id;
  engagement_id = row.engagement_id;
  size = size_of options.batch_size w.settings.batch_size;
  limit = w.settings.max_record_errors;
  dry_run = options.dry_run;
  advance_cursor = options.advance_cursor;
  acking = adapter.acking;
  commits = w.commits;
  acks = w.acks;
}

abbrev pub stats_of : AdapterRow → Options → Accumulator → IngestStats
stats_of row options acc = record {
  adapter_key = row.adapter_key;
  fetched = acc.fetched;
  inserted = acc.inserted;
  duplicates = acc.duplicates;
  unmapped_activities = acc.unmapped_activities;
  batches = acc.batches;
  last_cursor = acc.last_cursor;
  record_errors = acc.record_errors;
  failed_refs = acc.failed_refs;
  dry_run = options.dry_run;
}

abbrev pub returned : AdapterRow → Options → Outcome → Result IngestStats × State
returned row options (going s) = (ok (stats_of row options s.acc), s.state)
returned row options (raised e s) = (err e, s.state)

-- From the parsed mapping and the resolved hasher on.
unfoldable pub ingest_with :
    World
    → SorAdapter
    → AdapterRow
    → Options
    → MappingSpec
    → Result (Option Hasher)
    → State
    → Result IngestStats × State
unfolding pump job_of
ingest_with w adapter row options spec (err e) state = (err e, state)
ingest_with w adapter row options spec (ok hasher) state = returned row options (
    pump (job_of w adapter row options spec hasher) (adapter.fetch row.last_cursor) row.last_cursor
      state)

unfoldable pub ingest_parsed :
    World
    → SorAdapter
    → AdapterRow
    → Options
    → Result MappingSpec
    → State
    → Result IngestStats × State
unfolding ingest_with resolve_actor_hasher
ingest_parsed w adapter row options (err e) state = (err e, state)
ingest_parsed w adapter row options (ok spec) state =
    let (hasher, cache) =
      resolve_actor_hasher w.py w.settings w.secrets spec row.engagement_id state.salt_cache in
    ingest_with w adapter row options spec hasher (record state { salt_cache = cache })

unfoldable pub ingest :
    World → SorAdapter → AdapterRow → Options → State → Result IngestStats × State
unfolding ingest_parsed parse
ingest w adapter row options state = ingest_parsed w adapter row options (parse row.mapping) state
