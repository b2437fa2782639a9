-- ===== src/Sor/Tests/Runs.antt =====
-- Concrete runs of `ingest`, and its theorems at them.
use fde_agent_platform.Prelude.{
  take, ltb, ℕ, ◌+◌, String, true, false, none, some, List, [], ◌∷◌, length, or_else, ◌≡◌, refl,
}
use fde_agent_platform.Python.Value.{end}
use fde_agent_platform.Sor.Errors.{ok}
use fde_agent_platform.Sor.Mapping.Spec.{read_spec, parse}
use fde_agent_platform.Sor.Mapping.Normalize.{normalize}
use fde_agent_platform.Sor.State.{SorSettings, AdapterRow, RawRecord, Fetch, SorAdapter, State}
use fde_agent_platform.Sor.Hashing.{resolve_actor_hasher}
use fde_agent_platform.Sor.Ingest.{Job, Run, going, IngestStats, pump}
use fde_agent_platform.Sor.Ingest.Entry.{World, Options, job_of, ingest}
use fde_agent_platform.Sor.Ingest.Table.{insert_rows, rowcount}
use fde_agent_platform.Sor.Ingest.Follows.{observed, run_of}
use fde_agent_platform.Sor.Ingest.Committed.{Committed, pump-Committed}
use fde_agent_platform.Sor.Ingest.Total.{IsClean}
use fde_agent_platform.Sor.Ingest.Exact.{resume_after_crash}
use fde_agent_platform.Sor.Ingest.Whole.{ingest_exact}
use fde_agent_platform.Sor.Ingest.Cursor.{cursor_of, watermark, pump-cursor}
use fde_agent_platform.Sor.Tests.{toy, tally, mapping, with_actor, record_of}

abbrev pub settings : SorSettings
settings = record {
  batch_size = 2;
  max_record_errors = 1;
  actor_hash_salt = none;
  actor_salt_secret_prefix = "salt/";
  alert_topic_arn = none;
}

abbrev raw : String → ℕ → RawRecord
raw key at = record { payload = record_of key at; cursor = some key; ref = some key }

-- The third record has no case, and the fourth repeats the first.
abbrev records : List RawRecord
records =
    raw "A" 1
    ∷ raw "B" 2
    ∷ record { payload = end; cursor = some "C"; ref = some "C" }
    ∷ raw "A" 1
    ∷ []

abbrev pub source : Fetch
source = record { records = records; fails = false }

abbrev pub adapter : SorAdapter
adapter = record { fetch = λ c. source; acking = true }

abbrev pub row : AdapterRow
row = record {
  adapter_id = 4;
  engagement_id = "e";
  adapter_key = "k";
  system_node_key = "sys:jira";
  kind = "event_stream";
  secret_arn = none;
  mapping = mapping;
  last_cursor = some "0";
  poll_cron = none;
  is_active = true;
}

abbrev pub state : State
state = record {
  observations = [];
  adapters = record { row = row; last_synced_at = none } ∷ [];
  clock = 9;
  salt_cache = [];
  acked = [];
}

abbrev pub world : World
world = record {
  py = toy;
  settings = settings;
  secrets = λ name. none;
  commits = λ n. true;
  acks = λ n. true;
}

abbrev options : Options
options = record { batch_size = none; dry_run = false; advance_cursor = true }

abbrev pub job : Job
job = record {
  py = toy;
  spec = read_spec mapping;
  hasher = none;
  adapter_id = 4;
  engagement_id = "e";
  size = 2;
  limit = 1;
  dry_run = false;
  advance_cursor = true;
  acking = true;
  commits = λ n. true;
  acks = λ n. true;
}

job-IsClean : IsClean job source
unfolding normalize read_spec
job-IsClean = record {
  commits = λ n. refl;
  acks = λ n. refl;
  ends = refl;
  normal = (tt, (tt, (tt, (tt, tt))));
}

job_of-job : job_of world adapter row options (read_spec mapping) none ≡ job
unfolding job_of
job_of-job = refl

ingest_exact_example :
    let os = observed (job_of world adapter row options (read_spec mapping) none) records in
    (stats : IngestStats) × (after : State) × (ingest world adapter row options state
      ≡ (ok stats, after))
    × (after.observations ≡ insert_rows "e" 4 [] os)
    × (stats.fetched ≡ 4)
    × (stats.inserted ≡ rowcount "e" 4 [] os)
    × (stats.inserted + stats.duplicates ≡ length os)
unfolding parse resolve_actor_hasher job_of
ingest_exact_example =
    ingest_exact world adapter row options state (read_spec mapping) none [] refl refl refl
      job-IsClean

-- Two rows are new; the repeated one is a duplicate.
counts : (run_of (pump job source none state)).acc.inserted ≡ 2
unfolding pump insert_rows rowcount read_spec tally
counts = refl

pump-Committed_example : Committed job [] source (pump job source none state)
pump-Committed_example = pump-Committed job source none state refl

-- The first run fetches three records of the four, in batches of one, and its second commit fails.
abbrev crashing : Fetch
crashing = record { records = take 3 records; fails = true }

abbrev crashing_job : Job
crashing_job = record job { size = 1; commits = λ n. ltb n 1; acks = λ n. false }

resume_after_crash_example :
    (s : Run) × (pump job source none (run_of (pump crashing_job crashing none state)).state
      ≡ going s)
    × (s.state.observations ≡ insert_rows "e" 4 [] (observed job records))
resume_after_crash_example =
    resume_after_crash crashing_job job crashing source none none (raw "A" 1 ∷ []) state refl refl
      (record { py = refl; spec = refl; hasher = refl; adapter_id = refl; engagement_id = refl })
      refl job-IsClean

abbrev secret_row : AdapterRow
secret_row = record row { mapping = with_actor }

abbrev dry_job : Job
dry_job = record job { dry_run = true }

abbrev backfill_job : Job
backfill_job = record job { advance_cursor = false }

pump-cursor_example :
    cursor_of 4 (run_of (pump job source none state)).state.adapters
    ≡ some (or_else (watermark job records none) (some "0"))
unfolding pump insert_rows rowcount read_spec tally
pump-cursor_example =
    pump-cursor job source none (some "0") state (run_of (pump job source none state)) refl refl
      refl refl
