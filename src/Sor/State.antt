-- ===== src/Sor/State.antt =====
-- packages/fde-sor: the settings, the rows of `sor.adapter` and `sor.observation` that the package
-- reads and writes, and what a process keeps. adapters/base.py has `AdapterRow` and `RawRecord`.
use fde_agent_platform.Prelude.{ℕ, String, Bool, Option, List}
use fde_agent_platform.Python.Value.{Fields}
use fde_agent_platform.Sor.Mapping.Normalize.{NormalizedObservation}

-- The settings that the package reads; an empty text is unset.
pub record SorSettings : Type 0 where
  pub batch_size : ℕ
  pub max_record_errors : ℕ
  pub actor_hash_salt : Option String
  pub actor_salt_secret_prefix : String
  pub alert_topic_arn : Option String

pub record AdapterRow : Type 0 where
  pub adapter_id : ℕ
  pub engagement_id : String
  pub adapter_key : String
  pub system_node_key : String
  pub kind : String
  pub secret_arn : Option String
  pub mapping : Fields
  pub last_cursor : Option String
  pub poll_cron : Option String
  pub is_active : Bool

pub record RawRecord : Type 0 where
  pub payload : Fields
  pub cursor : Option String
  pub ref : Option String

-- What an adapter yields before it ends, and whether it ends by raising.
pub record Fetch : Type 0 where
  pub records : List RawRecord
  pub fails : Bool

-- `acking` is `isinstance(adapter, AckingAdapter)`.
pub record SorAdapter : Type 0 where
  pub fetch : Option String → Fetch
  pub acking : Bool

-- A row of `sor.adapter`: what `AdapterRow` shows of it, and `last_synced_at`.
pub record StoredAdapter : Type 0 where
  pub row : AdapterRow
  pub open row use *
  pub last_synced_at : Option ℕ

-- A row of `sor.observation`.
pub record StoredObservation : Type 0 where
  pub engagement : String
  pub adapter : ℕ
  pub observation : NormalizedObservation

-- The two tables, the clock of the database (`now()`), the salt cache of the process, and the cursors
-- that the adapter was told are committed.
pub record State : Type 0 where
  pub observations : List StoredObservation
  pub adapters : List StoredAdapter
  pub clock : ℕ
  pub salt_cache : List (String × String)
  pub acked : List (Option String)
