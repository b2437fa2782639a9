-- ===== src/Sor/Ingest/Table.antt =====
-- observations.py: `_INSERT_SQL` and `_ADVANCE_SQL` on the tables.
pub mod Keys
pub mod Counts
pub mod Unique
use fde_agent_platform.Prelude.{
  ℕ, ◌+◌, String, Bool, false, ◌&&◌, ◌||◌, Option, some, List, [], ◌∷◌, ◌++◌, ◌==◌, str_eq, or_else,
  if◌then◌else◌,
}
use fde_agent_platform.Sor.Mapping.Normalize.{NormalizedObservation}
use fde_agent_platform.Sor.State.{StoredObservation, StoredAdapter}

-- A row with that adapter and that key: a conflict in the unique index.
abbrev pub has_key : ℕ → String → List StoredObservation → Bool
has_key adapter key [] = false
has_key adapter key (x ∷ t) =
    (x.adapter == adapter && str_eq x.observation.dedup_key key) || has_key adapter key t

abbrev pub stored : String → ℕ → NormalizedObservation → StoredObservation
stored engagement adapter o = record { engagement = engagement; adapter = adapter; observation = o }

-- `ON CONFLICT ... DO NOTHING` for one row.
unfoldable pub insert_row :
    String → ℕ → List StoredObservation → NormalizedObservation → List StoredObservation
insert_row engagement adapter t o =
    if has_key adapter o.dedup_key t then t else t ++ stored engagement adapter o ∷ []

unfoldable pub insert_rows :
    String → ℕ → List StoredObservation → List NormalizedObservation → List StoredObservation
unfolding insert_row
insert_rows engagement adapter t [] = t
insert_rows engagement adapter t (o ∷ os) =
    insert_rows engagement adapter (insert_row engagement adapter t o) os

-- How many rows the statement inserts.
unfoldable pub rowcount : String → ℕ → List StoredObservation → List NormalizedObservation → ℕ
unfolding insert_row
rowcount engagement adapter t [] = 0
rowcount engagement adapter t (o ∷ os) =
    (if has_key adapter o.dedup_key t then 0 else 1)
    + rowcount engagement adapter (insert_row engagement adapter t o) os

-- `UPDATE sor.adapter SET last_cursor = COALESCE(cursor, last_cursor), last_synced_at = now()`
abbrev pub advance_row : ℕ → Option String → ℕ → StoredAdapter → StoredAdapter
advance_row adapter cursor now a =
    if a.adapter_id == adapter
    then record a {
      row = record a.row { last_cursor = or_else cursor a.last_cursor };
      last_synced_at = some now;
    }
    else a

unfoldable pub advance : ℕ → Option String → ℕ → List StoredAdapter → List StoredAdapter
advance adapter cursor now [] = []
advance adapter cursor now (a ∷ as') =
    advance_row adapter cursor now a ∷ advance adapter cursor now as'
