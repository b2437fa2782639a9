-- ===== src/Sor/Ingest/Whole.antt =====
-- observations.py: `ingest` as a whole.
use fde_agent_platform.Prelude.{◌+◌, false, Option, none, some, String, length, ◌≡◌, refl, ◌∙◌, ap}
use fde_agent_platform.Sor.Errors.{ok, err, salt_unavailable}
use fde_agent_platform.Sor.Mapping.Spec.{MappingSpec, parse}
use fde_agent_platform.Sor.Mapping.Normalize.{Hasher}
use fde_agent_platform.Sor.State.{AdapterRow, SorAdapter, State}
use fde_agent_platform.Sor.Hashing.{SaltCache, resolve_salt, resolve_actor_hasher}
use fde_agent_platform.Sor.Hashing.Closed.{resolve_salt-none}
use fde_agent_platform.Sor.Ingest.{IngestStats, pump}
use fde_agent_platform.Sor.Ingest.Entry.{World, Options, job_of, returned, stats_of, ingest}
use fde_agent_platform.Sor.Ingest.Table.{insert_rows, rowcount}
use fde_agent_platform.Sor.Ingest.Follows.{observed}
use fde_agent_platform.Sor.Ingest.Total.{IsClean}
use fde_agent_platform.Sor.Ingest.Exact.{pump-Stores}

module _ (w : World) (adapter : SorAdapter) (row : AdapterRow) (options : Options)
    (state : State) where
  pub ingest-pump :
      (spec : MappingSpec) (hasher : Option Hasher) (cache : SaltCache)
      → parse row.mapping ≡ ok spec
      → resolve_actor_hasher w.py w.settings w.secrets spec row.engagement_id state.salt_cache
        ≡ (ok hasher, cache)
      → ingest w adapter row options state
        ≡ returned row options (
            pump
              (job_of w adapter row options spec hasher)
              (adapter.fetch row.last_cursor)
              row.last_cursor
              (record state { salt_cache = cache }))
  unfolding ingest
  ingest-pump spec hasher cache parsed resolved = rw parsed (rw resolved refl)

  -- `ingest` that writes and that nothing interrupts returns, has fetched every record of the source, and
  -- leaves the table with each observation that the records normalise to inserted once, whatever the batch
  -- size; it counts as inserted the rows that were new and as duplicates the other observations.
  pub ingest_exact :
      (spec : MappingSpec) (hasher : Option Hasher) (cache : SaltCache)
      → parse row.mapping ≡ ok spec
      → resolve_actor_hasher w.py w.settings w.secrets spec row.engagement_id state.salt_cache
        ≡ (ok hasher, cache)
      → options.dry_run ≡ false
      → IsClean (job_of w adapter row options spec hasher) (adapter.fetch row.last_cursor)
      → let os =
          observed
            (job_of w adapter row options spec hasher)
            (adapter.fetch row.last_cursor).records in
        (stats : IngestStats) × (after : State) × (ingest w adapter row options state
          ≡ (ok stats, after))
        × (after.observations ≡ insert_rows row.engagement_id row.adapter_id state.observations os)
        × (stats.fetched ≡ length (adapter.fetch row.last_cursor).records)
        × (stats.inserted ≡ rowcount row.engagement_id row.adapter_id state.observations os)
        × (stats.inserted + stats.duplicates ≡ length os)
  unfolding job_of
  ingest_exact spec hasher cache parsed resolved wet clean =
      let j = job_of w adapter row options spec hasher in
      let source = adapter.fetch row.last_cursor in
      let (s, e, stores) =
        pump-Stores j source row.last_cursor (record state { salt_cache = cache }) wet clean in
      (
        stats_of row options s.acc,
        s.state,
        ingest-pump spec hasher cache parsed resolved ∙ ap (returned row options) e,
        stores.table,
        stores.fetched,
        stores.inserted,
        stores.counted,
      )

  -- Where the mapping has an actor path and no salt resolves, `ingest` raises `SaltUnavailableError` and
  -- leaves the state as it is, whatever the adapter would yield.
  pub ingest_without_salt :
      (spec : MappingSpec) (path : String)
      → parse row.mapping ≡ ok spec
      → spec.actor_field ≡ some path
      → (resolve_salt w.settings w.secrets row.engagement_id state.salt_cache).0 ≡ none
      → ingest w adapter row options state ≡ (err (salt_unavailable row.engagement_id), state)
  unfolding ingest resolve_actor_hasher
  ingest_without_salt spec path parsed declared no_salt = rw parsed (
      rw declared (
        rw no_salt (
          rw (resolve_salt-none w.settings w.secrets row.engagement_id state.salt_cache no_salt)
            refl)))
