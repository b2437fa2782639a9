-- ===== src/Sor/Handlers/Inactive.antt =====
-- lambda_handlers.py: an adapter that an operator has disabled is not polled.
use fde_agent_platform.Prelude.{String, Bool, Option, none, some, ◌≡◌, refl}
use fde_agent_platform.Sor.Errors.{Result, ok, err, adapter_not_found}
use fde_agent_platform.Sor.State.{AdapterRow, State}
use fde_agent_platform.Sor.Ingest.Entry.{World}
use fde_agent_platform.Sor.Registry.{Builders, found, find_adapter, load_adapter, disable_adapter}
use fde_agent_platform.Sor.Registry.Disabled.{inactive, find_adapter-disable_adapter}
use fde_agent_platform.Sor.Handlers.{Reply, skipped, poll_row, poll}

-- The reply for an adapter that is not polled: it is skipped, or there is none.
abbrev pub unpolled : String → Option AdapterRow → Result Reply
unpolled key none = err (adapter_not_found key)
unpolled key (some row) = ok (skipped row.adapter_key)

module _ (w : World) (b : Builders) where
  poll_row-inactive :
      (key : String) (dry_run : Bool) (state : State) (o : Option AdapterRow)
      → poll_row w b dry_run state (found key (inactive o)) ≡ (unpolled key o, state)
  poll_row-inactive key dry_run state none = refl
  poll_row-inactive key dry_run state (some row) = refl

  -- A poll of an adapter that has been disabled replies that it is skipped, or raises `AdapterNotFoundError`
  -- where there was none, and leaves the state as it is, whatever the adapter would yield: the
  -- observations, every row of `sor.adapter` with its watermark, the salt cache and the cursors
  -- acknowledged.
  pub poll_disabled :
      (engagement key : String) (dry_run : Bool) (state : State)
      → let after = record state { adapters = disable_adapter engagement key state.adapters } in
        poll w b engagement key dry_run after
        ≡ (unpolled key (find_adapter engagement key state.adapters), after)
  unfolding poll load_adapter
  poll_disabled engagement key dry_run state =
      rw (find_adapter-disable_adapter engagement key state.adapters) (
        poll_row-inactive key dry_run
          (record state { adapters = disable_adapter engagement key state.adapters })
          (find_adapter engagement key state.adapters))
