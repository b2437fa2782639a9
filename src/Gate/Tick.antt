-- ===== src/Gate/Tick.antt =====
-- runner.py: `tick`, the sweep of every minute. Each run has a world of its own, and the runs are listed
-- by the time at which they started.
pub mod Recovers
use fde_agent_platform.Prelude.{
  ℕ, suc, ◌+◌, Bool, not, ◌&&◌, List, [], ◌∷◌, length, is_some, if◌then◌else◌,
}
use fde_agent_platform.Gate.Workflow.Tables.{Run, can_begin, has_open}
use fde_agent_platform.Gate.Workflow.Transitions.{Done, done, ◌>>=◌}
use fde_agent_platform.Gate.Workflow.Operations.{overdue, timeout_steps}
use fde_agent_platform.Gate.Runner.{
  World, Outcome, envelope, no_executor, conflict, sql_error, advance,
}

-- `wf.timeout_steps`, over all runs in one transaction: an exception undoes all of it.
unfoldable pub sweep_all : ℕ → List (World × Run) → Done (List (World × Run))
sweep_all now [] = done []
sweep_all now ((w, r) ∷ runs) = do
  t ← timeout_steps w.steps now r
  ts ← sweep_all now runs
  done ((w, t) ∷ ts)

-- How many attempts the sweep fails.
abbrev pub count_overdue : ℕ → List (World × Run) → ℕ
count_overdue now [] = 0
count_overdue now ((w, r) ∷ runs) =
    length (overdue w.steps now r.run_steps) + count_overdue now runs

-- The condition on a run that `tick` advances.
unfoldable pub is_idle : Run → Bool
is_idle r = can_begin r.status && is_some r.current_step_id && not (has_open r.run_steps)

-- `advanced.append(..)`: a run that `advance` raises on is logged and left out.
abbrev pub note : Outcome → List Outcome → List Outcome
note (envelope status executed detail) rest = envelope status executed detail ∷ rest
note (no_executor kind) rest = rest
note (conflict e) rest = rest
note (sql_error e) rest = rest

pub record Tick : Type 0 where
  pub timed_out : ℕ
  pub idle_runs : ℕ
  pub advanced : List Outcome
  pub runs : List (World × Run)

-- The idle runs that are advanced, up to a limit.
unfoldable pub advance_idle : ℕ → List (World × Run) → Tick
unfolding is_idle
advance_idle n [] = record { timed_out = 0; idle_runs = 0; advanced = []; runs = [] }
advance_idle ℕ.zero ((w, r) ∷ runs) = record {
  timed_out = 0;
  idle_runs = 0;
  advanced = [];
  runs = (w, r) ∷ runs;
}
advance_idle (suc n) ((w, r) ∷ rest) =
    let taken = advance_idle n rest in
    let left = advance_idle (suc n) rest in
    let (t, outcome) = advance w r in
    if is_idle r
    then record taken {
      idle_runs = taken.idle_runs + 1;
      advanced = note outcome taken.advanced;
      runs = (w, t) ∷ taken.runs;
    }
    else record left { runs = (w, r) ∷ left.runs }

-- `_MAX_RUNS_PER_TICK`
abbrev pub max_runs_per_tick : ℕ
max_runs_per_tick = 25

-- `tick`
unfoldable pub tick : ℕ → List (World × Run) → Done Tick
unfolding sweep_all advance_idle
tick now runs = do
  swept ← sweep_all now runs
  done (record (advance_idle max_runs_per_tick swept) { timed_out = count_overdue now runs })
