-- ===== src/Gate/Runner/Reports.antt =====
-- runner.py: what the envelope of `advance` says of the run.
use fde_agent_platform.Prelude.{String, true, ◌||◌, none, some, ◌≡◌}
use fde_agent_platform.Gate.Workflow.Tables.{
  RunStatus, awaiting_human, running, Step, Run, is_terminal, is_awaiting,
}
use fde_agent_platform.Gate.Workflow.Transitions.{Done, done, raise}
use fde_agent_platform.Gate.Runner.{
  World, Detail, no_detail, has_no_current_step, budget_exhausted, executing_asynchronously,
  Outcome, envelope, no_executor, conflict, sql_error, Round, stop, go, is_slow, load_step,
}

-- The step that is left to the Lambda: the run's current one, of a slow kind.
pub record IsHandedOver (w : World) (r : Run) (key : String) : Type 0 where
  pub step : Step
  pub current : load_step w.steps r ≡ some step
  pub named : step.step_key ≡ key
  pub slow : is_slow step.kind ≡ true
  pub invoked : w.has_invoker ≡ true

-- What an envelope says of the run that is left, for each of its details.
abbrev pub Says : World → Run → RunStatus → Detail → Type 0
Says w r status no_detail =
    (r.status ≡ status) × ((is_terminal status || is_awaiting status) ≡ true)
Says w r status has_no_current_step = (r.status ≡ status) × (load_step w.steps r ≡ none)
Says w r status (executing_asynchronously key) = (status ≡ running) × IsHandedOver w r key
Says w r status budget_exhausted = status ≡ running

abbrev pub IsReport : World → Run × Outcome → Type 0
IsReport w (r, envelope status executed detail) = Says w r status detail
IsReport w (r, no_executor kind) = Unit
IsReport w (r, conflict error) = Unit
IsReport w (r, sql_error error) = Unit

abbrev Stops : World → Round → Type 0
Stops w (stop r outcome) = IsReport w (r, outcome)
Stops w (go r executed) = Unit

abbrev IsParked : Done Run → Type 0
IsParked (done t) = t.status ≡ awaiting_human
IsParked (raise e) = Unit
