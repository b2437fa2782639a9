-- ===== src/Gate/Workflow/Heals.antt =====
-- db/013: an attempt that its process left behind is failed by the sweep, and the run goes on.
use mathlib.Core.Option.{none-ne-some}
use fde_agent_platform.Prelude.{
  ℕ, ◌+◌, ◌<◌, Bool, true, false, not, Option, none, some, List, [], ◌∷◌, ◌≡◌, refl, arith,
}
use fde_agent_platform.Python.Value.{Fields}
use fde_agent_platform.Gate.Workflow.Tables.{
  OnFailure, halt, retry, skip, escalate, Step, RunStep, Run, is_open, is_running, find_run_step,
  find_step,
}
use fde_agent_platform.Gate.Workflow.Transitions.{
  Done, done, raise, insert_run_step, fail_step, on_failed, locked, set_error, with_row,
  advance_cursor,
}
use fde_agent_platform.Gate.Workflow.Operations.{
  overdue, default_max_attempts, timed_out, fail_overdue, timeout_steps, Reach,
}
use fde_agent_platform.Gate.Workflow.Stack.{
  Stacked, tip, update_open, has_attempt-fresh, max_attempt-tip,
}
use fde_agent_platform.Gate.Workflow.Consistent.{running-open, set_error-Keeps}
use fde_agent_platform.Gate.Workflow.Reach.{Reach-IsConsistent}
use fde_agent_platform.Gate.Workflow.Safety.{Settled-overdue}

abbrev pub is_running_tip : Option RunStep → Bool
is_running_tip none = false
is_running_tip (some row) = is_running row.status

-- A transaction that commits and leaves no running attempt.
abbrev pub closes : Done Run → Bool
closes (raise e) = false
closes (done t) = not (is_running_tip (tip t.run_steps))

pub find-tip :
    (rows : List RunStep) (row : RunStep)
    → tip rows ≡ some row
    → find_run_step rows row.run_step_id ≡ some row
find-tip [] row t = absurd (none-ne-some _ t)
find-tip (r ∷ rows) row t = ground arith

module _ (steps : List Step) (now : ℕ) where
  pub overdue-tip :
      (n : ℕ) (rows : List RunStep) (row : RunStep) (s : Step)
      → Stacked n rows
      → tip rows ≡ some row
      → is_running row.status ≡ true
      → find_step steps row.step_id ≡ some s
      → row.started_at + s.timeout_seconds < now
      → overdue steps now rows ≡ (row.run_step_id, s.timeout_seconds) ∷ []
  overdue-tip n [] row s h t ok f late = absurd (none-ne-some _ t)
  overdue-tip n (r ∷ rows) row s h t ok f late =
      let rest = Settled-overdue steps now r.run_step_id rows h.2 in ground arith

  -- The transition succeeds whatever `on_failure` says, and leaves no running attempt.
  on_failed-closes :
      (way : OnFailure) (r : Run) (step : Step) (row shut : RunStep) (error : Fields) (n : ℕ)
      → Stacked r.next_run_step_id r.run_steps
      → tip r.run_steps ≡ some shut
      → is_open shut.status ≡ false
      → shut.step_id ≡ row.step_id
      → shut.attempt ≡ row.attempt
      → find_step steps row.step_id ≡ some step
      → closes (on_failed steps now way r step row error n) ≡ true
  unfolding on_failed advance_cursor insert_run_step
  on_failed-closes halt r step row shut error n h e c s a f = ground arith
  on_failed-closes retry r step row shut error n h e c s a f = ground arith
  on_failed-closes skip r step row shut error n h e c s a f = ground arith
  on_failed-closes escalate r step row shut error n h e c s a f =
      let top = max_attempt-tip r.next_run_step_id r.run_steps shut h e in
      let fresh = has_attempt-fresh r.run_steps row.step_id (row.attempt + 1) in ground arith

  fail_step-closes :
      (r : Run) (row : RunStep) (s : Step) (error : Fields) (n : ℕ)
      → Stacked r.next_run_step_id r.run_steps
      → tip r.run_steps ≡ some row
      → is_running row.status ≡ true
      → find_step steps row.step_id ≡ some s
      → closes (fail_step steps now r row.run_step_id error n) ≡ true
  unfolding fail_step locked
  fail_step-closes r row s error n h t ok f =
      let found = find-tip r.run_steps row t in
      let (_, stack, top, _) =
        update_open r.next_run_step_id r.run_steps row.run_step_id row (set_error steps now error) h
          found (running-open _ ok) (set_error-Keeps steps now error) in
      rw (found, ok, f)
        (on_failed-closes s.on_failure (with_row r row.run_step_id (set_error steps now error)) s
          row (set_error steps now error row) error n stack top refl refl refl f)

  -- A run that transactions have led to, whose newest attempt is of a step of the workflow and still
  -- running after its timeout, because its process has gone: the sweep succeeds and leaves the run
  -- without a running attempt at its end, whatever the step's `on_failure` says.
  pub timeout_steps-closes :
      (id : ℕ) (input : Fields) (first : ℕ) (r : Run) (row : RunStep) (s : Step)
      → Reach steps id input first r
      → tip r.run_steps ≡ some row
      → is_running row.status ≡ true
      → find_step steps row.step_id ≡ some s
      → row.started_at + s.timeout_seconds < now
      → closes (timeout_steps steps now r) ≡ true
  unfolding timeout_steps fail_overdue
  timeout_steps-closes id input first r row s h t ok f late =
      let c = Reach-IsConsistent steps id input first h in
      rw (overdue-tip r.next_run_step_id r.run_steps row s c.stacked t ok f late) (
        fail_step-closes r row s (timed_out steps now s.timeout_seconds)
          (default_max_attempts steps now) c.stacked t ok f)
