-- ===== src/Gate/Tick/Recovers.antt =====
-- runner.py: the sweep brings a run whose process has gone back to a state that `advance` finishes.
use mathlib.Core.Path.{subst}
use fde_agent_platform.Prelude.{
  ℕ, ◌+◌, ◌≤◌, ◌<◌, true, false, Option, some, List, ◌≡◌, refl, sym, arith, leb, All,
}
use fde_agent_platform.Python.Value.{Fields}
use fde_agent_platform.Gate.Workflow.Tables.{
  running, retry, Step, RunStep, Run, is_running, find_step,
}
use fde_agent_platform.Gate.Workflow.Transitions.{
  done, fail_step, locked, on_failed, set_error, with_row,
}
use fde_agent_platform.Gate.Workflow.Operations.{
  after, timed_out, fail_overdue, timeout_steps, Reach,
}
use fde_agent_platform.Gate.Workflow.Stack.{tip, update_open, tip-Settled, Settled-has_open}
use fde_agent_platform.Gate.Workflow.Consistent.{
  IsConsistent, fail_step-IsConsistent, set_error-Keeps, running-open, open-at, at,
}
use fde_agent_platform.Gate.Workflow.Reach.{Reach-IsConsistent}
use fde_agent_platform.Gate.Workflow.Heals.{find-tip, overdue-tip}
use fde_agent_platform.Gate.Runner.{World, advance, max_steps_per_advance}
use fde_agent_platform.Gate.Runner.Rounds.{IsReady, Succeeds}
use fde_agent_platform.Gate.Runner.Finishes.{Finished, advance-finishes, count_after}

-- An attempt that is running, of a step that is retried, overdue at `now`, and not the last one.
pub record IsStranded (steps : List Step) (now : ℕ) (r : Run) (row : RunStep) (s : Step)
    : Type 0 where
  pub newest : tip r.run_steps ≡ some row
  pub unfinished : is_running row.status ≡ true
  pub known : find_step steps row.step_id ≡ some s
  pub keyed : row.step_id ≡ s.step_id
  pub tries : s.on_failure ≡ retry
  pub late : row.started_at + s.timeout_seconds < now
  pub attempts_left : leb 3 row.attempt ≡ false

module _ (steps : List Step) (now : ℕ) (r : Run) (row : RunStep) (s : Step)
    (consistent : IsConsistent r) (stranded : IsStranded steps now r row s) where
  abbrev error : Fields
  error = timed_out steps now s.timeout_seconds

  abbrev recovered : Run
  recovered = record (with_row r row.run_step_id (set_error steps now error)) { status = running }

  fail_step-recovered : fail_step steps now r row.run_step_id error 3 ≡ done recovered
  unfolding fail_step locked on_failed
  fail_step-recovered =
      rw
        (
          find-tip r.run_steps row stranded.newest,
          stranded.unfinished,
          stranded.known,
          stranded.tries,
          stranded.attempts_left,
        )
        refl

  pub timeout_steps-recovered : timeout_steps steps now r ≡ done recovered
  unfolding timeout_steps fail_overdue
  timeout_steps-recovered =
      rw
        (overdue-tip steps now r.next_run_step_id r.run_steps row s consistent.stacked
          stranded.newest stranded.unfinished stranded.known stranded.late)
        fail_step-recovered

  pub recovered-IsReady : IsReady recovered s
  recovered-IsReady =
      let live = running-open row.status stranded.unfinished in
      let found = find-tip r.run_steps row stranded.newest in
      let (_, stack, top, _) =
        update_open r.next_run_step_id r.run_steps row.run_step_id row (set_error steps now error)
          consistent.stacked found live (set_error-Keeps steps now error) in
      record {
        consistent =
            fail_step-IsConsistent steps now r recovered row.run_step_id error 3 consistent
              fail_step-recovered;
        cursor = at-some r.current_step_id s.step_id (
            subst (λ i. at r.current_step_id i ≡ true) stranded.keyed
              (open-at steps now r row consistent stranded.newest live));
        idle = Settled-has_open recovered.next_run_step_id recovered.run_steps (
            tip-Settled recovered.next_run_step_id recovered.run_steps
              (set_error steps now error row) stack top refl);
        live = refl;
      }
    where
      at-some : (cursor : Option ℕ) (i : ℕ) → at cursor i ≡ true → cursor ≡ some i
      at-some cursor i h = ground arith

-- A run that transactions have led to, and whose process has gone in the middle of a step that is retried, in a workflow with distinct step
-- ids: once the attempt is overdue, and is not the step's third or a later one, the sweep followed by
-- `advance` leaves the run succeeded, when nobody else works on it, every step now has an executor that
-- returns without a jump, and at most 48 steps follow.
pub swept-finishes :
    (w : World) (now id : ℕ) (input : Fields) (first : ℕ) (r : Run) (row : RunStep) (s : Step)
    → All (λ (t : Step). find_step w.steps t.step_id ≡ some t) w.steps
    → ((n : ℕ) (t : Step) (q : Run)
        → find_step w.steps t.step_id ≡ some t
        → (fields : Fields) × Succeeds w n t q fields)
    → Reach w.steps id input first r
    → IsStranded w.steps now r row s
    → count_after w.steps s.ordinal + 2 ≤ max_steps_per_advance
    → Finished (advance w (after r (timeout_steps w.steps now r)))
swept-finishes w now id input first r row s known works h stranded few =
    let c = Reach-IsConsistent w.steps id input first h in
    subst (λ d. Finished (advance w (after r d)))
      (sym (timeout_steps-recovered w.steps now r row s c stranded))
      (advance-finishes w known works (recovered w.steps now r row s c stranded) s
        (recovered-IsReady w.steps now r row s c stranded)
        (subst (λ i. find_step w.steps i ≡ some s) stranded.keyed stranded.known) few)
