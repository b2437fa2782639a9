-- ===== src/Gate/Workflow/Transitions.antt =====
-- db/013: the transitions of a run. Each is one transaction: an exception leaves the run as it was.
use fde_agent_platform.Prelude.{
  ℕ, ◌+◌, String, Bool, true, false, not, Option, none, some, List, ◌∷◌, map, leb, if◌then◌else◌,
}
use fde_agent_platform.Python.Value.{Fields, end, field, Value, str, obj, put}
use fde_agent_platform.Gate.Workflow.Tables.{
  RunStatus, running, awaiting_human, succeeded, failed, cancelled, OnFailure, halt, retry, skip,
  escalate, Step, RunStep, Run, is_terminal, can_begin, is_running, is_human, find_step,
  step_of_key, next_step, find_run_step, update_run_step, has_open, max_attempt, has_attempt,
}

-- The sites that raise, and the two constraints of wf.run_step that an insert can break.
pub data SqlError : Type 0 where
  cannot_begin no_current_step open_step : SqlError
  run_step_not_found not_running not_awaiting : SqlError
  not_human not_approvable nothing_to_cancel : SqlError
  unknown_action unknown_step_key : String → SqlError
  not_published may_not_run no_steps : SqlError
  foreign_key unique_violation : SqlError

pub data Done (A : Type 0) : Type 0 where
  done : A → Done A
  raise : SqlError → Done A

infixl 5 ◌>>=◌
abbrev pub ◌>>=◌ : {A B : Type 0} → Done A → (A → Done B) → Done B
done a >>= f = f a
raise e >>= f = raise e

abbrev pub or_raise : {A : Type 0} → Option A → SqlError → Done A
or_raise none e = raise e
or_raise (some a) e = done a

abbrev pub check : Bool → SqlError → Done Unit
check true e = done tt
check false e = raise e

abbrev pub value_of : Option Fields → Value
value_of none = obj end
value_of (some fields) = obj fields

-- The defaults of the columns of a new row.
abbrev pub new_run_step : ℕ → ℕ → ℕ → ℕ → RunStatus → Fields → RunStep
new_run_step now id step attempt status input = record {
  run_step_id = id;
  step_id = step;
  attempt = attempt;
  status = status;
  input = input;
  output = none;
  error = none;
  awaiting_principal = none;
  human_response = none;
  responded_by = none;
  started_at = now;
  finished_at = none;
}

abbrev pub push : Run → RunStep → Run
push r row = record r { run_steps = row ∷ r.run_steps; next_run_step_id = r.next_run_step_id + 1 }

abbrev pub close : ℕ → RunStatus → RunStep → RunStep
close now status row = record row { status = status; finished_at = some now }

abbrev pub with_row : Run → ℕ → (RunStep → RunStep) → Run
with_row r id f = record r { run_steps = update_run_step r.run_steps id f }

abbrev pub fail_run : ℕ → Fields → Run → Run
fail_run now error r = record r { status = failed; error = some error; finished_at = some now }

-- The steps of the run's workflow, and `now()`.
module _ (steps : List Step) (now : ℕ) where
  -- `INSERT INTO wf.run_step`, with its foreign key and its UNIQUE constraint.
  unfoldable pub insert_run_step : Run → ℕ → ℕ → RunStatus → Fields → Done Run
  insert_run_step r step attempt status input = do
    found ← or_raise (find_step steps step) foreign_key
    free ← check (not (has_attempt r.run_steps step attempt)) unique_violation
    done (push r (new_run_step now r.next_run_step_id step attempt status input))

  abbrev pub finish_run : Run → Run
  finish_run r = record r { status = succeeded; current_step_id = none; finished_at = some now }

  abbrev pub move_to : Run → ℕ → Run
  move_to r step = record r { status = running; current_step_id = some step }

  abbrev pub advance_to : Run → Option Step → Run
  advance_to r none = finish_run r
  advance_to r (some next) = move_to r next.step_id

  -- `wf.advance_cursor`
  unfoldable pub advance_cursor : Run → Step → Option String → Done Run
  advance_cursor r from none = done (advance_to r (next_step steps from.ordinal))
  advance_cursor r from (some key) = do
    next ← or_raise (step_of_key steps key) (unknown_step_key key)
    done (move_to r next)

  -- `wf.begin_step`
  unfoldable pub begin_step : Run → Done Run
  unfolding insert_run_step
  begin_step r = do
    ready ← check (can_begin r.status) cannot_begin
    step ← or_raise r.current_step_id no_current_step
    free ← check (not (has_open r.run_steps)) open_step
    opened ← insert_run_step r step (max_attempt r.run_steps step + 1) running r.context
    done (record opened { status = running })

  -- What `complete_step`, `fail_step`, `await_human` and `respond_human` begin with: the row under its
  -- lock, the test of its status, and its step.
  unfoldable pub locked :
      Run → ℕ → (RunStatus → Bool) → SqlError → (RunStep → Step → Done Run) → Done Run
  locked r id test error body = do
    row ← or_raise (find_run_step r.run_steps id) run_step_not_found
    passed ← check (test row.status) error
    step ← or_raise (find_step steps row.step_id) foreign_key
    body row step

  abbrev pub succeed : Option Fields → RunStep → RunStep
  succeed output row = record row { status = succeeded; output = output; finished_at = some now }

  -- The two updates of `wf.complete_step`.
  abbrev pub completed : Run → ℕ → Step → Option Fields → Run
  completed r id step output = record r {
    run_steps = update_run_step r.run_steps id (succeed output);
    context = put r.context step.step_key (value_of output);
  }

  -- `wf.complete_step`
  unfoldable pub complete_step : Run → ℕ → Option Fields → Option String → Done Run
  unfolding locked advance_cursor
  complete_step r id output goto =
      locked r id is_running not_running
        (λ row step. advance_cursor (completed r id step output) step goto)

  abbrev pub set_error : Fields → RunStep → RunStep
  set_error error row = record row { status = failed; error = some error; finished_at = some now }

  -- The branches of `wf.fail_step` on `on_failure`.
  unfoldable pub on_failed : OnFailure → Run → Step → RunStep → Fields → ℕ → Done Run
  unfolding advance_cursor insert_run_step
  on_failed halt r step row error max_attempts = done (fail_run now error r)
  on_failed retry r step row error max_attempts =
      done (
        if leb max_attempts row.attempt
        then fail_run now error r
        else record r { status = running })
  on_failed skip r step row error max_attempts = advance_cursor r step none
  on_failed escalate r step row error max_attempts = do
    parked ←
        insert_run_step r row.step_id (row.attempt + 1) awaiting_human
          (field "escalated_error" (obj error) end)
    done (record parked { status = awaiting_human })

  -- `wf.fail_step`
  unfoldable pub fail_step : Run → ℕ → Fields → ℕ → Done Run
  unfolding locked on_failed
  fail_step r id error max_attempts = locked r id is_running not_running (λ row step.
      on_failed step.on_failure (with_row r id (set_error error)) step row error max_attempts)

  abbrev pub park : Option String → RunStep → RunStep
  park principal row = record row { status = awaiting_human; awaiting_principal = principal }

  -- `wf.await_human`
  unfoldable pub await_human : Run → ℕ → Option String → Done Run
  unfolding locked
  await_human r id principal = locked r id is_running not_running (λ row step. do
    asked ← check (is_human step.kind) not_human
    done (record (with_row r id (park principal)) { status = awaiting_human }))

  abbrev pub cancel_row : RunStep → RunStep
  cancel_row row = if is_terminal row.status then row else close now cancelled row

  -- `wf.cancel_run`
  unfoldable pub cancel_run : Run → String → Done Run
  cancel_run r by = do
    live ← check (not (is_terminal r.status)) nothing_to_cancel
    done (record r {
      run_steps = map cancel_row r.run_steps;
      status = cancelled;
      finished_at = some now;
      error = some (field "cancelled_by" (str by) end);
    })
