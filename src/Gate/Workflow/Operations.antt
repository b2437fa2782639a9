-- ===== src/Gate/Workflow/Operations.antt =====
-- db/013: the start of a run, the answer of an operator, the sweep of overdue attempts, and all
-- operations on one run as one type.
use fde_agent_platform.Prelude.{
  ℕ, ◌+◌, String, Bool, true, false, ◌&&◌, ◌||◌, Option, none, some, List, [], ◌∷◌, elem, ◌≡◌, ltb,
  str_eq, if◌then◌else◌,
}
use fde_agent_platform.Prelude.Int.{pos}
use fde_agent_platform.Python.Value.{Fields, end, field, str, obj, int}
use fde_agent_platform.Gate.Workflow.Tables.{
  pending, running, succeeded, Step, RunStep, Run, is_running, is_awaiting, is_human, earlier,
  find_step,
}
use fde_agent_platform.Gate.Workflow.Transitions.{
  not_awaiting, not_approvable, unknown_action, not_published, may_not_run, no_steps, Done, done,
  raise, locked, ◌>>=◌, or_raise, check, close, with_row, begin_step, complete_step, fail_step,
  await_human, cancel_run, advance_cursor,
}

-- wf.workflow, with its steps.
pub record Workflow : Type 0 where
  pub published : Bool
  pub runnable_by : List String
  pub steps : List Step

-- `a && b` on arrays: an element in common.
abbrev pub overlaps : List String → List String → Bool
overlaps [] ys = false
overlaps (x ∷ xs) ys = elem x ys || overlaps xs ys

abbrev pub is_empty_list : List String → Bool
is_empty_list [] = true
is_empty_list (x ∷ xs) = false

abbrev pub may_run : Workflow → String → List String → Bool
may_run w by groups =
    is_empty_list w.runnable_by || overlaps w.runnable_by groups || elem by w.runnable_by

-- `ORDER BY ordinal LIMIT 1`
abbrev pub first_step : List Step → Option Step
first_step [] = none
first_step (s ∷ steps) = some (earlier s (first_step steps))

abbrev pub new_run : ℕ → Fields → ℕ → Run
new_run id input first = record {
  run_id = id;
  status = pending;
  context = field "input" (obj input) end;
  current_step_id = some first;
  error = none;
  finished_at = none;
  run_steps = [];
  next_run_step_id = 1;
}

-- `wf.start_run`, with the number that the identity column of wf.run gives.
unfoldable pub start_run : Workflow → ℕ → String → Fields → List String → Done Run
start_run w id by input groups = do
  live ← check w.published not_published
  allowed ← check (may_run w by groups) may_not_run
  first ← or_raise (first_step w.steps) no_steps
  done (new_run id input first.step_id)

pub data Action : Type 0 where
  approve retry_step skip_step abort : Action

abbrev pub parse_action : String → Option Action
parse_action text =
    if str_eq text "approve"
    then some approve
    else if str_eq text "retry"
    then some retry_step
    else if str_eq text "skip"
    then some skip_step
    else if str_eq text "abort"
    then some abort
    else none

module _ (steps : List Step) (now : ℕ) where
  abbrev pub answer : String → Fields → RunStep → RunStep
  answer by response row = record row { human_response = some response; responded_by = some by }

  abbrev pub reopen : RunStep → RunStep
  reopen row = record row { status = running }

  -- The branches of `wf.respond_human`, once the answer is recorded.
  unfoldable pub on_answer : Action → Run → Step → ℕ → String → Fields → Done Run
  unfolding cancel_run complete_step advance_cursor
  on_answer abort r step id by response = cancel_run steps now r by
  on_answer approve r step id by response = do
    asked ← check (is_human step.kind) not_approvable
    complete_step steps now (with_row r id reopen) id (some response) none
  on_answer retry_step r step id by response =
      done (record (with_row r id (close now succeeded)) { status = running })
  on_answer skip_step r step id by response =
      advance_cursor steps now (with_row r id (close now succeeded)) step none

  -- `wf.respond_human`
  unfoldable pub respond_human : Run → ℕ → String → Fields → String → Done Run
  unfolding locked on_answer
  respond_human r id by response text = do
    action ← or_raise (parse_action text) (unknown_action text)
    locked steps now r id is_awaiting not_awaiting
        (λ row step. on_answer action (with_row r id (answer by response)) step id by response)

  -- `rs.status = 'running' AND rs.started_at + timeout < now()`
  abbrev pub is_overdue : RunStep → Option Step → Bool
  is_overdue row none = false
  is_overdue row (some s) = is_running row.status && ltb (row.started_at + s.timeout_seconds) now

  -- The ids that the sweep selects, the oldest attempt last.
  abbrev pub overdue : List RunStep → List (ℕ × ℕ)
  overdue [] = []
  overdue (row ∷ rows) =
      let rest = overdue rows in
      elim (find_step steps row.step_id) [
        | none ↦ rest
        | some s ↦
            if is_overdue row (some s) then (row.run_step_id, s.timeout_seconds) ∷ rest else rest
      ]

  -- The default of `p_max_attempts`, which the sweep leaves as it is.
  abbrev pub default_max_attempts : ℕ
  default_max_attempts = 3

  abbrev pub timed_out : ℕ → Fields
  timed_out seconds =
      field "error" (str "step timed out") (field "timeout_seconds" (int (pos seconds)) end)

  unfoldable pub fail_overdue : List (ℕ × ℕ) → Run → Done Run
  unfolding fail_step
  fail_overdue [] r = done r
  fail_overdue ((id, seconds) ∷ rest) r =
      fail_overdue rest r
      >>= (λ t. fail_step steps now t id (timed_out seconds) default_max_attempts)

  -- `wf.timeout_steps`, on the attempts of one run.
  unfoldable pub timeout_steps : Run → Done Run
  unfolding fail_overdue
  timeout_steps r = fail_overdue (overdue r.run_steps) r

-- A transaction on one run, whoever opens it.
pub data Op : Type 0 where
  begin sweep : Op
  complete : ℕ → Option Fields → Option String → Op
  fail : ℕ → Fields → ℕ → Op
  await : ℕ → Option String → Op
  cancel : String → Op
  respond : ℕ → String → Fields → String → Op

module _ (steps : List Step) (now : ℕ) where
  unfoldable pub apply : Op → Run → Done Run
  unfolding begin_step timeout_steps complete_step fail_step await_human cancel_run respond_human
  apply begin r = begin_step steps now r
  apply sweep r = timeout_steps steps now r
  apply (complete id output goto) r = complete_step steps now r id output goto
  apply (fail id error max_attempts) r = fail_step steps now r id error max_attempts
  apply (await id principal) r = await_human steps now r id principal
  apply (cancel by) r = cancel_run steps now r by
  apply (respond id by response action) r = respond_human steps now r id by response action

-- The runs that transactions lead to from a new one, each with a time of its own.
pub data Reach (steps : List Step) (id : ℕ) (input : Fields) (first : ℕ) : Run → Type 0 where
  started : Reach steps id input first (new_run id input first)
  next :
      {r : Run} (now : ℕ) (op : Op) (t : Run)
      → Reach steps id input first r
      → apply steps now op r ≡ done t
      → Reach steps id input first t

-- The run after a transaction: one that raises changes nothing.
abbrev pub after : Run → Done Run → Run
after r (done t) = t
after r (raise e) = r
