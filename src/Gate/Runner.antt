-- ===== src/Gate/Runner.antt =====
-- runner.py: `advance` drives one run forward in rounds of two transactions, with the step executed
-- between them. Other processes open transactions on the same run before each round loads it, and before
-- and after the first of the two.
pub mod Interleaved
pub mod Rounds
pub mod Finishes
pub mod Stale
pub mod Exhausted
pub mod GivesUp
pub mod Reports
use fde_agent_platform.Prelude.{
  ℕ, suc, String, Bool, true, false, ◌&&◌, ◌||◌, Option, none, some, List, [], ◌∷◌, ◌++◌,
  if◌then◌else◌,
}
use Prim.Native.String.{◌++◌ as ◌<>◌}
use fde_agent_platform.Python.Value.{Fields, end, field, Value, str, obj, get, has}
use fde_agent_platform.Python.Text.{is_empty}
use fde_agent_platform.Gate.Workflow.Tables.{
  RunStatus, awaiting_human, running, StepKind, agent, tool, human, decision, sor_write, notify,
  Step, RunStep, Run, is_terminal, is_awaiting, find_step,
}
use fde_agent_platform.Gate.Workflow.Transitions.{
  SqlError, Done, done, raise, begin_step, complete_step, fail_step, await_human,
}
use fde_agent_platform.Gate.Workflow.Operations.{Op, apply, after}

-- What `executor.execute` does: it returns an output, raises a `StepExecutionError` with its detail, or
-- raises something else, of a type and with a text.
pub data Execution : Type 0 where
  output : Fields → Execution
  step_error : Fields → Execution
  crashed : String → String → Execution

-- What surrounds `advance`. A round is named by the number of rounds left.
pub record World : Type 0 where
  pub steps : List Step
  pub max_step_attempts : ℕ
  pub executors : StepKind → Option (Step → Run → Execution)
  pub has_invoker : Bool
  pub py_str : Value → String
  pub clock : ℕ → ℕ
  pub before_load : ℕ → List (ℕ × Op)
  pub before_begin : ℕ → List (ℕ × Op)
  pub after_begin : ℕ → List (ℕ × Op)

abbrev pub run_ops : List Step → List (ℕ × Op) → Run → Run
run_ops steps [] r = r
run_ops steps ((now, op) ∷ ops) r = run_ops steps ops (after r (apply steps now op r))

-- The entries of `executed`.
pub data Executed : Type 0 where
  parked : String → Executed
  failed_step : String → StepKind → Fields → Executed
  succeeded_step : String → StepKind → Option String → Executed

pub data Detail : Type 0 where
  no_detail has_no_current_step budget_exhausted : Detail
  executing_asynchronously : String → Detail

pub data Outcome : Type 0 where
  envelope : RunStatus → List Executed → Detail → Outcome
  no_executor : StepKind → Outcome
  conflict : SqlError → Outcome
  sql_error : SqlError → Outcome

pub data Round : Type 0 where
  stop : Run → Outcome → Round
  go : Run → List Executed → Round

-- `_SLOW_KINDS`
abbrev pub is_slow : StepKind → Bool
is_slow agent = true
is_slow tool = true
is_slow _ = false

abbrev pub kind_text : StepKind → String
kind_text agent = "agent"
kind_text tool = "tool"
kind_text human = "human"
kind_text decision = "decision"
kind_text sor_write = "sor_write"
kind_text notify = "notify"

abbrev pub text_or_none : Value → Option String
text_or_none (str s) = if is_empty s then none else some s
text_or_none _ = none

-- `_assignee`
unfoldable pub assignee : Step → Option String
assignee s = elim s.human_schema [ obj schema ↦ text_or_none (get schema "assignee") | _ ↦ none ]

abbrev pub branch_text : (Value → String) → Value → String
branch_text py_str (str s) = s
branch_text py_str v = py_str v

-- `str(output["branch"]) if kind == "decision" and "branch" in output else None`
unfoldable pub goto_of : (Value → String) → StepKind → Fields → Option String
goto_of py_str decision fields =
    if has fields "branch" then some (branch_text py_str (get fields "branch")) else none
goto_of py_str _ fields = none

abbrev pub crash_detail : StepKind → String → String → Fields
crash_detail kind type text =
    field "error" (str ("executor raised " <> type <> ": " <> text))
      (field "kind" (str (kind_text kind)) end)

-- The current step that `_load` finds.
unfoldable pub load_step : List Step → Run → Option Step
load_step steps r = elim r.current_step_id [ none ↦ none | some id ↦ find_step steps id ]

-- The number of the row that `wf.begin_step` returns.
abbrev pub opened_id : List RunStep → ℕ
opened_id [] = 0
opened_id (row ∷ rows) = row.run_step_id

-- The second transaction of a round, which may raise.
abbrev pub settle : Run → Done Run → List Executed → Executed → Round
settle r (raise e) executed entry = stop r (sql_error e)
settle r (done t) executed entry = go t (executed ++ (entry ∷ []))

module _ (w : World) (n : ℕ) where
  -- `_fail_step`
  abbrev pub fail_with : Run → ℕ → List Executed → Step → Fields → Round
  fail_with r id executed s error =
      settle r (fail_step w.steps (w.clock n) r id error w.max_step_attempts) executed
        (failed_step s.step_key s.kind error)

  -- What follows the execution of step `s` under the attempt `id`.
  unfoldable pub conclude : Execution → Run → ℕ → List Executed → Step → Round
  unfolding goto_of
  conclude (output fields) r id executed s =
      let goto = goto_of w.py_str s.kind fields in
      settle r (complete_step w.steps (w.clock n) r id (some fields) goto) executed
        (succeeded_step s.step_key s.kind goto)
  conclude (step_error detail) r id executed s = fail_with r id executed s detail
  conclude (crashed type text) r id executed s =
      fail_with r id executed s (crash_detail s.kind type text)

  -- The attempt is open in `opened`; `loaded` is the run that the executor is given.
  unfoldable pub execute_open : (Step → Run → Execution) → Run → Run → List Executed → Step → Round
  unfolding conclude
  execute_open execute loaded opened executed s =
      conclude (execute s loaded) (run_ops w.steps (w.after_begin n) opened)
        (opened_id opened.run_steps) executed s

  abbrev pub parked_round : Run → Done Run → List Executed → Step → Round
  parked_round r (raise e) executed s = stop r (sql_error e)
  parked_round r (done t) executed s =
      stop t (envelope awaiting_human (executed ++ (parked s.step_key ∷ [])) no_detail)

  unfoldable pub park_open : Run → List Executed → Step → Round
  unfolding assignee
  park_open opened executed s =
      let r = run_ops w.steps (w.after_begin n) opened in
      parked_round r (await_human w.steps (w.clock n) r (opened_id opened.run_steps) (assignee s))
        executed s

  -- `_begin_step`, on the run as the others have left it.
  abbrev pub begun : Run → Done Run → (Run → Round) → Round
  begun r (raise e) body = stop r (conflict e)
  begun r (done t) body = body t

  unfoldable pub execute_step : Option (Step → Run → Execution) → Run → List Executed → Step → Round
  unfolding execute_open
  execute_step none loaded executed s = stop loaded (no_executor s.kind)
  execute_step (some execute) loaded executed s =
      let r = run_ops w.steps (w.before_begin n) loaded in
      begun r (begin_step w.steps (w.clock n) r)
        (λ opened. execute_open execute loaded opened executed s)

  unfoldable pub park_step : Run → List Executed → Step → Round
  unfolding park_open
  park_step loaded executed s =
      let r = run_ops w.steps (w.before_begin n) loaded in
      begun r (begin_step w.steps (w.clock n) r) (λ opened. park_open opened executed s)

  abbrev pub is_human_step : StepKind → Bool
  is_human_step human = true
  is_human_step _ = false

  unfoldable pub on_step : Run → List Executed → Option Step → Round
  unfolding execute_step park_step
  on_step r executed none = stop r (envelope r.status executed has_no_current_step)
  on_step r executed (some s) =
      if is_human_step s.kind
      then park_step r executed s
      else if is_slow s.kind && w.has_invoker
      then stop r (envelope running executed (executing_asynchronously s.step_key))
      else execute_step (w.executors s.kind) r executed s

  -- One turn of the loop of `advance`.
  unfoldable pub advance_round : Run → List Executed → Round
  unfolding on_step load_step
  advance_round r executed =
      if is_terminal r.status || is_awaiting r.status
      then stop r (envelope r.status executed no_detail)
      else on_step r executed (load_step w.steps r)

-- A round that does not return goes on to the next one.
abbrev pub follow : Round → (Run → List Executed → Run × Outcome) → Run × Outcome
follow (stop r outcome) rest = (r, outcome)
follow (go r executed) rest = rest r executed

-- The loop of `advance`, on the rounds left.
unfoldable pub advance_from : World → ℕ → Run → List Executed → Run × Outcome
unfolding advance_round
advance_from w ℕ.zero r executed = (r, envelope running executed budget_exhausted)
advance_from w (suc n) r executed =
    follow (advance_round w n (run_ops w.steps (w.before_load n) r) executed)
      (λ t so_far. advance_from w n t so_far)

-- `_MAX_STEPS_PER_ADVANCE`
abbrev pub max_steps_per_advance : ℕ
max_steps_per_advance = 50

-- `advance`, of a run that exists.
unfoldable pub advance : World → Run → Run × Outcome
unfolding advance_from
advance w r = advance_from w max_steps_per_advance r []
