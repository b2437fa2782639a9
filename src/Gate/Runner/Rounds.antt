-- ===== src/Gate/Runner/Rounds.antt =====
-- runner.py: one round of `advance` that nobody interferes with.
use fde_agent_platform.Prelude.{
  ℕ, ◌+◌, Bool, true, false, Option, none, some, List, [], ◌∷◌, ◌++◌, ◌≡◌, refl, ap, ◌∙◌, arith,
  ◌||◌, ◌&&◌, if◌then◌else◌,
}
use fde_agent_platform.Python.Value.{Fields}
use fde_agent_platform.Gate.Workflow.Tables.{
  RunStatus, running, Step, RunStep, Run, can_begin, is_terminal, is_awaiting, find_step, next_step,
  find_run_step, has_open, max_attempt,
}
use fde_agent_platform.Gate.Workflow.Transitions.{
  done, new_run_step, push, insert_run_step, begin_step, complete_step, completed, advance_cursor,
  advance_to, locked, succeed,
}
use fde_agent_platform.Gate.Workflow.Stack.{
  has_attempt-fresh, tip-Settled, Settled-has_open, update_open,
}
use fde_agent_platform.Gate.Workflow.Consistent.{
  IsConsistent, begin_step-IsConsistent, complete_step-IsConsistent, succeed-Keeps,
}
use fde_agent_platform.Gate.Runner.{
  Execution, output, World, Executed, succeeded_step, Round, go, is_slow, goto_of, load_step,
  settle, conclude, execute_open, begun, execute_step, is_human_step, on_step, advance_round,
}

-- A run whose next step can be opened.
pub record IsReady (r : Run) (s : Step) : Type 0 where
  pub consistent : IsConsistent r
  pub cursor : r.current_step_id ≡ some s.step_id
  pub idle : has_open r.run_steps ≡ false
  pub live : can_begin r.status ≡ true

-- The row that `begin_step` adds, and the run with it.
abbrev pub opened_row : ℕ → Run → Step → RunStep
opened_row now r s =
    new_run_step now r.next_run_step_id s.step_id (max_attempt r.run_steps s.step_id + 1) running
      r.context

abbrev pub opened : ℕ → Run → Step → Run
opened now r s = record (push r (opened_row now r s)) { status = running }

module _ (steps : List Step) (now : ℕ) (r : Run) (s : Step) (ready : IsReady r s)
    (known : find_step steps s.step_id ≡ some s) where
  pub begin_step-ready : begin_step steps now r ≡ done (opened now r s)
  unfolding begin_step insert_run_step
  begin_step-ready =
      let fresh =
        has_attempt-fresh r.run_steps s.step_id (max_attempt r.run_steps s.step_id + 1)
          (omega arith) in
      simp (ready.cursor, ready.idle, ready.live, known, fresh)

  pub opened-IsConsistent : IsConsistent (opened now r s)
  opened-IsConsistent =
      begin_step-IsConsistent steps now r (opened now r s) ready.consistent begin_step-ready

  pub find_opened :
      find_run_step (opened now r s).run_steps r.next_run_step_id ≡ some (opened_row now r s)
  find_opened = ground arith

  -- The run once the step has succeeded without a jump.
  pub complete_step-opened :
      (later : ℕ) (fields : Option Fields)
      → complete_step steps later (opened now r s) r.next_run_step_id fields none
        ≡ done (
            advance_to steps later
              (completed steps later (opened now r s) r.next_run_step_id s fields)
              (next_step steps s.ordinal))
  unfolding complete_step locked advance_cursor
  complete_step-opened later fields = rw (find_opened, known) refl

  pub advance_to-IsReady :
      (later : ℕ) (fields : Option Fields) (next : Step)
      → next_step steps s.ordinal ≡ some next
      → IsReady
          (advance_to steps later
            (completed steps later (opened now r s) r.next_run_step_id s fields)
            (some next))
          next
  advance_to-IsReady later fields next e =
      let done_run = completed steps later (opened now r s) r.next_run_step_id s fields in
      let keeps = succeed-Keeps steps later fields in
      let c = opened-IsConsistent in
      let (_, stack, top, _) =
        update_open (opened now r s).next_run_step_id (opened now r s).run_steps r.next_run_step_id
          (opened_row now r s) (succeed steps later fields) c.stacked find_opened refl keeps in
      record {
        consistent =
            complete_step-IsConsistent steps later (opened now r s)
              (advance_to steps later done_run (some next)) r.next_run_step_id fields none c.stacked
              (complete_step-opened later fields
                ∙ ap (λ n. done (advance_to steps later done_run n)) e);
        cursor = refl;
        idle = Settled-has_open done_run.next_run_step_id done_run.run_steps (
            tip-Settled done_run.next_run_step_id done_run.run_steps
              (succeed steps later fields (opened_row now r s)) stack top refl);
        live = refl;
      }

pub load_step-ready :
    (steps : List Step) (r : Run) (s : Step)
    → IsReady r s
    → find_step steps s.step_id ≡ some s
    → load_step steps r ≡ some s
unfolding load_step
load_step-ready steps r s ready known = rw (ready.cursor) known

-- Without an invoker the slow kinds are executed here.
pub inline_step : (b : Bool) (x y z : Round) → y ≡ z → (if b && false then x else y) ≡ z
inline_step true x y z e = e
inline_step false x y z e = e

-- What a round needs so as to succeed: nobody else at work, and an executor of the step's kind that
-- returns, without a jump.
pub record Succeeds (w : World) (n : ℕ) (s : Step) (r : Run) (fields : Fields) : Type 0 where
  pub quiet_load : w.before_load n ≡ []
  pub quiet_before : w.before_begin n ≡ []
  pub quiet_after : w.after_begin n ≡ []
  pub inline : w.has_invoker ≡ false
  pub automatic : is_human_step w n s.kind ≡ false
  pub execute : Step → Run → Execution
  pub registered : w.executors s.kind ≡ some execute
  pub returns : execute s r ≡ output fields
  pub straight : goto_of w.py_str s.kind fields ≡ none

pub can_begin-goes_on :
    (b : RunStatus) → can_begin b ≡ true → (is_terminal b || is_awaiting b) ≡ false
can_begin-goes_on b h = ground arith

module _ (w : World) (n : ℕ) (r : Run) (s : Step) (fields : Fields) (executed : List Executed)
    (ready : IsReady r s) (known : find_step w.steps s.step_id ≡ some s)
    (ok : Succeeds w n s r fields) where
  -- The run that the round leaves.
  abbrev pub advanced : Run
  advanced =
      advance_to w.steps (w.clock n)
        (completed w.steps (w.clock n) (opened (w.clock n) r s) r.next_run_step_id s (some fields))
        (next_step w.steps s.ordinal)

  conclude-succeeds :
      conclude w n (output fields) (opened (w.clock n) r s) r.next_run_step_id executed s
      ≡ go advanced (executed ++ (succeeded_step s.step_key s.kind none ∷ []))
  unfolding conclude
  conclude-succeeds = rw (ok.straight) (
      ap (λ d. settle (opened (w.clock n) r s) d executed (succeeded_step s.step_key s.kind none))
        (complete_step-opened w.steps (w.clock n) r s ready known (w.clock n) (some fields)))

  execute_open-succeeds :
      execute_open w n ok.execute r (opened (w.clock n) r s) executed s
      ≡ go advanced (executed ++ (succeeded_step s.step_key s.kind none ∷ []))
  unfolding execute_open
  execute_open-succeeds = rw (ok.returns, ok.quiet_after) conclude-succeeds

  execute_step-succeeds :
      execute_step w n (some ok.execute) r executed s
      ≡ go advanced (executed ++ (succeeded_step s.step_key s.kind none ∷ []))
  unfolding execute_step
  execute_step-succeeds = rw (ok.quiet_before) (
      ap (λ d. begun w n r d (λ t. execute_open w n ok.execute r t executed s))
        (begin_step-ready w.steps (w.clock n) r s ready known)
      ∙ execute_open-succeeds)

  on_step-succeeds :
      on_step w n r executed (some s)
      ≡ go advanced (executed ++ (succeeded_step s.step_key s.kind none ∷ []))
  unfolding on_step
  on_step-succeeds =
      rw (ok.automatic, ok.inline, ok.registered)
        (inline_step (is_slow s.kind) _ _ _ execute_step-succeeds)

  pub advance_round-succeeds :
      advance_round w n r executed
      ≡ go advanced (executed ++ (succeeded_step s.step_key s.kind none ∷ []))
  unfolding advance_round
  advance_round-succeeds = rw (can_begin-goes_on r.status ready.live) (
      ap (λ o. on_step w n r executed o) (load_step-ready w.steps r s ready known)
      ∙ on_step-succeeds)
