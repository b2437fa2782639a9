-- ===== src/Gate/Workflow/Reach.antt =====
-- db/013: every transaction keeps a run consistent, so that at most one of its attempts is ever open.
use fde_agent_platform.Prelude.{ℕ, String, true, none, some, List, [], ◌∷◌, ◌≡◌, refl, arith}
use fde_agent_platform.Python.Value.{Fields}
use fde_agent_platform.Gate.Workflow.Tables.{
  RunStatus, succeeded, Step, RunStep, Run, is_human, is_awaiting, find_run_step,
}
use fde_agent_platform.Gate.Workflow.Transitions.{
  not_awaiting, not_approvable, unknown_action, Done, done, raise, ◌>>=◌, close, with_row,
}
use fde_agent_platform.Gate.Workflow.Operations.{
  Action, approve, retry_step, skip_step, abort, parse_action, answer, reopen, on_answer,
  respond_human, overdue, default_max_attempts, timed_out, fail_overdue, timeout_steps, Op, begin,
  sweep, complete, fail, await, cancel, respond, apply, Reach, started, next,
}
use fde_agent_platform.Gate.Workflow.Stack.{Keeps, update_open}
use fde_agent_platform.Gate.Workflow.Consistent.{
  IsConsistent, raise-ne-done, or_raise-done, check-done, awaiting-open, locked-done,
  advance_cursor-IsConsistent, begin_step-IsConsistent, complete_step-IsConsistent,
  cancel_run-IsConsistent, open-at, fail_step-IsConsistent, await_human-IsConsistent,
}

bind-done :
    {A B : Type 0} (d : Done A) (k : A → Done B) (t : B)
    → (d >>= k) ≡ done t
    → (a : A) × (d ≡ done a) × (k a ≡ done t)
bind-done (raise e) k t h = absurd (raise-ne-done _ _ h)
bind-done (done a) k t h = (a, refl, h)

module _ (steps : List Step) (now : ℕ) where
  answer-Keeps : (by : String) (response : Fields) → Keeps (answer steps now by response)
  answer-Keeps by response r = (refl, refl, refl)

  reopen-Keeps : Keeps (reopen steps now)
  reopen-Keeps r = (refl, refl, refl)

  close-Keeps : (status : RunStatus) → Keeps (close now status)
  close-Keeps status r = (refl, refl, refl)

  -- The answer is recorded, and `row` is still the open attempt.
  on_answer-IsConsistent :
      (action : Action) (r t : Run) (row : RunStep) (step : Step) (id : ℕ) (by : String)
      → (response : Fields) → IsConsistent r
      → find_run_step r.run_steps id ≡ some row
      → is_awaiting row.status ≡ true
      → on_answer steps now action r step id by response ≡ done t
      → IsConsistent t
  unfolding on_answer
  on_answer-IsConsistent abort r t row step id by response h f o d =
      cancel_run-IsConsistent steps now r t by h.stacked d
  on_answer-IsConsistent approve r t row step id by response h f o d =
      let (_, e) = check-done (is_human step.kind) not_approvable _ t d in
      let (_, stack, _, _) =
        update_open r.next_run_step_id r.run_steps id row (reopen steps now) h.stacked f
          (awaiting-open _ o) reopen-Keeps in
      complete_step-IsConsistent steps now (with_row r id (reopen steps now)) t id (some response)
        none stack e
  on_answer-IsConsistent retry_step r t row step id by response h f o d =
      let (old, stack, top, _) =
        update_open r.next_run_step_id r.run_steps id row (close now succeeded) h.stacked f
          (awaiting-open _ o) (close-Keeps succeeded) in
      let cursor = open-at steps now r row h old (awaiting-open _ o) in ground arith
  on_answer-IsConsistent skip_step r t row step id by response h f o d =
      let (_, stack, top, _) =
        update_open r.next_run_step_id r.run_steps id row (close now succeeded) h.stacked f
          (awaiting-open _ o) (close-Keeps succeeded) in
      advance_cursor-IsConsistent steps now (with_row r id (close now succeeded)) t
        (close now succeeded row) step none stack top refl d

  respond_human-IsConsistent :
      (r t : Run) (id : ℕ) (by : String) (response : Fields) (text : String)
      → IsConsistent r
      → respond_human steps now r id by response text ≡ done t
      → IsConsistent t
  unfolding respond_human
  respond_human-IsConsistent r t id by response text h d =
      let (action, _, d1) = or_raise-done (parse_action text) (unknown_action text) _ t d in
      let (row, step, found, ok, e) =
        locked-done steps now r t id is_awaiting not_awaiting
          (λ row step.
            on_answer steps now action (with_row r id (answer steps now by response)) step id by
              response)
          d1 in
      let (old, stack, top, again) =
        update_open r.next_run_step_id r.run_steps id row (answer steps now by response) h.stacked
          found (awaiting-open _ ok) (answer-Keeps by response) in
      on_answer-IsConsistent action (with_row r id (answer steps now by response)) t
        (answer steps now by response row) step id by response
        (record { stacked = stack; agreed = ground (arith, h.agreed) }) again ok e

  fail_overdue-IsConsistent :
      (due : List (ℕ × ℕ)) (r t : Run)
      → IsConsistent r
      → fail_overdue steps now due r ≡ done t
      → IsConsistent t
  unfolding fail_overdue
  fail_overdue-IsConsistent [] r t h d = ground arith
  fail_overdue-IsConsistent ((id, seconds) ∷ rest) r t h d =
      let (s, e, f) = bind-done (fail_overdue steps now rest r) _ t d in
      fail_step-IsConsistent steps now s t id (timed_out steps now seconds)
        (default_max_attempts steps now) (fail_overdue-IsConsistent rest r s h e) f

  apply-IsConsistent :
      (op : Op) (r t : Run) → IsConsistent r → apply steps now op r ≡ done t → IsConsistent t
  unfolding apply timeout_steps
  apply-IsConsistent begin r t h d = begin_step-IsConsistent steps now r t h d
  apply-IsConsistent sweep r t h d =
      fail_overdue-IsConsistent (overdue steps now r.run_steps) r t h d
  apply-IsConsistent (complete id output goto) r t h d =
      complete_step-IsConsistent steps now r t id output goto h.stacked d
  apply-IsConsistent (fail id error n) r t h d = fail_step-IsConsistent steps now r t id error n h d
  apply-IsConsistent (await id principal) r t h d =
      await_human-IsConsistent steps now r t id principal h d
  apply-IsConsistent (cancel by) r t h d = cancel_run-IsConsistent steps now r t by h.stacked d
  apply-IsConsistent (respond id by response action) r t h d =
      respond_human-IsConsistent r t id by response action h d

-- Whatever transactions have led to a run, in any order and at any times: its older attempts are closed
-- and numbered in order, and its status and its cursor fit its newest attempt.
pub Reach-IsConsistent :
    (steps : List Step) (id : ℕ) (input : Fields) (first : ℕ) {r : Run}
    → Reach steps id input first r
    → IsConsistent r
Reach-IsConsistent steps id input first started = record { stacked = tt; agreed = refl }
Reach-IsConsistent steps id input first (next now op t h d) =
    apply-IsConsistent steps now op _ t (Reach-IsConsistent steps id input first h) d
