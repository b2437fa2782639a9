-- ===== src/Gate/Workflow/Consistent.antt =====
-- db/013: what holds of a run between two transactions.
use fde_agent_platform.Prelude.{
  ℕ, String, Bool, true, false, not, ◌&&◌, Option, none, some, List, map, ◌≡◌, ◌≢◌, refl, ◌==◌,
  arith, is_some, if◌then◌else◌,
}
use fde_agent_platform.Python.Value.{Fields}
use fde_agent_platform.Gate.Workflow.Tables.{
  RunStatus, pending, running, awaiting_human, succeeded, failed, cancelled, Step, RunStep, Run,
  OnFailure, halt, retry, skip, escalate, is_open, is_running, is_awaiting, is_human, find_run_step,
  find_step,
}
use fde_agent_platform.Gate.Workflow.Transitions.{
  SqlError, Done, done, raise, ◌>>=◌, or_raise, check, locked, not_running, completed, with_row,
  not_human, check, insert_run_step, advance_cursor, begin_step, complete_step, on_failed,
  fail_step, await_human, cancel_run, succeed, set_error, park, cancel_row,
}
use fde_agent_platform.Gate.Workflow.Stack.{
  update_open, Stacked, tip, Keeps, tip-Settled, no_open-Settled, Settled-Stacked, max_attempt-tip,
  map-Stacked,
}

-- Whether the cursor is at a step.
abbrev pub at : Option ℕ → ℕ → Bool
at none step = false
at (some s) step = s == step

abbrev pub is_shut : Option RunStep → Bool
is_shut none = true
is_shut (some row) = not (is_open row.status)

-- Whether the status and the cursor of the run fit its newest attempt.
abbrev pub agrees : RunStatus → Option ℕ → Option RunStep → Bool
agrees pending cursor none = is_some cursor
agrees pending cursor (some row) = false
agrees running cursor none = false
agrees running cursor (some row) =
    is_some cursor
    && (if is_open row.status then is_running row.status && at cursor row.step_id else true)
agrees awaiting_human cursor none = false
agrees awaiting_human cursor (some row) = is_awaiting row.status && at cursor row.step_id
agrees succeeded cursor row = not (is_some cursor) && is_shut row
agrees failed cursor row = is_shut row
agrees cancelled cursor row = is_shut row

pub record IsConsistent (r : Run) : Type 0 where
  pub stacked : Stacked r.next_run_step_id r.run_steps
  pub agreed : agrees r.status r.current_step_id (tip r.run_steps) ≡ true

pub raise-ne-done : {A : Type 0} (e : SqlError) (a : A) → raise e ≢ done a
raise-ne-done e a h = cc

pub or_raise-done :
    {A B : Type 0} (o : Option A) (e : SqlError) (k : A → Done B) (t : B)
    → (or_raise o e >>= k) ≡ done t
    → (a : A) × (o ≡ some a) × (k a ≡ done t)
or_raise-done none e k t d = absurd (raise-ne-done _ _ d)
or_raise-done (some a) e k t d = (a, refl, d)

pub check-done :
    {B : Type 0} (b : Bool) (e : SqlError) (k : Unit → Done B) (t : B)
    → (check b e >>= k) ≡ done t
    → (b ≡ true) × (k tt ≡ done t)
check-done true e k t d = (refl, d)
check-done false e k t d = absurd (raise-ne-done _ _ d)

pub running-open : (s : RunStatus) → is_running s ≡ true → is_open s ≡ true
running-open s h = ground arith

pub awaiting-open : (s : RunStatus) → is_awaiting s ≡ true → is_open s ≡ true
awaiting-open s h = ground arith

module _ (steps : List Step) (now : ℕ) where
  pub advance_cursor-IsConsistent :
      (r t : Run) (row : RunStep) (from : Step) (goto : Option String)
      → Stacked r.next_run_step_id r.run_steps
      → tip r.run_steps ≡ some row
      → is_open row.status ≡ false
      → advance_cursor steps now r from goto ≡ done t
      → IsConsistent t
  unfolding advance_cursor
  advance_cursor-IsConsistent r t row from goto h e c d = ground arith

  pub begin_step-IsConsistent :
      (r t : Run) → IsConsistent r → begin_step steps now r ≡ done t → IsConsistent t
  unfolding begin_step insert_run_step
  begin_step-IsConsistent r t h d =
      let settle = no_open-Settled r.next_run_step_id r.run_steps in ground arith

  pub locked-done :
      (r t : Run) (id : ℕ) (test : RunStatus → Bool) (error : SqlError)
      → (body : RunStep → Step → Done Run) → locked steps now r id test error body ≡ done t
      → (row : RunStep) × (step : Step) × (find_run_step r.run_steps id ≡ some row)
        × (test row.status ≡ true)
        × (body row step ≡ done t)
  unfolding locked
  locked-done r t id test error body d =
      let (row, found, d1) = or_raise-done (find_run_step r.run_steps id) _ _ t d in
      let (passed, d2) = check-done (test row.status) error _ t d1 in
      let (step, _, e) = or_raise-done (find_step steps row.step_id) _ _ t d2 in
      (row, step, found, passed, e)

  pub succeed-Keeps : (output : Option Fields) → Keeps (succeed steps now output)
  succeed-Keeps output r = (refl, refl, refl)

  pub set_error-Keeps : (error : Fields) → Keeps (set_error steps now error)
  set_error-Keeps error r = (refl, refl, refl)

  park-Keeps : (principal : Option String) → Keeps (park steps now principal)
  park-Keeps principal r = (refl, refl, refl)

  -- The status of the run itself plays no part.
  pub complete_step-IsConsistent :
      (r t : Run) (id : ℕ) (output : Option Fields) (goto : Option String)
      → Stacked r.next_run_step_id r.run_steps
      → complete_step steps now r id output goto ≡ done t
      → IsConsistent t
  unfolding complete_step
  complete_step-IsConsistent r t id output goto h d =
      let (row, step, found, ok, e) =
        locked-done r t id is_running not_running
          (λ row step. advance_cursor steps now (completed steps now r id step output) step goto)
          d in
      let (_, stack, top, _) =
        update_open r.next_run_step_id r.run_steps id row (succeed steps now output) h found
          (running-open _ ok) (succeed-Keeps output) in
      advance_cursor-IsConsistent (completed steps now r id step output) t
        (succeed steps now output row) step goto stack top refl e

  -- The cursor is at the step of an open attempt.
  pub open-at :
      (r : Run) (row : RunStep)
      → IsConsistent r
      → tip r.run_steps ≡ some row
      → is_open row.status ≡ true
      → at r.current_step_id row.step_id ≡ true
  open-at r row h e o = ground (arith, h.agreed)

  on_failed-IsConsistent :
      (way : OnFailure) (r t : Run) (step : Step) (row shut : RunStep) (error : Fields) (n : ℕ)
      → Stacked r.next_run_step_id r.run_steps
      → tip r.run_steps ≡ some shut
      → is_open shut.status ≡ false
      → shut.step_id ≡ row.step_id
      → shut.attempt ≡ row.attempt
      → at r.current_step_id row.step_id ≡ true
      → on_failed steps now way r step row error n ≡ done t
      → IsConsistent t
  unfolding on_failed
  on_failed-IsConsistent halt r t step row shut error n h e c s a p d = ground arith
  on_failed-IsConsistent retry r t step row shut error n h e c s a p d = ground arith
  on_failed-IsConsistent skip r t step row shut error n h e c s a p d =
      advance_cursor-IsConsistent r t shut step none h e c d
  on_failed-IsConsistent escalate r t step row shut error n h e c s a p d =
      let settled = tip-Settled r.next_run_step_id r.run_steps shut h e c in
      let top = max_attempt-tip r.next_run_step_id r.run_steps shut h e in ground arith

  pub fail_step-IsConsistent :
      (r t : Run) (id : ℕ) (error : Fields) (n : ℕ)
      → IsConsistent r
      → fail_step steps now r id error n ≡ done t
      → IsConsistent t
  unfolding fail_step
  fail_step-IsConsistent r t id error n h d =
      let (row, step, found, ok, e) =
        locked-done r t id is_running not_running
          (λ row step.
            on_failed steps now step.on_failure (with_row r id (set_error steps now error)) step row
              error n)
          d in
      let (old, stack, top, _) =
        update_open r.next_run_step_id r.run_steps id row (set_error steps now error) h.stacked
          found (running-open _ ok) (set_error-Keeps error) in
      on_failed-IsConsistent step.on_failure (with_row r id (set_error steps now error)) t step row
        (set_error steps now error row) error n stack top refl refl refl
        (open-at r row h old (running-open _ ok)) e

  pub await_human-IsConsistent :
      (r t : Run) (id : ℕ) (principal : Option String)
      → IsConsistent r
      → await_human steps now r id principal ≡ done t
      → IsConsistent t
  unfolding await_human
  await_human-IsConsistent r t id principal h d =
      let (row, step, found, ok, e) =
        locked-done r t id is_running not_running
          (λ row step. check (is_human step.kind) not_human >>= (λ asked.
            done (record (with_row r id (park steps now principal)) { status = awaiting_human })))
          d in
      let (old, stack, top, _) =
        update_open r.next_run_step_id r.run_steps id row (park steps now principal) h.stacked found
          (running-open _ ok) (park-Keeps principal) in
      let cursor = open-at r row h old (running-open _ ok) in
      let (_, e2) = check-done (is_human step.kind) not_human _ t e in ground arith

  cancel_row-Keeps : Keeps (cancel_row steps now)
  cancel_row-Keeps r = ground arith

  cancel_row-shuts : (r : RunStep) → is_open (cancel_row steps now r).status ≡ false
  cancel_row-shuts r = ground arith

  pub cancel_run-IsConsistent :
      (r t : Run) (by : String)
      → Stacked r.next_run_step_id r.run_steps
      → cancel_run steps now r by ≡ done t
      → IsConsistent t
  unfolding cancel_run
  cancel_run-IsConsistent r t by h d =
      let settled =
        map-Stacked (cancel_row steps now) cancel_row-Keeps cancel_row-shuts r.next_run_step_id
          r.run_steps h in
      let stack =
        Settled-Stacked r.next_run_step_id (map (cancel_row steps now) r.run_steps) settled in
      ground arith
