-- ===== src/Gate/Workflow/Safety.antt =====
-- db/013: the open attempt as a lock, the end of a run, and the attempts that the sweep leaves alone.
use fde_agent_platform.Prelude.{
  ℕ, suc, ◌≤◌, Bool, true, false, Option, List, [], ◌∷◌, ◌≡◌, ◌≢◌, refl, arith, if◌then◌else◌,
}
use fde_agent_platform.Python.Value.{Fields}
use fde_agent_platform.Gate.Workflow.Tables.{
  RunStatus, awaiting_human, Step, RunStep, Run, is_open, is_terminal, is_running, is_awaiting,
  find_step,
}
use fde_agent_platform.Gate.Workflow.Transitions.{
  SqlError, open_step, Done, done, raise, begin_step, insert_run_step, cancel_run, complete_step,
  await_human, unknown_action, fail_step, locked,
}
use fde_agent_platform.Gate.Workflow.Operations.{
  overdue, fail_overdue, timeout_steps, Op, begin, after, is_overdue, sweep, complete, fail, await,
  cancel, respond, apply, respond_human, parse_action,
}
use fde_agent_platform.Gate.Workflow.Stack.{Settled, Stacked, tip, find-Settled}
use fde_agent_platform.Gate.Workflow.Consistent.{
  agrees, locked-done, running-open, awaiting-open, or_raise-done,
}
use fde_agent_platform.Gate.Workflow.Operations.{Reach}
use fde_agent_platform.Gate.Workflow.Reach.{Reach-IsConsistent}

abbrev pub count_open : List RunStep → ℕ
count_open [] = 0
count_open (r ∷ rows) = let rest = count_open rows in if is_open r.status then suc rest else rest

Settled-count_open : (n : ℕ) (rows : List RunStep) → Settled n rows → count_open rows ≡ 0
Settled-count_open n [] h = refl
Settled-count_open n (r ∷ rows) h =
    let rest = Settled-count_open r.run_step_id rows h.3 in ground arith

Stacked-count_open : (n : ℕ) (rows : List RunStep) → Stacked n rows → count_open rows ≤ 1
Stacked-count_open n [] h = omega arith
Stacked-count_open n (r ∷ rows) h =
    let rest = Settled-count_open r.run_step_id rows h.2 in ground arith

-- Whatever transactions have led to a run, in any order and at any times, at most one of its attempts
-- is open.
pub Reach-one_open :
    (steps : List Step) (id : ℕ) (input : Fields) (first : ℕ) (r : Run)
    → Reach steps id input first r
    → count_open r.run_steps ≤ 1
Reach-one_open steps id input first r h =
    Stacked-count_open r.next_run_step_id r.run_steps
      (Reach-IsConsistent steps id input first h).stacked

module _ (steps : List Step) (now later : ℕ) where
  -- Of two callers that open the step of a run one after the other, the second is told that the run has
  -- an open step, whenever it asks.
  pub begin_step-exclusive :
      (r t : Run) → begin_step steps now r ≡ done t → begin_step steps later t ≡ raise open_step
  unfolding begin_step insert_run_step
  begin_step-exclusive r t d = ground arith

module _ (steps : List Step) (now : ℕ) where
  -- With no open attempt nothing is overdue.
  pub Settled-overdue : (n : ℕ) (rows : List RunStep) → Settled n rows → overdue steps now rows ≡ []
  Settled-overdue n [] h = refl
  Settled-overdue n (r ∷ rows) h =
      let rest = Settled-overdue r.run_step_id rows h.3 in
      ground (arith, not_overdue r (find_step steps r.step_id) h.0)
    where
      not_overdue :
          (q : RunStep) (s : Option Step)
          → is_open q.status ≡ false
          → is_overdue steps now q s ≡ false
      not_overdue q s c = ground arith

  awaiting-overdue :
      (n : ℕ) (rows : List RunStep) (cursor : Option ℕ)
      → Stacked n rows
      → agrees awaiting_human cursor (tip rows) ≡ true
      → overdue steps now rows ≡ []
  awaiting-overdue n [] cursor h a = refl
  awaiting-overdue n (r ∷ rows) cursor h a =
      let rest = Settled-overdue r.run_step_id rows h.2 in ground arith

  -- A run that transactions have led to, and that waits for a person, is left as it is by the sweep,
  -- however long it has waited.
  pub timeout_steps-awaiting :
      (id : ℕ) (input : Fields) (first : ℕ) (r : Run)
      → Reach steps id input first r
      → r.status ≡ awaiting_human
      → timeout_steps steps now r ≡ done r
  unfolding timeout_steps fail_overdue
  timeout_steps-awaiting id input first r h w =
      let c = Reach-IsConsistent steps id input first h in
      let none_due = awaiting-overdue r.next_run_step_id r.run_steps r.current_step_id c.stacked in
      ground (arith, c.agreed)

  Settled-locked :
      (r t : Run) (id : ℕ) (test : RunStatus → Bool) (error : SqlError)
      → (body : RunStep → Step → Done Run) → Settled r.next_run_step_id r.run_steps
      → ((s : RunStatus) → test s ≡ true → is_open s ≡ true)
      → locked steps now r id test error body ≢ done t
  Settled-locked r t id test error body h opens d =
      let (row, step, found, ok, e) = locked-done steps now r t id test error body d in
      let shut = find-Settled r.next_run_step_id r.run_steps id row h found in
      let live = opens row.status ok in ground arith

  shut-Settled :
      (n : ℕ) (rows : List RunStep) (status : RunStatus) (cursor : Option ℕ)
      → Stacked n rows
      → agrees status cursor (tip rows) ≡ true
      → is_terminal status ≡ true
      → Settled n rows
  shut-Settled n [] status cursor h a e = tt
  shut-Settled n (r ∷ rows) status cursor h a e = ground arith

  terminal_step :
      (op : Op) (r t : Run)
      → Settled r.next_run_step_id r.run_steps
      → is_terminal r.status ≡ true
      → apply steps now op r ≡ done t
      → t ≡ r
  unfolding apply complete_step fail_step await_human respond_human begin_step cancel_run
      timeout_steps fail_overdue
  terminal_step begin r t h e d = ground arith
  terminal_step sweep r t h e d =
      let none_due = Settled-overdue r.next_run_step_id r.run_steps h in ground arith
  terminal_step (complete id output goto) r t h e d =
      absurd (Settled-locked r t id is_running _ _ h running-open d)
  terminal_step (fail id error n) r t h e d =
      absurd (Settled-locked r t id is_running _ _ h running-open d)
  terminal_step (await id principal) r t h e d =
      absurd (Settled-locked r t id is_running _ _ h running-open d)
  terminal_step (cancel by) r t h e d = ground arith
  terminal_step (respond id by response action) r t h e d =
      let (act, _, d1) = or_raise-done (parse_action action) (unknown_action action) _ t d in
      absurd (Settled-locked r t id is_awaiting _ _ h awaiting-open d1)

  -- A run that transactions have led to, and that has succeeded, failed or been cancelled, stays as it is,
  -- whatever transaction is tried on it.
  pub terminal_absorbs :
      (id : ℕ) (input : Fields) (first : ℕ) (r : Run) (op : Op)
      → Reach steps id input first r
      → is_terminal r.status ≡ true
      → after r (apply steps now op r) ≡ r
  terminal_absorbs id input first r op h e =
      let c = Reach-IsConsistent steps id input first h in
      let settled =
        shut-Settled r.next_run_step_id r.run_steps r.status r.current_step_id c.stacked c.agreed
          e in
      settle (apply steps now op r) (λ t. terminal_step op r t settled e)
    where
      settle : (d : Done Run) → ((t : Run) → d ≡ done t → t ≡ r) → after r d ≡ r
      settle (done t) f = f t refl
      settle (raise x) f = refl
