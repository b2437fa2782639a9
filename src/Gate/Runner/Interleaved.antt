-- ===== src/Gate/Runner/Interleaved.antt =====
-- runner.py: whatever other processes do between the transactions of `advance`, the run only moves along
-- the transitions of db/013.
use fde_agent_platform.Prelude.{
  ℕ, suc, Bool, true, false, Option, none, some, List, [], ◌∷◌, ◌≡◌, refl, ◌&&◌, ◌||◌,
  if◌then◌else◌,
}
use fde_agent_platform.Python.Value.{Fields}
use fde_agent_platform.Gate.Workflow.Tables.{Step, Run, is_terminal, is_awaiting}
use fde_agent_platform.Gate.Workflow.Transitions.{Done, done, raise}
use fde_agent_platform.Gate.Workflow.Operations.{
  Op, begin, complete, fail, await, apply, after, Reach, next,
}
use fde_agent_platform.Gate.Runner.{
  Execution, output, step_error, crashed, World, run_ops, Executed, Outcome, Round, stop, go,
  is_slow, assignee, goto_of, crash_detail, load_step, opened_id, settle, conclude, execute_open,
  parked_round, park_open, begun, execute_step, park_step, is_human_step, on_step, advance_round,
  follow, advance_from, advance, max_steps_per_advance,
}

abbrev run_of : Round → Run
run_of (stop r outcome) = r
run_of (go r executed) = r

module _ (steps : List Step) (id : ℕ) (input : Fields) (first : ℕ) where
  abbrev Reached : Run → Type 0
  Reached r = Reach steps id input first r

  after-Reached :
      (now : ℕ) (op : Op) (r : Run) (d : Done Run)
      → apply steps now op r ≡ d
      → Reached r
      → Reached (after r d)
  after-Reached now op r (done t) e h = next now op t h e
  after-Reached now op r (raise x) e h = h

  pub run_ops-Reached : (ops : List (ℕ × Op)) (r : Run) → Reached r → Reached (run_ops steps ops r)
  run_ops-Reached [] r h = h
  run_ops-Reached ((now, op) ∷ ops) r h =
      run_ops-Reached ops (after r (apply steps now op r)) (after-Reached now op r _ refl h)

  settle-Reached :
      (now : ℕ) (op : Op) (r : Run) (d : Done Run) (executed : List Executed) (entry : Executed)
      → apply steps now op r ≡ d
      → Reached r
      → Reached (run_of (settle r d executed entry))
  settle-Reached now op r (done t) executed entry e h = next now op t h e
  settle-Reached now op r (raise x) executed entry e h = h

  parked-Reached :
      (w : World) (n now : ℕ) (op : Op) (r : Run) (d : Done Run) (executed : List Executed)
      (s : Step)
      → apply steps now op r ≡ d
      → Reached r
      → Reached (run_of (parked_round w n r d executed s))
  parked-Reached w n now op r (done t) executed s e h = next now op t h e
  parked-Reached w n now op r (raise x) executed s e h = h

  begun-Reached :
      (w : World) (n now : ℕ) (r : Run) (d : Done Run) (body : Run → Round)
      → apply steps now begin r ≡ d
      → Reached r
      → ((t : Run) → Reached t → Reached (run_of (body t)))
      → Reached (run_of (begun w n r d body))
  begun-Reached w n now r (done t) body e h f = f t (next now begin t h e)
  begun-Reached w n now r (raise x) body e h f = h

module _ (w : World) (id : ℕ) (input : Fields) (first n : ℕ) where
  abbrev Kept : Run → Type 0
  Kept r = Reach w.steps id input first r

  conclude-Kept :
      (x : Execution) (r : Run) (row : ℕ) (executed : List Executed) (s : Step)
      → Kept r
      → Kept (run_of (conclude w n x r row executed s))
  unfolding conclude apply
  conclude-Kept (output fields) r row executed s h =
      settle-Reached w.steps id input first (w.clock n)
        (complete row (some fields) (goto_of w.py_str s.kind fields)) r _ executed _ refl h
  conclude-Kept (step_error detail) r row executed s h =
      settle-Reached w.steps id input first (w.clock n) (fail row detail w.max_step_attempts) r _
        executed _ refl h
  conclude-Kept (crashed type text) r row executed s h =
      settle-Reached w.steps id input first (w.clock n)
        (fail row (crash_detail s.kind type text) w.max_step_attempts) r _ executed _ refl h

  execute_step-Kept :
      (execute : Option (Step → Run → Execution)) (loaded : Run) (executed : List Executed)
      (s : Step)
      → Kept loaded
      → Kept (run_of (execute_step w n execute loaded executed s))
  unfolding execute_step execute_open apply
  execute_step-Kept none loaded executed s h = h
  execute_step-Kept (some execute) loaded executed s h =
      begun-Reached w.steps id input first w n (w.clock n) _ _ _ refl
        (run_ops-Reached w.steps id input first (w.before_begin n) loaded h)
        (λ t k.
          conclude-Kept (execute s loaded) (run_ops w.steps (w.after_begin n) t)
            (opened_id t.run_steps) executed s
            (run_ops-Reached w.steps id input first (w.after_begin n) t k))

  park_step-Kept :
      (loaded : Run) (executed : List Executed) (s : Step)
      → Kept loaded
      → Kept (run_of (park_step w n loaded executed s))
  unfolding park_step park_open apply
  park_step-Kept loaded executed s h =
      begun-Reached w.steps id input first w n (w.clock n) _ _ _ refl
        (run_ops-Reached w.steps id input first (w.before_begin n) loaded h)
        (λ t k.
          parked-Reached w.steps id input first w n (w.clock n)
            (await (opened_id t.run_steps) (assignee s)) _ _ executed s refl
            (run_ops-Reached w.steps id input first (w.after_begin n) t k))

  choose-Kept :
      (b : Bool) (x y : Round)
      → Kept (run_of x)
      → Kept (run_of y)
      → Kept (run_of (if b then x else y))
  choose-Kept true x y h k = h
  choose-Kept false x y h k = k

  on_step-Kept :
      (r : Run) (executed : List Executed) (s : Option Step)
      → Kept r
      → Kept (run_of (on_step w n r executed s))
  unfolding on_step
  on_step-Kept r executed none h = h
  on_step-Kept r executed (some s) h =
      choose-Kept (is_human_step w n s.kind) _ _ (park_step-Kept r executed s h) (
        choose-Kept (is_slow s.kind && w.has_invoker) _ _ h
          (execute_step-Kept (w.executors s.kind) r executed s h))

  advance_round-Kept :
      (r : Run) (executed : List Executed) → Kept r → Kept (run_of (advance_round w n r executed))
  unfolding advance_round
  advance_round-Kept r executed h =
      choose-Kept (is_terminal r.status || is_awaiting r.status) _ _ h
        (on_step-Kept r executed (load_step w.steps r) h)

module _ (w : World) (id : ℕ) (input : Fields) (first : ℕ) where
  follow-Reached :
      (x : Round) (rest : Run → List Executed → Run × Outcome)
      → Reach w.steps id input first (run_of x)
      → ((t : Run) (so_far : List Executed)
          → Reach w.steps id input first t
          → Reach w.steps id input first (rest t so_far).0)
      → Reach w.steps id input first (follow x rest).0
  follow-Reached (stop t outcome) rest k f = k
  follow-Reached (go t so_far) rest k f = f t so_far k

  advance_from-Reached :
      (n : ℕ) (r : Run) (executed : List Executed)
      → Reach w.steps id input first r
      → Reach w.steps id input first (advance_from w n r executed).0
  unfolding advance_from
  advance_from-Reached ℕ.zero r executed h = h
  advance_from-Reached (suc n) r executed h =
      let loaded = run_ops w.steps (w.before_load n) r in
      follow-Reached (advance_round w n loaded executed) (λ t so_far. advance_from w n t so_far)
        (advance_round-Kept w id input first n loaded executed
          (run_ops-Reached w.steps id input first (w.before_load n) r h))
        (λ t so_far k. advance_from-Reached n t so_far k)

  -- Whatever the executors do, and whatever transactions other processes commit on the run between those
  -- of `advance`, `advance` leaves a run that the transitions of db/013 lead to.
  pub advance-Reach :
      (r : Run) → Reach w.steps id input first r → Reach w.steps id input first (advance w r).0
  unfolding advance
  advance-Reach r h = advance_from-Reached max_steps_per_advance r [] h
