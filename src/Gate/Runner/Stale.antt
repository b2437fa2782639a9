-- ===== src/Gate/Runner/Stale.antt =====
-- runner.py: a step that is loaded before another process moves the run on.
use fde_agent_platform.Prelude.{ℕ, none, some, List, [], ◌∷◌, ◌++◌, ◌≡◌, ap, ◌∙◌}
use fde_agent_platform.Python.Value.{Fields}
use fde_agent_platform.Gate.Workflow.Tables.{Step, Run, find_step, next_step}
use fde_agent_platform.Gate.Workflow.Transitions.{begin_step, advance_to, completed}
use fde_agent_platform.Gate.Runner.{
  Execution, output, World, run_ops, Executed, succeeded_step, go, goto_of, settle, conclude,
  execute_open, begun, execute_step,
}
use fde_agent_platform.Gate.Runner.Rounds.{IsReady, opened, begin_step-ready, complete_step-opened}

module _ (w : World) (n : ℕ) (loaded r : Run) (s current : Step) (execute : Step → Run → Execution)
    (fields : Fields) (executed : List Executed) where
  -- A round has loaded the step `s`, and before it opens an attempt others bring the run to the step
  -- `current`. When the executor then returns an output for `s`, without a jump, and nobody interferes
  -- any more, the attempt opened is one of `current`, it is completed with that output, which lands in
  -- the context under the key of `current`, and the cursor moves on from `current`.
  pub execute_step-stale :
      run_ops w.steps (w.before_begin n) loaded ≡ r
      → w.after_begin n ≡ []
      → IsReady r current
      → find_step w.steps current.step_id ≡ some current
      → execute s loaded ≡ output fields
      → goto_of w.py_str s.kind fields ≡ none
      → execute_step w n (some execute) loaded executed s
        ≡ go
            (advance_to w.steps
              (w.clock n)
              (completed w.steps
                (w.clock n)
                (opened (w.clock n) r current)
                r.next_run_step_id
                current
                (some fields))
              (next_step w.steps current.ordinal))
            (executed ++ (succeeded_step s.step_key s.kind none ∷ []))
  unfolding execute_step execute_open conclude
  execute_step-stale moved quiet ready known returns straight =
      let t = opened (w.clock n) r current in
      ap
        (λ q.
          begun w n q (begin_step w.steps (w.clock n) q)
            (λ o. execute_open w n execute loaded o executed s))
        moved
      ∙ ap (λ d. begun w n r d (λ o. execute_open w n execute loaded o executed s))
          (begin_step-ready w.steps (w.clock n) r current ready known)
      ∙ rw (returns, quiet, straight)
          (ap (λ d. settle t d executed (succeeded_step s.step_key s.kind none))
            (complete_step-opened w.steps (w.clock n) r current ready known (w.clock n)
              (some fields)))
