-- ===== src/Gate/Runner/GivesUp.antt =====
-- runner.py: the attempts of a step that is retried and always fails come to an end.
use mathlib.Core.Path.{subst}
use fde_agent_platform.Prelude.{
  ℕ, zero, suc, ◌+◌, ◌≤◌, false, some, List, [], ◌∷◌, ◌++◌, ◌≡◌, refl, sym, arith, leb,
  if◌then◌else◌, Bool-cases, inl, inr,
}
use fde_agent_platform.Python.Value.{Fields}
use fde_agent_platform.Gate.Workflow.Tables.{failed, retry, Step, Run, find_step, max_attempt}
use fde_agent_platform.Gate.Workflow.Transitions.{fail_run}
use fde_agent_platform.Gate.Runner.{
  World, Executed, Outcome, advance_round, advance_from, advance, max_steps_per_advance,
}
use fde_agent_platform.Gate.Runner.Rounds.{IsReady}
use fde_agent_platform.Gate.Runner.Finishes.{reported, advance_from-go}
use fde_agent_platform.Gate.Runner.Exhausted.{
  refused, again, again-IsReady, Refuses, retried_run, failure, advance_round-refuses,
}

abbrev pub GaveUp : Run × Outcome → Type 0
GaveUp x = (x.0.status ≡ failed) × (reported x.1 ≡ some failed)

advance_from-failed :
    (w : World) (n : ℕ) (r : Run) (executed : List Executed)
    → ((m : ℕ) → w.before_load m ≡ [])
    → 1 ≤ n
    → r.status ≡ failed
    → GaveUp (advance_from w n r executed)
unfolding advance_from advance_round
advance_from-failed w zero r executed quiet h e = absurd (omega arith)
advance_from-failed w (suc n) r executed quiet h e = rw (quiet n) (ground arith)

-- `max_attempts` is reached at the next failure, or one failure is used up.
spent : (max m k : ℕ) → max ≤ m + suc k → leb max (m + 1) ≡ false → (j : ℕ) × (k ≡ suc j)
spent max m zero h e = absurd (ground arith)
spent max m (suc j) h e = (j, refl)

module _ (w : World) (s : Step) (known : find_step w.steps s.step_id ≡ some s)
    (tries : s.on_failure ≡ retry)
    (always : (n : ℕ) (r : Run) → (error : Fields) × Refuses w n s r error) where
  -- A step that is retried and whose executor always raises, be it a `StepExecutionError` or anything else,
  -- with nobody else at work and no invoker configured, so that the step is executed here: where the attempts
  -- of the step that the run has seen, on this visit and on earlier ones, and `k + 1` more reach
  -- `max_step_attempts`, `k + 2` rounds or more of the loop of `advance` leave the run failed and say so.
  pub advance_from-gives_up :
      (k n : ℕ) (r : Run) (executed : List Executed)
      → IsReady r s
      → w.max_step_attempts ≤ max_attempt r.run_steps s.step_id + suc k
      → k + 2 ≤ n
      → GaveUp (advance_from w n r executed)
  advance_from-gives_up k zero r executed ready m h = absurd (omega arith)
  advance_from-gives_up k (suc n) r executed ready m h =
      let (error, ok) = always n r in
      let so_far = executed ++ (failure w n r s error executed ready known tries ok ∷ []) in
      let lost =
        refused w.steps (w.clock n) r s ready known tries (w.clock n) error w.max_step_attempts in
      let rest = λ (t : Run). GaveUp (advance_from w n t so_far) in
      let last = fail_run (w.clock n) error lost in
      let next =
        again w.steps (w.clock n) r s ready known tries (w.clock n) error w.max_step_attempts in
      subst GaveUp
        (sym (
          advance_from-go w n r (retried_run w n r s error executed ready known tries ok) executed
            so_far ok.quiet_load
            (advance_round-refuses w n r s error executed ready known tries ok)))
        (elim (Bool-cases (leb w.max_step_attempts (max_attempt r.run_steps s.step_id + 1))) [
          | inl e ↦
              subst (λ b. rest (if b then last else next)) (sym e)
                (advance_from-failed w n last so_far (λ m. (always m r).1.quiet_load) (omega arith)
                  refl)
          | inr e ↦
              let (ready_again, one_more) =
                again-IsReady w.steps (w.clock n) r s ready known tries (w.clock n) error
                  w.max_step_attempts e in
              let (j, k_eq) = spent w.max_step_attempts (max_attempt r.run_steps s.step_id) k m e in
              subst (λ b. rest (if b then last else next)) (sym e)
                (advance_from-gives_up j n next so_far ready_again
                  (subst (λ q. w.max_step_attempts ≤ q + suc j) (sym one_more)
                    (omega (arith, m, k_eq)))
                  (omega (arith, h, k_eq)))
        ])

  -- The same within the rounds of one call of `advance`.
  pub advance-gives_up :
      (k : ℕ) (r : Run)
      → IsReady r s
      → w.max_step_attempts ≤ max_attempt r.run_steps s.step_id + suc k
      → k + 2 ≤ max_steps_per_advance
      → GaveUp (advance w r)
  unfolding advance
  advance-gives_up k r ready m h = advance_from-gives_up k max_steps_per_advance r [] ready m h
