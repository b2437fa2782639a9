-- ===== src/Gate/Runner/Exhausted.antt =====
-- runner.py: a step that is retried and always fails.
use mathlib.Core.Option.{none-ne-some, some-injective}
use fde_agent_platform.Prelude.{
  Option, none, ℕ, ◌+◌, false, some, List, [], ◌∷◌, ◌++◌, ◌≡◌, refl, ap, ◌∙◌, leb, if◌then◌else◌,
}
use fde_agent_platform.Python.Value.{Fields}
use fde_agent_platform.Gate.Workflow.Tables.{
  StepKind, running, retry, Step, Run, find_step, max_attempt,
}
use fde_agent_platform.Gate.Workflow.Transitions.{
  done, fail_step, locked, on_failed, set_error, with_row, fail_run,
}
use fde_agent_platform.Gate.Workflow.Stack.{
  Stacked, tip, update_open, tip-Settled, Settled-has_open, max_attempt-tip,
}
use fde_agent_platform.Gate.Workflow.Consistent.{fail_step-IsConsistent, set_error-Keeps}
use fde_agent_platform.Gate.Runner.{
  Execution, output, step_error, crashed, crash_detail, fail_with, is_slow, World, Executed,
  failed_step, go, settle, conclude, execute_open, begun, execute_step, is_human_step, on_step,
  advance_round,
}
use fde_agent_platform.Gate.Runner.Rounds.{
  IsReady, opened, opened_row, begin_step-ready, opened-IsConsistent, find_opened,
  can_begin-goes_on, load_step-ready, inline_step,
}

module _ (steps : List Step) (now : ℕ) (r : Run) (s : Step) (ready : IsReady r s)
    (known : find_step steps s.step_id ≡ some s) (tries : s.on_failure ≡ retry) (later : ℕ)
    (error : Fields) (n : ℕ) where
  -- The run once the attempt has failed, before `on_failure` is read.
  abbrev pub refused : Run
  refused = with_row (opened now r s) r.next_run_step_id (set_error steps later error)

  abbrev pub retried : Run
  retried =
      if leb n (max_attempt r.run_steps s.step_id + 1)
      then fail_run later error refused
      else record refused { status = running }

  pub fail_step-retry :
      fail_step steps later (opened now r s) r.next_run_step_id error n ≡ done retried
  unfolding fail_step locked on_failed
  fail_step-retry = rw (find_opened steps now r s ready known, known, tries) refl

  pub refused_tip :
      Stacked refused.next_run_step_id refused.run_steps
      × (tip refused.run_steps ≡ some (set_error steps later error (opened_row now r s)))
  refused_tip =
      let c = opened-IsConsistent steps now r s ready known in
      let (_, stack, top, _) =
        update_open (opened now r s).next_run_step_id (opened now r s).run_steps r.next_run_step_id
          (opened_row now r s) (set_error steps later error) c.stacked
          (find_opened steps now r s ready known) refl (set_error-Keeps steps later error) in
      (stack, top)

  abbrev pub again : Run
  again = record refused { status = running }

  -- With attempts left the run is ready for the next attempt of the same step.
  pub again-IsReady :
      leb n (max_attempt r.run_steps s.step_id + 1) ≡ false
      → IsReady again s
        × (max_attempt again.run_steps s.step_id ≡ max_attempt r.run_steps s.step_id + 1)
  again-IsReady left =
      let (stack, top) = refused_tip in
      (
        record {
          consistent =
              fail_step-IsConsistent steps later (opened now r s) again r.next_run_step_id error n
                (opened-IsConsistent steps now r s ready known)
                (fail_step-retry
                  ∙ ap (λ b. done (if b then fail_run later error refused else again)) left);
          cursor = ready.cursor;
          idle = Settled-has_open refused.next_run_step_id refused.run_steps (
              tip-Settled refused.next_run_step_id refused.run_steps
                (set_error steps later error (opened_row now r s)) stack top refl);
          live = refl;
        },
        max_attempt-tip refused.next_run_step_id refused.run_steps
            (set_error steps later error (opened_row now r s)) stack top,
      )

-- The error with which an execution fails its attempt, where it raises.
abbrev pub error_of : StepKind → Execution → Option Fields
error_of kind (output fields) = none
error_of kind (step_error detail) = some detail
error_of kind (crashed type text) = some (crash_detail kind type text)

-- What a round needs so as to fail: nobody else at work, no invoker, and an executor that raises anything.
pub record Refuses (w : World) (n : ℕ) (s : Step) (r : Run) (error : Fields) : Type 0 where
  pub quiet_load : w.before_load n ≡ []
  pub quiet_before : w.before_begin n ≡ []
  pub quiet_after : w.after_begin n ≡ []
  pub inline : w.has_invoker ≡ false
  pub automatic : is_human_step w n s.kind ≡ false
  pub execute : Step → Run → Execution
  pub registered : w.executors s.kind ≡ some execute
  pub refuses : error_of s.kind (execute s r) ≡ some error

module _ (w : World) (n : ℕ) (r : Run) (s : Step) (error : Fields) (executed : List Executed)
    (ready : IsReady r s) (known : find_step w.steps s.step_id ≡ some s)
    (tries : s.on_failure ≡ retry) (ok : Refuses w n s r error) where
  abbrev pub retried_run : Run
  retried_run =
      retried w.steps (w.clock n) r s ready known tries (w.clock n) error w.max_step_attempts

  abbrev pub failure : Executed
  failure = failed_step s.step_key s.kind error

  fail_with-refuses :
      fail_with w n (opened (w.clock n) r s) r.next_run_step_id executed s error
      ≡ go retried_run (executed ++ (failure ∷ []))
  fail_with-refuses =
      ap (λ d. settle (opened (w.clock n) r s) d executed failure)
        (fail_step-retry w.steps (w.clock n) r s ready known tries (w.clock n) error
          w.max_step_attempts)

  conclude-refuses :
      (x : Execution)
      → error_of s.kind x ≡ some error
      → conclude w n x (opened (w.clock n) r s) r.next_run_step_id executed s
        ≡ go retried_run (executed ++ (failure ∷ []))
  unfolding conclude
  conclude-refuses (output fields) e = absurd (none-ne-some _ e)
  conclude-refuses (step_error detail) e =
      ap (fail_with w n (opened (w.clock n) r s) r.next_run_step_id executed s)
        (some-injective detail error e)
      ∙ fail_with-refuses
  conclude-refuses (crashed type text) e =
      ap (fail_with w n (opened (w.clock n) r s) r.next_run_step_id executed s)
        (some-injective (crash_detail s.kind type text) error e)
      ∙ fail_with-refuses

  execute_step-refuses :
      execute_step w n (some ok.execute) r executed s ≡ go retried_run (executed ++ (failure ∷ []))
  unfolding execute_step execute_open
  execute_step-refuses = rw (ok.quiet_before) (
      ap (λ d. begun w n r d (λ t. execute_open w n ok.execute r t executed s))
        (begin_step-ready w.steps (w.clock n) r s ready known)
      ∙ rw (ok.quiet_after) (conclude-refuses (ok.execute s r) (ok.refuses)))

  on_step-refuses : on_step w n r executed (some s) ≡ go retried_run (executed ++ (failure ∷ []))
  unfolding on_step
  on_step-refuses =
      rw (ok.automatic, ok.inline, ok.registered)
        (inline_step (is_slow s.kind) _ _ _ execute_step-refuses)

  pub advance_round-refuses :
      advance_round w n r executed ≡ go retried_run (executed ++ (failure ∷ []))
  unfolding advance_round
  advance_round-refuses = rw (can_begin-goes_on r.status ready.live) (
      ap (λ o. on_step w n r executed o) (load_step-ready w.steps r s ready known)
      ∙ on_step-refuses)
