-- ===== src/Gate/Runner/Finishes.antt =====
-- runner.py: a run whose steps all succeed is driven to its end.
use mathlib.Core.Option.{none-ne-some}
use mathlib.Core.Path.{subst}
use fde_agent_platform.Prelude.{
  ℕ, zero, suc, ◌+◌, ◌<◌, ◌≤◌, Option, none, some, List, [], ◌∷◌, ◌++◌, ◌≡◌, refl, sym, ap, ◌∙◌,
  arith, ltb, if◌then◌else◌, All, Option-cases, inl, inr,
}
use fde_agent_platform.Python.Value.{Fields}
use fde_agent_platform.Gate.Workflow.Tables.{RunStatus, succeeded, Step, Run, find_step, next_step}
use fde_agent_platform.Gate.Workflow.Transitions.{finish_run, advance_to, completed}
use fde_agent_platform.Gate.Runner.{
  World, run_ops, Executed, succeeded_step, Outcome, envelope, go, advance_round, follow,
  advance_from, advance, max_steps_per_advance,
}
use fde_agent_platform.Gate.Runner.Rounds.{
  IsReady, opened, advance_to-IsReady, Succeeds, advanced, advance_round-succeeds,
}

-- How many steps come after an ordinal.
abbrev pub count_after : List Step → ℕ → ℕ
count_after [] after = 0
count_after (s ∷ steps) after =
    let rest = count_after steps after in if ltb after s.ordinal then suc rest else rest

count_after-antitone :
    (steps : List Step) (a b : ℕ) → a ≤ b → count_after steps b ≤ count_after steps a
count_after-antitone [] a b h = omega arith
count_after-antitone (s ∷ steps) a b h = let rest = count_after-antitone steps a b h in ground arith

-- A next step comes later, and fewer steps follow it.
next_step-later :
    (steps : List Step) (after : ℕ) (s : Step)
    → next_step steps after ≡ some s
    → (after < s.ordinal) × (count_after steps s.ordinal < count_after steps after)
next_step-later [] after s h = absurd (none-ne-some _ h)
next_step-later (t ∷ steps) after s h =
    let rest = next_step-later steps after s in
    let fewer = count_after-antitone steps after t.ordinal in ground arith

next_step-All :
    (P : Step → Type 0) (steps : List Step) (after : ℕ) (s : Step)
    → All P steps
    → next_step steps after ≡ some s
    → P s
next_step-All P [] after s h e = absurd (none-ne-some _ e)
next_step-All P (t ∷ steps) after s h e =
    let rest = next_step-All P steps after s h.1 in ground arith

-- The status that an envelope reports.
abbrev pub reported : Outcome → Option RunStatus
reported (envelope status _ _) = some status
reported _ = none

abbrev pub Finished : Run × Outcome → Type 0
Finished x = (x.0.status ≡ succeeded) × (reported x.1 ≡ some succeeded)

-- The loop goes on after a round that says so.
pub advance_from-go :
    (w : World) (n : ℕ) (r t : Run) (executed so_far : List Executed)
    → w.before_load n ≡ []
    → advance_round w n r executed ≡ go t so_far
    → advance_from w (suc n) r executed ≡ advance_from w n t so_far
unfolding advance_from
advance_from-go w n r t executed so_far quiet e =
    ap (λ ops. follow (advance_round w n (run_ops w.steps ops r) executed) (advance_from w n)) quiet
    ∙ ap (λ x. follow x (λ t so_far. advance_from w n t so_far)) e

advance_from-ended :
    (w : World) (n : ℕ) (r : Run) (executed : List Executed)
    → ((m : ℕ) → w.before_load m ≡ [])
    → 1 ≤ n
    → r.status ≡ succeeded
    → Finished (advance_from w n r executed)
unfolding advance_from advance_round
advance_from-ended w zero r executed quiet h e = absurd (omega arith)
advance_from-ended w (suc n) r executed quiet h e = rw (quiet n) (ground arith)

module _ (w : World) (known : All (λ (s : Step). find_step w.steps s.step_id ≡ some s) w.steps)
    (works : (n : ℕ) (s : Step) (r : Run)
      → find_step w.steps s.step_id ≡ some s
      → (fields : Fields) × Succeeds w n s r fields) where
  advance_from-finishes :
      (n : ℕ) (r : Run) (s : Step) (executed : List Executed)
      → IsReady r s
      → find_step w.steps s.step_id ≡ some s
      → count_after w.steps s.ordinal + 2 ≤ n
      → Finished (advance_from w n r executed)
  advance_from-finishes zero r s executed ready k h = absurd (omega arith)
  advance_from-finishes (suc n) r s executed ready k h =
      let (fields, ok) = works n s r k in
      let so_far = executed ++ (succeeded_step s.step_key s.kind none ∷ []) in
      let done_run =
        completed w.steps (w.clock n) (opened (w.clock n) r s) r.next_run_step_id s (some fields) in
      subst Finished
        (sym (
          advance_from-go w n r (advanced w n r s fields executed ready k ok) executed so_far
            ok.quiet_load (advance_round-succeeds w n r s fields executed ready k ok)))
        (elim (Option-cases (next_step w.steps s.ordinal)) [
          | inl e ↦
              subst
                (λ o.
                  Finished (advance_from w n (advance_to w.steps (w.clock n) done_run o) so_far))
                (sym e)
                (advance_from-ended w n (finish_run w.steps (w.clock n) done_run) so_far
                  (λ m. (works m s r k).1.quiet_load) (omega arith) refl)
          | inr (t, e) ↦
              let fewer = next_step-later w.steps s.ordinal t e in
              subst
                (λ o.
                  Finished (advance_from w n (advance_to w.steps (w.clock n) done_run o) so_far))
                (sym e)
                (advance_from-finishes n (advance_to w.steps (w.clock n) done_run (some t)) t so_far
                  (advance_to-IsReady w.steps (w.clock n) r s ready k (w.clock n) (some fields) t e)
                  (next_step-All (λ (s : Step). find_step w.steps s.step_id ≡ some s) w.steps
                    s.ordinal t known e)
                  (omega (arith, fewer)))
        ])

  -- A run whose next step can be opened, of a workflow with distinct step ids: when nobody else works on
  -- it, no Lambda is configured, and every step has an executor that returns without a jump, `advance`
  -- leaves the run succeeded and says so, provided that at most 48 steps follow the next one.
  pub advance-finishes :
      (r : Run) (s : Step)
      → IsReady r s
      → find_step w.steps s.step_id ≡ some s
      → count_after w.steps s.ordinal + 2 ≤ max_steps_per_advance
      → Finished (advance w r)
  unfolding advance
  advance-finishes r s ready k h = advance_from-finishes max_steps_per_advance r s [] ready k h
