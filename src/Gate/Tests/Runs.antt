-- ===== src/Gate/Tests/Runs.antt =====
-- runner.py on the same workflow, with executors that return or that raise.
use fde_agent_platform.Prelude.{ℕ, false, none, some, [], ◌∷◌, ◌≡◌, refl, ◌⊎◌, arith}
use fde_agent_platform.Python.Value.{Fields, end, field, str}
use fde_agent_platform.Gate.Workflow.Tables.{StepKind, find_step, tool, notify, Step, Run}
use fde_agent_platform.Gate.Workflow.Transitions.{advance_to, completed}
use fde_agent_platform.Gate.Workflow.Operations.{begin, complete, timeout_steps, after, apply}
use fde_agent_platform.Gate.Runner.{
  Execution, output, crashed, crash_detail, World, run_ops, go, succeeded_step, execute_step,
  advance, advance_from, is_human_step, goto_of,
}
use fde_agent_platform.Gate.Runner.Rounds.{IsReady, Succeeds, opened}
use fde_agent_platform.Gate.Runner.Finishes.{Finished, advance-finishes}
use fde_agent_platform.Gate.Runner.Exhausted.{Refuses}
use fde_agent_platform.Gate.Runner.GivesUp.{GaveUp, advance_from-gives_up}
use fde_agent_platform.Gate.Runner.Stale.{execute_step-stale}
use fde_agent_platform.Gate.Tick.Recovers.{IsStranded, swept-finishes}
use fde_agent_platform.Gate.Tests.{
  fetch, tell, two_steps, fresh, fetching, fetching-Reach, fetch_attempt,
}

abbrev returns_ok : Step → Run → Execution
returns_ok s r = output (field "ok" (str "yes") end)

abbrev raises : Step → Run → Execution
raises s r = crashed "KeyError" "gone"

abbrev world : (Step → Run → Execution) → World
world execute = record {
  steps = two_steps;
  max_step_attempts = 3;
  executors = λ kind. some execute;
  has_invoker = false;
  py_str = λ v. "";
  clock = λ n. 1000;
  before_load = λ n. [];
  before_begin = λ n. [];
  after_begin = λ n. [];
}

-- Another process completes the first step before this one opens an attempt.
abbrev racing : World
racing = record (world returns_ok) {
  before_begin = λ n. (6, begin) ∷ (7, complete 1 (some end) none) ∷ [];
}

fresh-IsReady : IsReady fresh fetch
fresh-IsReady = record {
  consistent = record { stacked = tt; agreed = refl };
  cursor = refl;
  idle = refl;
  live = refl;
}

kinds : (s : Step) → find_step two_steps s.step_id ≡ some s → (s.kind ≡ tool) ⊎ (s.kind ≡ notify)
kinds s h = ground arith

kind_automatic :
    (execute : Step → Run → Execution) (n : ℕ) (kind : StepKind)
    → (kind ≡ tool) ⊎ (kind ≡ notify)
    → is_human_step (world execute) n kind ≡ false
kind_automatic execute n kind h = ground arith

kind_straight :
    (fields : Fields) (kind : StepKind)
    → (kind ≡ tool) ⊎ (kind ≡ notify)
    → goto_of (λ v. "") kind fields ≡ none
unfolding goto_of
kind_straight fields kind h = ground arith

works :
    (n : ℕ) (s : Step) (r : Run)
    → find_step two_steps s.step_id ≡ some s
    → (fields : Fields) × Succeeds (world returns_ok) n s r fields
works n s r h = (
  field "ok" (str "yes") end,
  record {
    quiet_load = refl;
    quiet_before = refl;
    quiet_after = refl;
    inline = refl;
    automatic = kind_automatic returns_ok n s.kind (kinds s h);
    execute = returns_ok;
    registered = refl;
    returns = refl;
    straight = kind_straight (field "ok" (str "yes") end) s.kind (kinds s h);
  },
)

advance-finishes_example : Finished (advance (world returns_ok) fresh)
advance-finishes_example =
    advance-finishes (world returns_ok) (refl, (refl, tt)) works fresh fetch fresh-IsReady refl
      (omega arith)

advance_from-gives_up_example : GaveUp (advance_from (world raises) 4 fresh [])
advance_from-gives_up_example =
    advance_from-gives_up (world raises) fetch refl refl refused 2 4 fresh [] fresh-IsReady
      (omega arith) (omega arith)
  where
    refused : (n : ℕ) (r : Run) → (error : Fields) × Refuses (world raises) n fetch r error
    refused n r = (
      crash_detail tool "KeyError" "gone",
      record {
        quiet_load = refl;
        quiet_before = refl;
        quiet_after = refl;
        inline = refl;
        automatic = refl;
        execute = raises;
        registered = refl;
        refuses = refl;
      },
    )

-- The run as the other process has left it, at the second step.
abbrev moved : Run
moved =
    advance_to two_steps 7 (completed two_steps 7 (opened 6 fresh fetch) 1 fetch (some end))
      (some tell)

moved-IsReady : IsReady moved tell
moved-IsReady = record {
  consistent = record { stacked = (omega arith, omega arith, tt); agreed = refl };
  cursor = refl;
  idle = refl;
  live = refl;
}

moved_by_racing : run_ops two_steps (racing.before_begin 3) fresh ≡ moved
unfolding apply
moved_by_racing = refl

tool_straight : goto_of (λ v. "") tool (field "ok" (str "yes") end) ≡ none
unfolding goto_of
tool_straight = refl

execute_step-stale_example :
    execute_step racing 3 (some returns_ok) fresh [] fetch
    ≡ go
        (advance_to two_steps 1000
          (completed two_steps 1000
            (opened 1000 moved tell)
            2
            tell
            (some (field "ok" (str "yes") end)))
          none)
        (succeeded_step "fetch" tool none ∷ [])
execute_step-stale_example =
    execute_step-stale racing 3 fresh moved fetch tell returns_ok (field "ok" (str "yes") end) []
      moved_by_racing refl moved-IsReady refl refl tool_straight

fetching-IsStranded : IsStranded two_steps 906 fetching fetch_attempt fetch
fetching-IsStranded = record {
  newest = refl;
  unfinished = refl;
  known = refl;
  keyed = refl;
  tries = refl;
  late = omega arith;
  attempts_left = refl;
}

swept-finishes_example :
    Finished (advance (world returns_ok) (after fetching (timeout_steps two_steps 906 fetching)))
swept-finishes_example =
    swept-finishes (world returns_ok) 906 7 end 11 fetching fetch_attempt fetch (refl, (refl, tt))
      works fetching-Reach fetching-IsStranded (omega arith)
