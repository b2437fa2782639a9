-- ===== src/Gate/Tests.antt =====
-- db/013 and runner.py on a workflow of a tool step that is retried and a notification.
pub mod Runs
pub mod Answers
use fde_agent_platform.Prelude.{true, none, some, List, [], ◌∷◌, map, ◌≡◌, refl, ◌≤◌, arith}
use fde_agent_platform.Python.Value.{end, field, null, str}
use fde_agent_platform.Gate.Workflow.Tables.{
  awaiting_human, running, cancelled, tool, human, notify, halt, retry, Step, RunStep, Run,
}
use fde_agent_platform.Gate.Workflow.Transitions.{
  done, new_run_step, begin_step, with_row, park, cancel_row,
}
use fde_agent_platform.Gate.Runner.Rounds.{opened}
use fde_agent_platform.Gate.Workflow.Operations.{
  begin, await, cancel, new_run, apply, Reach, started, next, after, timeout_steps,
}
use fde_agent_platform.Gate.Workflow.Safety.{
  Reach-one_open, timeout_steps-awaiting, terminal_absorbs, count_open,
}
use fde_agent_platform.Gate.Workflow.Heals.{closes, timeout_steps-closes}

abbrev pub fetch : Step
fetch = record {
  step_id = 11;
  step_key = "fetch";
  ordinal = 1;
  kind = tool;
  human_schema = null;
  timeout_seconds = 900;
  on_failure = retry;
}

abbrev pub tell : Step
tell = record {
  step_id = 12;
  step_key = "tell";
  ordinal = 2;
  kind = notify;
  human_schema = null;
  timeout_seconds = 60;
  on_failure = halt;
}

abbrev pub ask : Step
ask = record fetch { kind = human; step_key = "ask" }

abbrev pub two_steps : List Step
two_steps = fetch ∷ tell ∷ []

abbrev pub fresh : Run
fresh = new_run 7 end 11

-- After one transaction, at second 5, and after another one.
abbrev pub fetching : Run
fetching = opened 5 fresh fetch

pub fetching-Reach : Reach two_steps 7 end 11 fetching
unfolding apply
fetching-Reach = next 5 begin fetching started refl

abbrev cancelled_run : Run
cancelled_run = record fetching {
  run_steps = map (cancel_row two_steps 6) fetching.run_steps;
  status = cancelled;
  finished_at = some 6;
  error = some (field "cancelled_by" (str "ana") end);
}

cancelled_run-Reach : Reach two_steps 7 end 11 cancelled_run
unfolding apply
cancelled_run-Reach = next 6 (cancel "ana") cancelled_run fetching-Reach refl

abbrev asking : Run
asking = opened 5 fresh ask

abbrev asked : Run
asked = record (with_row asking 1 (park (ask ∷ []) 6 none)) { status = awaiting_human }

asked-Reach : Reach (ask ∷ []) 7 end 11 asked
unfolding apply
asked-Reach = next 6 (await 1 none) asked (next 5 begin asking started refl) refl

Reach-one_open_example : count_open fetching.run_steps ≤ 1
Reach-one_open_example = Reach-one_open two_steps 7 end 11 fetching fetching-Reach

fetch_begun : begin_step two_steps 5 fresh ≡ done fetching
unfolding begin_step
fetch_begun = refl

timeout_steps-awaiting_example : timeout_steps (ask ∷ []) 100000 asked ≡ done asked
timeout_steps-awaiting_example =
    timeout_steps-awaiting (ask ∷ []) 100000 7 end 11 asked asked-Reach refl

terminal_absorbs_example :
    after cancelled_run (apply two_steps 9 (cancel "bo") cancelled_run) ≡ cancelled_run
terminal_absorbs_example =
    terminal_absorbs two_steps 9 7 end 11 cancelled_run (cancel "bo") cancelled_run-Reach refl

abbrev pub fetch_attempt : RunStep
fetch_attempt = new_run_step 5 1 11 1 running fresh.context

timeout_steps-closes_example : closes (timeout_steps two_steps 906 fetching) ≡ true
timeout_steps-closes_example =
    timeout_steps-closes two_steps 906 7 end 11 fetching fetch_attempt fetch fetching-Reach refl
      refl refl (omega arith)
