-- ===== src/Agents/Tests.antt =====
-- common/hitl.py on a proposal that is merged at the third poll.
use fde_agent_platform.Prelude.{
  ℕ, String, ◌+◌, ◌≤◌, ◌<◌, true, some, [], ◌∷◌, ◌≡◌, refl, ◌==◌, if◌then◌else◌, arith,
}
use fde_agent_platform.Python.Value.{Fields, end, field, str, obj}
use fde_agent_platform.Agents.Hitl.{
  Poll, status_of, Schedule, result, approved, poll_loop, await_human_gate,
}
use fde_agent_platform.Agents.Hitl.Ends.{
  IsSchedule, Ends, await_human_gate-Ends, grants, poll_loop-approved,
}

abbrev schedule : Schedule
schedule = record { timeout = 9; initial = 2; maximum = 3; grow = λ d. d + 1 }

schedule-IsSchedule : IsSchedule schedule
schedule-IsSchedule = record {
  positive = omega arith;
  ordered = omega arith;
  grows = λ d. omega arith;
}

abbrev proposal : String → Fields
proposal status = field "proposal" (obj (field "status" (str status) end)) end

abbrev polls : ℕ → Poll
polls n = record {
  reply = status_of (some (proposal (if n == 2 then "merged" else "pending")));
  latency = 1;
  overrun = 1;
}

merged_at_third : poll_loop schedule polls 10 0 0 2 ≡ some (result approved 8)
unfolding poll_loop
merged_at_third = refl

await_human_gate-Ends_example :
    Ends polls 9 9 1 (await_human_gate schedule polls (4 ∷ []) 5 10).0
    × ((await_human_gate schedule polls (4 ∷ []) 5 10).1 ≡ 4 ∷ [])
await_human_gate-Ends_example =
    await_human_gate-Ends schedule polls 1 (4 ∷ []) 5 schedule-IsSchedule (λ n. omega arith) refl

poll_loop-approved_example : (k : ℕ) × (0 ≤ k) × (k < 10) × (grants (polls k).reply ≡ true)
poll_loop-approved_example = poll_loop-approved schedule polls 10 0 0 2 8 merged_at_third
