-- ===== src/Agents/Hitl.antt =====
-- common/hitl.py: an agent polls a proposal until its gates are decided. Times are milliseconds.
pub mod Ends
use fde_agent_platform.Prelude.{
  ℕ, suc, ◌+◌, String, Bool, false, ◌||◌, Option, none, some, List, [], ◌∷◌, min, leb, ◌==◌, str_eq,
  if◌then◌else◌,
}
use fde_agent_platform.Python.Value.{
  Fields, end, Value, null, bool, str, arr, obj, Items, nil, cons, get, get_or, truthy,
}

-- `GateWaitOutcome`
pub data GateWaitOutcome : Type 0 where
  approved rejected expired timed_out not_found : GateWaitOutcome

-- One poll: what `kg_proposal_status` answers, that the call raises a `TimeoutError` of its own or that it
-- raises anything else; how long it takes with the callback; and how long after the timeout the wait
-- ends, where the timeout ends it in this poll or in the sleep after it.
pub data Reply : Type 0 where
  status_of : Option Fields → Reply
  call_timeout call_error : Reply

pub record Poll : Type 0 where
  pub reply : Reply
  pub latency : ℕ
  pub overrun : ℕ

-- What a poll comes to: a decision, none yet, the `TimeoutError` of the call, or another exception, of the
-- call or of `get` or the loop over the gates on a shape that they do not expect.
pub data Verdict : Type 0 where
  decided : GateWaitOutcome → Verdict
  undecided stalls raises : Verdict

abbrev pub is_text : Value → String → Bool
is_text (str s) text = str_eq s text
is_text v text = false

abbrev pub is_true : Value → Bool
is_true (bool b) = b
is_true v = false

-- `any(g.get("has_blocking_decision") for g in gates)`
abbrev pub blocking : Items → Verdict
blocking nil = undecided
blocking (cons (obj gate) rest) =
    let later = blocking rest in
    if truthy (get gate "has_blocking_decision") then decided rejected else later
blocking (cons v rest) = raises

abbrev pub blocking_in : Value → Verdict
blocking_in (arr gates) = blocking gates
blocking_in (obj end) = undecided
blocking_in (str s) = if str_eq s "" then undecided else raises
blocking_in v = raises

abbrev pub judge : Value → Fields → Verdict
judge proposal_status status =
    if is_text proposal_status "merged" || is_true (get status "overall_satisfied")
    then decided approved
    else if is_text proposal_status "rejected"
    then decided rejected
    else if is_text proposal_status "expired"
    then decided expired
    else blocking_in (get_or status "gates" (arr nil))

-- `proposal = status.get("proposal") or {}`, and its status.
abbrev pub judge_proposal : Value → Fields → Verdict
judge_proposal (obj proposal) status = judge (get proposal "status") status
judge_proposal v status = if truthy v then raises else judge null status

-- The body of the loop of `_poll_loop`, up to the sleep.
unfoldable pub evaluate : Reply → Verdict
evaluate call_timeout = stalls
evaluate call_error = raises
evaluate (status_of none) = decided not_found
evaluate (status_of (some status)) =
    if truthy (get status "error")
    then decided not_found
    else judge_proposal (get status "proposal") status

pub data Waited : Type 0 where
  result : GateWaitOutcome → ℕ → Waited
  raised : Waited

-- The schedule: `grow` is the multiplication by `poll_backoff_factor`.
pub record Schedule : Type 0 where
  pub timeout : ℕ
  pub initial : ℕ
  pub maximum : ℕ
  pub grow : ℕ → ℕ

-- `min(delay * poll_backoff_factor, poll_max_s)`
unfoldable pub next_delay : Schedule → ℕ → ℕ
next_delay c delay = min (c.grow delay) c.maximum

-- `complete_async_task(task)`
abbrev pub filter_out : ℕ → List ℕ → List ℕ
filter_out task [] = []
filter_out task (t ∷ tasks) =
    let rest = filter_out task tasks in if t == task then rest else t ∷ rest

-- `_poll_loop` under `asyncio.wait_for`, which ends it at the timeout in a poll or in a sleep; the caller
-- catches any `TimeoutError` and measures the time. `fuel` is a bound on the polls, `n` counts them.
module _ (c : Schedule) (polls : ℕ → Poll) where
  unfoldable pub poll_loop : ℕ → ℕ → ℕ → ℕ → Option Waited
  unfolding evaluate next_delay
  poll_loop ℕ.zero n elapsed delay = none
  poll_loop (suc fuel) n elapsed delay =
      let answered = elapsed + (polls n).latency in
      let late = c.timeout + (polls n).overrun in
      let rest = poll_loop fuel (n + 1) (answered + delay) (next_delay c delay) in
      if leb c.timeout answered
      then some (result timed_out late)
      else (elim (evaluate (polls n).reply) [
        | decided outcome ↦ some (result outcome answered)
        | stalls ↦ some (result timed_out answered)
        | raises ↦ some raised
        | undecided ↦
            if leb c.timeout (answered + delay) then some (result timed_out late) else rest
      ])

  -- The tasks that the runtime counts as busy: the wait adds one and, in its `finally`, completes it.
  unfoldable pub await_human_gate : List ℕ → ℕ → ℕ → Option Waited × List ℕ
  unfolding poll_loop
  await_human_gate tasks task fuel =
      let busy = task ∷ tasks in (poll_loop fuel 0 0 c.initial, filter_out task busy)
