-- ===== src/Agents/Hitl/Ends.antt =====
-- common/hitl.py: the wait ends by its timeout, and polls at a bounded pace.
use fde_agent_platform.Prelude.{
  ℕ, zero, suc, ◌+◌, ◌≤◌, ◌<◌, Bool, true, false, Option, none, some, List, [], ◌∷◌, leb, ◌≡◌, refl,
  if◌then◌else◌, arith, not, ◌&&◌, ◌||◌, ◌==◌, ◌≢◌, ◌⊎◌, inl, inr,
}
use mathlib.Core.Option.{none-ne-some}
use fde_agent_platform.Python.Value.{
  Fields, Value, null, obj, arr, Items, nil, cons, get, get_or, truthy,
}
use fde_agent_platform.Agents.Hitl.{
  Poll, Reply, Verdict, decided, undecided, stalls, raises, evaluate, Waited, result, raised,
  timed_out, Schedule, next_delay, poll_loop, await_human_gate, filter_out, approved, status_of,
  call_timeout, call_error, GateWaitOutcome, is_text, is_true, blocking, blocking_in, judge,
  judge_proposal,
}

-- What is asked of a schedule: delays do not shrink, and lie between a positive one and a largest one.
pub record IsSchedule (c : Schedule) : Type 0 where
  pub positive : 1 ≤ c.initial
  pub ordered : c.initial ≤ c.maximum
  pub grows : (d : ℕ) → d ≤ c.grow d

-- Never faster than the first delay, never slower than the largest one.
pub next_delay-bounded :
    (c : Schedule) (d : ℕ)
    → IsSchedule c
    → c.initial ≤ d
    → (c.initial ≤ next_delay c d) × (next_delay c d ≤ c.maximum)
unfolding next_delay
next_delay-bounded c d s h = (omega (arith, s.ordered, s.grows d, h), omega arith)

-- The call of some poll up to number `last` raises, or answers a shape that the loop raises on.
abbrev pub RaisesBy : (ℕ → Poll) → ℕ → Type 0
RaisesBy polls last = (k : ℕ) × (k ≤ last) × (evaluate (polls k).reply ≡ raises)

-- A wait that ends: it returns by some time, a decision before the timeout, or a poll makes it raise.
abbrev pub Ends : (ℕ → Poll) → ℕ → ℕ → ℕ → Option Waited → Type 0
Ends polls last timeout lag none = ⊥
Ends polls last timeout lag (some (result timed_out elapsed)) = elapsed ≤ timeout + lag
Ends polls last timeout lag (some (result outcome elapsed)) = elapsed < timeout
Ends polls last timeout lag (some raised) = RaisesBy polls last

module _ (c : Schedule) (polls : ℕ → Poll) (lag : ℕ) (s : IsSchedule c)
    (prompt : (n : ℕ) → (polls n).overrun ≤ lag) where
  decided_in_time :
      (last elapsed : ℕ) (outcome : GateWaitOutcome)
      → elapsed < c.timeout
      → Ends polls last c.timeout lag (some (result outcome elapsed))
  decided_in_time last elapsed timed_out h = omega arith
  decided_in_time last elapsed _ h = h

  before : (a : ℕ) → leb c.timeout a ≡ false → a < c.timeout
  before a h = ground arith

  -- The body of the loop, from its tests and its verdict.
  body-Ends :
      (n last answered late : ℕ) (rest : Option Waited) (overdue later : Bool) (v : Verdict)
      → leb c.timeout answered ≡ overdue
      → evaluate (polls n).reply ≡ v
      → n ≤ last
      → late ≤ c.timeout + lag
      → (later ≡ false → Ends polls last c.timeout lag rest)
      → Ends polls last c.timeout lag (
          if overdue then some (result timed_out late) else (elim v as (λ x. Option Waited) [
            | decided outcome ↦ some (result outcome answered)
            | stalls ↦ some (result timed_out answered)
            | raises ↦ some raised
            | undecided ↦ if later then some (result timed_out late) else rest
          ]))
  body-Ends n last answered late rest true later v o e m l k = l
  body-Ends n last answered late rest false later (decided outcome) o e m l k =
      decided_in_time last answered outcome (before answered o)
  body-Ends n last answered late rest false later stalls o e m l k =
      omega (arith, before answered o)
  body-Ends n last answered late rest false later raises o e m l k = (n, m, e)
  body-Ends n last answered late rest false true undecided o e m l k = l
  body-Ends n last answered late rest false false undecided o e m l k = k refl

  poll_loop-Ends :
      (fuel n last elapsed delay : ℕ)
      → c.initial ≤ delay
      → 1 ≤ fuel
      → c.timeout < elapsed + fuel
      → n + fuel ≤ last + 1
      → Ends polls last c.timeout lag (poll_loop c polls fuel n elapsed delay)
  unfolding poll_loop
  poll_loop-Ends zero n last elapsed delay d f h m = absurd (omega arith)
  poll_loop-Ends (suc fuel) n last elapsed delay d f h m =
      let answered = elapsed + (polls n).latency in
      body-Ends n last answered (c.timeout + (polls n).overrun)
        (poll_loop c polls fuel (n + 1) (answered + delay) (next_delay c delay))
        (leb c.timeout answered) (leb c.timeout (answered + delay)) (evaluate (polls n).reply) refl
        refl (omega arith) (omega (arith, prompt n))
        (λ early.
          let left = before (answered + delay) early in
          poll_loop-Ends fuel (n + 1) last (answered + delay) (next_delay c delay)
            (next_delay-bounded c delay s d).0 (omega (arith, s.positive, d, h, left))
            (omega (arith, s.positive, d, h)) (omega (arith, m)))

abbrev pub absent : ℕ → List ℕ → Bool
absent task [] = true
absent task (t ∷ tasks) = not (t == task) && absent task tasks

fresh-filter_out :
    (task : ℕ) (tasks : List ℕ) → absent task tasks ≡ true → filter_out task tasks ≡ tasks
fresh-filter_out task [] h = refl
fresh-filter_out task (t ∷ tasks) h = let rest = fresh-filter_out task tasks in ground arith

-- Where the first delay is at least a millisecond and at most the largest one, delays do not shrink, and the
-- runtime ends a wait at most `lag` after its timeout: a wait with a timeout of any length, whatever the
-- polls answer and however long they take, ends within `timeout + 1` polls. It returns a decision before
-- the timeout, or that it timed out at most `lag` after it, or raises, and then one of these polls
-- raised or answered a shape that the loop raises on. The runtime then counts the same tasks as
-- before, the new one having a number of its own.
pub await_human_gate-Ends :
    (c : Schedule) (polls : ℕ → Poll) (lag : ℕ) (tasks : List ℕ) (task : ℕ)
    → IsSchedule c
    → ((n : ℕ) → (polls n).overrun ≤ lag)
    → absent task tasks ≡ true
    → Ends polls c.timeout c.timeout lag (await_human_gate c polls tasks task (c.timeout + 1)).0
      × ((await_human_gate c polls tasks task (c.timeout + 1)).1 ≡ tasks)
unfolding await_human_gate
await_human_gate-Ends c polls lag tasks task s prompt fresh =
    let same = fresh-filter_out task tasks fresh in
    (
      poll_loop-Ends c polls lag s prompt (c.timeout + 1) 0 c.timeout 0 c.initial (omega arith)
          (omega arith) (omega arith) (omega arith),
      ground arith,
    )

abbrev pub proposal_merged : Value → Bool
proposal_merged (obj proposal) = is_text (get proposal "status") "merged"
proposal_merged v = false

-- What a status has to say for an approval.
abbrev pub grants : Reply → Bool
grants (status_of (some status)) =
    not (truthy (get status "error"))
    && (proposal_merged (get status "proposal") || is_true (get status "overall_satisfied"))
grants reply = false

blocking-approved : (gates : Items) → blocking gates ≢ decided approved
blocking-approved nil h = cc
blocking-approved (cons v rest) h = let later = blocking-approved rest in ground arith

blocking_in-approved : (v : Value) → blocking_in v ≢ decided approved
blocking_in-approved (arr gates) h = blocking-approved gates h
blocking_in-approved v h = ground arith

judge-approved :
    (proposal_status : Value) (status : Fields)
    → judge proposal_status status ≡ decided approved
    → (is_text proposal_status "merged" || is_true (get status "overall_satisfied")) ≡ true
judge-approved p status h =
    let gates = blocking_in-approved (get_or status "gates" (arr nil)) in ground arith

judge_proposal-approved :
    (p : Value) (status : Fields)
    → judge_proposal p status ≡ decided approved
    → (proposal_merged p || is_true (get status "overall_satisfied")) ≡ true
judge_proposal-approved (obj proposal) status h = judge-approved (get proposal "status") status h
judge_proposal-approved v status h = let nothing = judge-approved null status in ground arith

evaluate-approved : (r : Reply) → evaluate r ≡ decided approved → grants r ≡ true
unfolding evaluate
evaluate-approved call_timeout h = cc
evaluate-approved call_error h = cc
evaluate-approved (status_of none) h = cc
evaluate-approved (status_of (some status)) h =
    let inner = judge_proposal-approved (get status "proposal") status in ground arith

-- An approval is this poll's or a later one's.
approved_now :
    (v : Verdict) (overdue later : Bool) (late answered t : ℕ) (rest : Option Waited)
    → (if overdue then some (result timed_out late) else (elim v as (λ x. Option Waited) [
      | decided outcome ↦ some (result outcome answered)
      | stalls ↦ some (result timed_out answered)
      | raises ↦ some raised
      | undecided ↦ if later then some (result timed_out late) else rest
    ]))
      ≡ some (result approved t)
    → (v ≡ decided approved) ⊎ (rest ≡ some (result approved t))
approved_now v overdue later late answered t rest h = ground arith

-- A wait of at most `fuel` polls, the first of them number `n`, that ends as approved: one of these polls
-- answers a status without an error, in which the proposal is merged or every gate is satisfied.
pub poll_loop-approved :
    (c : Schedule) (polls : ℕ → Poll) (fuel n elapsed delay t : ℕ)
    → poll_loop c polls fuel n elapsed delay ≡ some (result approved t)
    → (k : ℕ) × (n ≤ k) × (k < n + fuel) × (grants (polls k).reply ≡ true)
unfolding poll_loop
poll_loop-approved c polls zero n elapsed delay t h = absurd (none-ne-some _ h)
poll_loop-approved c polls (suc fuel) n elapsed delay t h =
    let answered = elapsed + (polls n).latency in
    let rest = poll_loop c polls fuel (n + 1) (answered + delay) (next_delay c delay) in
    elim (approved_now (evaluate (polls n).reply) (leb c.timeout answered)
      (leb c.timeout (answered + delay)) (c.timeout + (polls n).overrun) answered t rest h) [
        | inl e ↦ (n, omega arith, omega arith, evaluate-approved (polls n).reply e)
        | inr e ↦
            let (k, least, most, says) =
              poll_loop-approved c polls fuel (n + 1) (answered + delay) (next_delay c delay) t e in
            (k, omega (arith, least), omega (arith, most), says)
      ]
