-- ===== src/Training/Monitor.antt =====
-- rewards/monitor.py: the history of a training run and the test for a collapse of tool calls. Means are
-- fractions.
pub mod Window
use fde_agent_platform.Prelude.{
  ℕ, suc, ◌+◌, ◌*◌, ◌^◌, Bool, true, false, ◌&&◌, Option, none, some, List, [], ◌∷◌, length, ltb,
  ◌==◌, if◌then◌else◌,
}
use fde_agent_platform.Training.Ratio.{Ratio, ◌//◌, plus}

pub record StepStats : Type 0 where
  pub step : ℕ
  pub mean_tool_calls : Ratio
  pub mean_hops : Ratio
  pub ungrounded_claim_rate : Ratio
  pub n_examples : ℕ

-- `RewardHackingMonitor`. The newest step of `history` is the first.
pub record RewardHackingMonitor : Type 0 where
  pub collapse_window : ℕ
  pub strict : Bool
  pub history_size : ℕ
  pub history : List StepStats
  pub collapse_already_warned_at : Option ℕ

-- The first `n` elements: the newest steps.
abbrev pub newest : ℕ → List StepStats → List StepStats
newest n [] = []
newest ℕ.zero (s ∷ ss) = []
newest (suc n) (s ∷ ss) = s ∷ newest n ss

-- `b.mean_tool_calls - a.mean_tool_calls < -1e-9`
abbrev pub falls : Ratio → Ratio → Bool
falls a b = let c = plus b (1 // 10 ^ 9) in ltb (c.num * a.den) (a.num * c.den)

-- `all(d < -1e-9 for d in deltas)`
unfoldable pub is_collapsing : List StepStats → Bool
is_collapsing [] = true
is_collapsing (b ∷ []) = true
is_collapsing (b ∷ a ∷ ss) = falls a.mean_tool_calls b.mean_tool_calls && is_collapsing (a ∷ ss)

-- What `_check_collapse` does: it returns a Boolean, with an alert logged or not, or raises when strict.
pub data Verdict : Type 0 where
  fine : Verdict
  already_warned : Verdict
  alert : Verdict
  raises : Verdict

abbrev pub warned_at : Option ℕ → ℕ → Bool
warned_at none step = false
warned_at (some at) step = at == step

abbrev pub warn : RewardHackingMonitor → ℕ → Verdict × RewardHackingMonitor
warn m step =
    if warned_at m.collapse_already_warned_at step
    then (already_warned, m)
    else (if m.strict then raises else alert, record m { collapse_already_warned_at = some step })

abbrev pub warn_last : RewardHackingMonitor → List StepStats → Verdict × RewardHackingMonitor
warn_last m [] = (fine, m)
warn_last m (s ∷ ss) = if is_collapsing (s ∷ ss) then warn m s.step else (fine, m)

-- `_check_collapse`
unfoldable pub check_collapse : RewardHackingMonitor → Verdict × RewardHackingMonitor
unfolding is_collapsing
check_collapse m =
    if ltb (length m.history) (m.collapse_window + 1)
    then (fine, m)
    else warn_last m (newest (m.collapse_window + 1) m.history)

-- `self.history.append(stats)`, where the deque drops its oldest step.
unfoldable pub append_stats : StepStats → RewardHackingMonitor → RewardHackingMonitor
append_stats s m = record m { history = newest m.history_size (s ∷ m.history) }

-- `observe`, from the statistics of the step on.
unfoldable pub observe : RewardHackingMonitor → StepStats → Verdict × RewardHackingMonitor
unfolding append_stats check_collapse
observe m s = check_collapse (append_stats s m)
