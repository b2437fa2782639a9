-- ===== src/Training/Monitor/Window.antt =====
-- rewards/monitor.py: what silences the alert.
use mathlib.Core.Option.{some-injective, none-ne-some}
use fde_agent_platform.Prelude.{
  ℕ, zero, suc, ◌+◌, ◌<◌, ◌≤◌, true, false, some, List, [], ◌∷◌, length, get_elem?, ltb, ◌≡◌, refl,
  ◌∙◌, ap, arith, Bool-cases, inl, inr,
}
use fde_agent_platform.Training.Monitor.{
  StepStats, RewardHackingMonitor, newest, falls, is_collapsing, fine, warn_last, append_stats,
  observe,
}

get-newest : (n i : ℕ) (ss : List StepStats) → i < n → get_elem? (newest n ss) i ≡ get_elem? ss i
get-newest n i [] h = refl
get-newest zero i (s ∷ ss) h = absurd (omega arith)
get-newest (suc n) zero (s ∷ ss) h = refl
get-newest (suc n) (suc i) (s ∷ ss) h = get-newest n i ss (omega arith)

is_collapsing-broken :
    (ss : List StepStats) (i : ℕ) (a b : StepStats)
    → get_elem? ss i ≡ some b
    → get_elem? ss (suc i) ≡ some a
    → falls a.mean_tool_calls b.mean_tool_calls ≡ false
    → is_collapsing ss ≡ false
unfolding is_collapsing
is_collapsing-broken [] i a b h k rises = absurd (none-ne-some b h)
is_collapsing-broken (x ∷ []) i a b h k rises = absurd (none-ne-some a k)
is_collapsing-broken (x ∷ y ∷ ss) zero a b h k rises =
    let falls_not =
      ap (λ (q : StepStats). falls y.mean_tool_calls q.mean_tool_calls) (some-injective x b h)
      ∙ (ap (λ (q : StepStats). falls q.mean_tool_calls b.mean_tool_calls) (some-injective y a k)
          ∙ rises) in
    simp falls_not refl
is_collapsing-broken (x ∷ y ∷ ss) (suc i) a b h k rises =
    ground (arith, is_collapsing-broken (y ∷ ss) i a b h k rises)

warn_last-fine :
    (m : RewardHackingMonitor) (ss : List StepStats)
    → is_collapsing ss ≡ false
    → (warn_last m ss).0 ≡ fine
warn_last-fine m [] h = refl
warn_last-fine m (s ∷ ss) h = simp h refl

-- One step of the window whose mean of tool calls did not fall keeps the monitor from an alert, in the
-- history as it stands with the new step.
pub observe_quiet :
    (m : RewardHackingMonitor) (s a b : StepStats) (i : ℕ)
    → i < m.collapse_window
    → get_elem? (append_stats s m).history i ≡ some b
    → get_elem? (append_stats s m).history (suc i) ≡ some a
    → falls a.mean_tool_calls b.mean_tool_calls ≡ false
    → (observe m s).0 ≡ fine
unfolding observe append_stats
observe_quiet m s a b i inside h k rises =
    let next = append_stats s m in
    elim (Bool-cases (ltb (length next.history) (m.collapse_window + 1))) [
      | inl short ↦ simp short refl
      | inr long ↦ simp long (
          warn_last-fine next (newest (m.collapse_window + 1) next.history) (
            is_collapsing-broken (newest (m.collapse_window + 1) next.history) i a b
              (get-newest (m.collapse_window + 1) i next.history (omega arith) ∙ h)
              (get-newest (m.collapse_window + 1) (suc i) next.history (omega arith) ∙ k) rises))
    ]

length-newest : (n : ℕ) (ss : List StepStats) → length (newest n ss) ≤ n
length-newest n [] = omega arith
length-newest zero (s ∷ ss) = omega arith
length-newest (suc n) (s ∷ ss) = omega (arith, length-newest n ss)

short_history :
    (m : RewardHackingMonitor) (s : StepStats)
    → m.history_size ≤ m.collapse_window
    → ltb (length (newest m.history_size (s ∷ m.history))) (m.collapse_window + 1) ≡ true
short_history m s small = ground (arith, length-newest m.history_size (s ∷ m.history))

-- A monitor that keeps no more steps than its window never gives an alert, whatever it observes.
pub observe_blind :
    (m : RewardHackingMonitor) (s : StepStats)
    → m.history_size ≤ m.collapse_window
    → (observe m s).0 ≡ fine
unfolding observe append_stats
observe_blind m s small = simp (short_history m s small) refl
