-- ===== src/Training/Rewards/Efficiency.antt =====
-- rewards/efficiency.py: `r_hop_efficiency`. `canonical` is `canonical_args`, the sorted JSON text of
-- the arguments: a parameter.
pub mod Shape
use fde_agent_platform.Prelude.{
  ℕ, ◌+◌, ◌-◌, ◌*◌, max, String, Bool, ◌&&◌, List, [], ◌∷◌, ltb, leb, ◌==◌, str_eq, if◌then◌else◌,
}
use fde_agent_platform.Prelude.Int.{ℤ, pos_part}
use fde_agent_platform.Python.Value.{Fields}
use fde_agent_platform.Training.Ratio.{Ratio, ◌//◌, minus}
use fde_agent_platform.Training.Episode.{ToolCallRecord, EpisodeLog, tool_call_count}

abbrev pub ideal_lo : ℤ → ℕ
ideal_lo hops_required = max 1 (pos_part hops_required)

abbrev pub ideal_hi : ℤ → ℕ
ideal_hi hops_required = ideal_lo hops_required + 2

-- The score of the number of calls. 0.15 is 3/20.
unfoldable pub band_score : ℤ → ℕ → Ratio
band_score hops_required n =
    if n == 0
    then 0 // 1
    else if ltb n (ideal_lo hops_required)
    then n // ideal_lo hops_required
    else if leb n (ideal_hi hops_required)
    then 1 // 1
    else minus (1 // 1) ((3 * (n - ideal_hi hops_required)) // 20)

module _ (canonical : Fields → String) where
  abbrev pub same_call : ToolCallRecord → ToolCallRecord → Bool
  same_call a b =
      str_eq a.tool_name b.tool_name && str_eq (canonical a.arguments) (canonical b.arguments)

  -- `_count_adjacent_duplicate_calls`
  unfoldable pub count_adjacent_duplicate_calls : List ToolCallRecord → ℕ
  count_adjacent_duplicate_calls [] = 0
  count_adjacent_duplicate_calls (a ∷ []) = 0
  count_adjacent_duplicate_calls (a ∷ b ∷ cs) =
      (if same_call a b then 1 else 0) + count_adjacent_duplicate_calls (b ∷ cs)

  -- The term for one episode.
  unfoldable pub hop_efficiency : ℤ → EpisodeLog → Ratio
  unfolding band_score count_adjacent_duplicate_calls
  hop_efficiency hops_required log =
      minus (band_score hops_required (tool_call_count log))
        (count_adjacent_duplicate_calls log.tool_calls // 10)
