-- ===== src/Training/Rewards/Efficiency/Shape.antt =====
-- rewards/efficiency.py: the shape of `r_hop_efficiency`.
use fde_agent_platform.Prelude.{
  Bool-cases, inl, inr, ℕ, suc, ◌+◌, ◌-◌, ◌*◌, ◌≤◌, ◌<◌, String, arith, ◌≡◌, ltb,
}
use fde_agent_platform.Prelude.Int.{ℤ}
use fde_agent_platform.Python.Value.{Fields}
use fde_agent_platform.Training.Ratio.{Ratio, ◌//◌, minus, IsScore, Below}
use fde_agent_platform.Training.Episode.{EpisodeLog, tool_call_count}
use fde_agent_platform.Training.Rewards.Efficiency.{
  ideal_lo, ideal_hi, band_score, count_adjacent_duplicate_calls, hop_efficiency,
}

band_score-IsScore : (h : ℤ) (n : ℕ) → IsScore (band_score h n)
unfolding band_score
band_score-IsScore h n = ground arith

minus-IsScore : (a b : Ratio) → 0 < b.den → IsScore a → IsScore (minus a b)
minus-IsScore a b pos s = grind (arith, s.positive, s.at_most)

-- The term lies between 0 and 1.
pub hop_efficiency-IsScore :
    (canonical : Fields → String) (h : ℤ) (log : EpisodeLog)
    → IsScore (hop_efficiency canonical h log)
unfolding hop_efficiency
hop_efficiency-IsScore canonical h log =
    minus-IsScore (band_score h (tool_call_count log))
      (count_adjacent_duplicate_calls canonical log.tool_calls // 10) (omega arith)
      (band_score-IsScore h (tool_call_count log))

low : (h : ℤ) (n : ℕ) → 0 < n → n < ideal_lo h → band_score h n ≡ n // ideal_lo h
unfolding band_score
low h n some_calls below = ground arith

ideal : (h : ℤ) (n : ℕ) → ideal_lo h ≤ n → n ≤ ideal_hi h → band_score h n ≡ 1 // 1
unfolding band_score
ideal h n least most = ground arith

high :
    (h : ℤ) (n : ℕ)
    → ideal_hi h < n
    → band_score h n ≡ minus (1 // 1) ((3 * (n - ideal_hi h)) // 20)
unfolding band_score
high h n above = ground arith

rises_in :
    (h : ℤ) (n : ℕ) → 0 < n → n + 1 < ideal_lo h → Below (band_score h n) (band_score h (n + 1))
rises_in h n some_calls below =
    rw (low h n some_calls (omega arith), low h (n + 1) (omega arith) below) (grind arith)

rises_to :
    (h : ℤ) (n : ℕ) → 0 < n → n + 1 ≡ ideal_lo h → Below (band_score h n) (band_score h (n + 1))
rises_to h n some_calls e =
    rw (low h n some_calls (omega arith), ideal h (n + 1) (omega arith) (omega arith)) (omega arith)

rises_from_0 : (h : ℤ) → Below (band_score h 0) (band_score h 1)
unfolding band_score
rises_from_0 h = ground arith

falls_in :
    (h : ℤ) (n : ℕ)
    → ideal_hi h < n
    → n < ideal_hi h + 7
    → Below (band_score h (n + 1)) (band_score h n)
falls_in h n above below = rw (high h n above, high h (n + 1) (omega arith)) (omega arith)

falls_from : (h : ℤ) (n : ℕ) → n ≡ ideal_hi h → Below (band_score h (n + 1)) (band_score h n)
falls_from h n e =
    rw (ideal h n (omega arith) (omega arith), high h (n + 1) (omega arith)) (omega arith)

rises : (h : ℤ) (n : ℕ) → n < ideal_lo h → Below (band_score h n) (band_score h (n + 1))
rises h ℕ.zero below = rises_from_0 h
rises h (suc n) below = elim (Bool-cases (ltb (n + 2) (ideal_lo h))) [
  | inl e ↦ rises_in h (suc n) (omega arith) (ground arith)
  | inr e ↦ rises_to h (suc n) (omega arith) (ground arith)
]

falls :
    (h : ℤ) (n : ℕ)
    → ideal_hi h ≤ n
    → n < ideal_hi h + 7
    → Below (band_score h (n + 1)) (band_score h n)
falls h n above below = elim (Bool-cases (ltb (ideal_hi h) n)) [
  | inl e ↦ falls_in h n (ground arith) below
  | inr e ↦ falls_from h n (ground arith)
]

-- The term is two-sided. A call more raises the score of fewer calls than the ideal band, the calls of the
-- band score 1, and a call more lowers the score at the band's end and above it, for seven calls (after
-- which the score is 0).
pub band_score_two_sided :
    (h : ℤ) (few right many : ℕ)
    → few < ideal_lo h
    → ideal_lo h ≤ right
    → right ≤ ideal_hi h
    → ideal_hi h ≤ many
    → many < ideal_hi h + 7
    → Below (band_score h few) (band_score h (few + 1))
      × (band_score h right ≡ 1 // 1)
      × Below (band_score h (many + 1)) (band_score h many)
band_score_two_sided h few right many few' least most end above =
    (rises h few few', ideal h right least most, falls h many end above)
