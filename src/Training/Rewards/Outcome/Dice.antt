-- ===== src/Training/Rewards/Outcome/Dice.antt =====
-- rewards/outcome.py: `_f1` as the overlap of the two sets.
use fde_agent_platform.Prelude.{
  ℕ, ◌+◌, ◌*◌, ◌<◌, String, List, [], ◌∷◌, length, ◌==◌, ◌≡◌, refl, arith, Bool-cases, inl, inr,
}
use fde_agent_platform.Training.Ratio.{◌//◌, Same}
use fde_agent_platform.Training.Rewards.Outcome.{common, f1_of, f1}

common-nil : (ks : List String) → common ks [] ≡ 0
common-nil [] = refl
common-nil (k ∷ ks) = omega (arith, common-nil ks)

f1_of-dice : (tp p g : ℕ) → Same (f1_of tp p g) ((2 * tp) // (p + g))
unfolding f1_of
f1_of-dice tp p g = elim (Bool-cases (tp == 0)) [
  | inl none_hit ↦ ground arith
  | inr hit ↦ simp hit (omega arith)
]

-- Where one of the sets holds a key, the score is twice the number of common keys over the number of keys
-- of both.
pub f1-dice :
    (predicted gold : List String)
    → 0 < length predicted + length gold
    → Same (f1 predicted gold) ((2 * common predicted gold) // (length predicted + length gold))
unfolding f1
f1-dice [] [] there = absurd (omega arith)
f1-dice [] (g ∷ gs) there = omega arith
f1-dice (p ∷ ps) [] there = omega (arith, common-nil ps)
f1-dice (p ∷ ps) (g ∷ gs) there =
    f1_of-dice (common (p ∷ ps) (g ∷ gs)) (length (p ∷ ps)) (length (g ∷ gs))
