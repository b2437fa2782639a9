-- ===== src/Training/Rewards/Outcome.antt =====
-- rewards/outcome.py: `_f1`. A set is a list; `predicted` and `gold` repeat no key.
pub mod Dice
use fde_agent_platform.Prelude.{ℕ, ◌+◌, String, List, [], ◌∷◌, length, elem, ◌==◌, if◌then◌else◌}
use fde_agent_platform.Training.Ratio.{Ratio, ◌//◌, times, plus, over}

-- `len(predicted & gold)`
abbrev pub common : List String → List String → ℕ
common [] gold = 0
common (k ∷ ks) gold = (if elem k gold then 1 else 0) + common ks gold

-- The score of `tp` hits among keys that are there on both sides.
unfoldable pub f1_of : ℕ → ℕ → ℕ → Ratio
f1_of tp predicted gold =
    let precision = tp // predicted in
    let recall = tp // gold in
    if tp == 0
    then 0 // 1
    else over (times (times (2 // 1) precision) recall) (plus precision recall)

-- `_f1`
unfoldable pub f1 : List String → List String → Ratio
unfolding f1_of
f1 [] [] = 1 // 1
f1 [] (g ∷ gs) = 0 // 1
f1 (p ∷ ps) [] = 0 // 1
f1 (p ∷ ps) (g ∷ gs) = f1_of (common (p ∷ ps) (g ∷ gs)) (length (p ∷ ps)) (length (g ∷ gs))
