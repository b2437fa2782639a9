-- ===== src/Training/Ratio.antt =====
-- Scores of the reward terms: fractions of natural numbers, in place of Python's floats. Rounding is
-- not modelled.
use fde_agent_platform.Prelude.{ℕ, ◌+◌, ◌-◌, ◌*◌, ◌≤◌, ◌<◌, ◌≡◌}

pub record Ratio : Type 0 where
  pub num : ℕ
  pub den : ℕ

infixl 70 ◌//◌
abbrev pub ◌//◌ : ℕ → ℕ → Ratio
a // b = record { num = a; den = b }

-- `a * b`
abbrev pub times : Ratio → Ratio → Ratio
times a b = (a.num * b.num) // (a.den * b.den)

-- `a + b`
abbrev pub plus : Ratio → Ratio → Ratio
plus a b = (a.num * b.den + b.num * a.den) // (a.den * b.den)

-- `a / b`
abbrev pub over : Ratio → Ratio → Ratio
over a b = (a.num * b.den) // (a.den * b.num)

-- `max(0.0, a - b)`
abbrev pub minus : Ratio → Ratio → Ratio
minus a b = (a.num * b.den - b.num * a.den) // (a.den * b.den)

-- `a <= b`, `a < b` and `a == b`, for positive denominators.
abbrev pub AtMost : Ratio → Ratio → Type 0
AtMost a b = a.num * b.den ≤ b.num * a.den

abbrev pub Below : Ratio → Ratio → Type 0
Below a b = a.num * b.den < b.num * a.den

abbrev pub Same : Ratio → Ratio → Type 0
Same a b = a.num * b.den ≡ b.num * a.den

-- Between 0 and 1.
pub record IsScore (a : Ratio) : Type 0 where
  pub positive : 0 < a.den
  pub at_most : a.num ≤ a.den
