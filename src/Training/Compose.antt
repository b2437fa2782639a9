-- ===== src/Training/Compose.antt =====
-- rewards/__init__.py: `compose_rewards`. A reward is a whole number of one unit, and a weight a whole number
-- of hundredths, so a combined reward counts hundredths of the unit. The functions of `REWARD_FUNCTIONS`
-- are a parameter: composing does not depend on what they compute.
pub mod Weighted
use fde_agent_platform.Prelude.{
  ℕ, suc, String, Option, none, some, List, [], ◌∷◌, length, ◌==◌, str_eq, if◌then◌else◌,
}
use fde_agent_platform.Prelude.Int.{ℤ, pos, ◌+ℤ◌, ◌*ℤ◌}
use fde_agent_platform.Python.Value.{Value}

-- `DEFAULT_WEIGHTS`
abbrev pub default_weights : List (String × ℤ)
default_weights =
    ("r_grounded", pos 30)
    ∷ ("r_outcome", pos 25)
    ∷ ("r_schema_valid", pos 10)
    ∷ ("r_format", pos 5)
    ∷ ("r_hop_efficiency", pos 10)
    ∷ ("r_retrieval_quality", pos 10)
    ∷ ("r_citation", pos 5)
    ∷ ("r_cost", pos 5)
    ∷ []

-- `weights.get(name, 0.0)`
abbrev pub weight_of : String → List (String × ℤ) → ℤ
weight_of name [] = pos 0
weight_of name ((n, w) ∷ rest) = if str_eq n name then w else weight_of name rest

-- `weights or DEFAULT_WEIGHTS`
abbrev pub weights_or_default : List (String × ℤ) → List (String × ℤ)
weights_or_default [] = default_weights
weights_or_default (w ∷ ws) = w ∷ ws

-- A reward function, under its name.
abbrev pub RewardFunction : Type 0
RewardFunction = String × (List Value → List ℤ)

-- `for i, v in enumerate(values): combined[i] += w * v`
unfoldable pub add_weighted : ℤ → List ℤ → List ℤ → List ℤ
add_weighted w [] combined = combined
add_weighted w (v ∷ vs) [] = []
add_weighted w (v ∷ vs) (c ∷ cs) = (c +ℤ w *ℤ v) ∷ add_weighted w vs cs

abbrev pub zeros : ℕ → List ℤ
zeros ℕ.zero = []
zeros (suc n) = pos 0 ∷ zeros n

-- The combined rewards and the breakdown by term.
abbrev pub Composed : Type 0
Composed = List ℤ × List (String × List ℤ)

abbrev pub with_term : String → List ℤ → Option Composed → Option Composed
with_term name values none = none
with_term name values (some (combined, per_term)) = some (combined, (name, values) ∷ per_term)

-- The loop over the functions. `none` is the `ValueError` for a function that gives a list of another length.
unfoldable pub compose_terms :
    List RewardFunction → List (String × ℤ) → List Value → List ℤ → Option Composed
unfolding add_weighted
compose_terms [] weights completions combined = some (combined, [])
compose_terms ((name, fn) ∷ fns) weights completions combined =
    let values = fn completions in
    let rest =
      compose_terms fns weights completions
        (add_weighted (weight_of name weights) values combined) in
    if length values == length completions then with_term name values rest else none

-- `compose_rewards`
unfoldable pub compose_rewards :
    List RewardFunction → List (String × ℤ) → List Value → Option Composed
unfolding compose_terms
compose_rewards fns weights completions =
    compose_terms fns (weights_or_default weights) completions (zeros (length completions))
