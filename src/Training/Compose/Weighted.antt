-- ===== src/Training/Compose/Weighted.antt =====
-- rewards/__init__.py: what `compose_rewards` gives each example.
use mathlib.Core.Option.{some-injective, none-ne-some}
use fde_agent_platform.Prelude.{
  ℕ, zero, suc, ◌<◌, String, Option, none, some, List, [], ◌∷◌, length, get_elem?, ◌==◌, ◌≡◌, refl,
  ap, arith, Bool-cases, inl, inr,
}
use fde_agent_platform.Prelude.Int.{ℤ, pos, ◌+ℤ◌, ◌*ℤ◌}
use fde_agent_platform.Python.Value.{Value}
use fde_agent_platform.Training.Compose.{
  RewardFunction, Composed, weight_of, weights_or_default, add_weighted, zeros, with_term,
  compose_terms, compose_rewards,
}

-- The value of one example.
abbrev pub value_at : ℕ → List ℤ → ℤ
value_at i [] = pos 0
value_at zero (v ∷ vs) = v
value_at (suc i) (v ∷ vs) = value_at i vs

-- The weighted sum of the terms of one example, on top of a value.
abbrev pub weighted_sum : ℕ → List (String × ℤ) → List Value → List RewardFunction → ℤ → ℤ
weighted_sum i weights completions [] c = c
weighted_sum i weights completions ((name, fn) ∷ fns) c =
    weighted_sum i weights completions fns
      (c +ℤ weight_of name weights *ℤ value_at i (fn completions))

get-add_weighted :
    (w : ℤ) (vs cs : List ℤ) (i : ℕ) (c : ℤ)
    → i < length vs
    → get_elem? cs i ≡ some c
    → get_elem? (add_weighted w vs cs) i ≡ some (c +ℤ w *ℤ value_at i vs)
unfolding add_weighted
get-add_weighted w [] cs i c short h = absurd (omega arith)
get-add_weighted w (v ∷ vs) [] i c short h = absurd (none-ne-some c h)
get-add_weighted w (v ∷ vs) (d ∷ cs) zero c short h =
    ap (λ x. some (x +ℤ w *ℤ v)) (some-injective _ _ h)
get-add_weighted w (v ∷ vs) (d ∷ cs) (suc i) c short h =
    get-add_weighted w vs cs i c (omega arith) h

with_term-some :
    (name : String) (values : List ℤ) (o : Option Composed) (out : List ℤ)
    (per_term : List (String × List ℤ))
    → with_term name values o ≡ some (out, per_term)
    → (before : List (String × List ℤ)) × (o ≡ some (out, before))
with_term-some name values none out per_term h = absurd (none-ne-some (out, per_term) h)
with_term-some name values (some (combined, before)) out per_term h =
    (before, ap (λ (x : Composed). some (x.0, before)) (some-injective _ _ h))

module _ (weights : List (String × ℤ)) (completions : List Value) (i : ℕ)
    (there : i < length completions) where
  get-compose_terms :
      (fns : List RewardFunction) (combined out : List ℤ) (per_term : List (String × List ℤ))
      (c : ℤ)
      → get_elem? combined i ≡ some c
      → compose_terms fns weights completions combined ≡ some (out, per_term)
      → get_elem? out i ≡ some (weighted_sum i weights completions fns c)
  unfolding compose_terms
  get-compose_terms [] combined out per_term c e h =
      rw (← ap (λ (x : Composed). x.0) (some-injective (combined, []) (out, per_term) h)) e
  get-compose_terms ((name, fn) ∷ fns) combined out per_term c e h =
      elim (Bool-cases (length (fn completions) == length completions)) [
        | inl same ↦
            let next = add_weighted (weight_of name weights) (fn completions) combined in
            let (before, k) =
              with_term-some name (fn completions) (compose_terms fns weights completions next) out
                per_term (simp same at h) in
            get-compose_terms fns next out before
              (c +ℤ weight_of name weights *ℤ value_at i (fn completions))
              (get-add_weighted (weight_of name weights) (fn completions) combined i c
                (ground arith) e)
              k
        | inr other ↦ absurd (none-ne-some (out, per_term) (simp other at h))
      ]

get-zeros : (n i : ℕ) → i < n → get_elem? (zeros n) i ≡ some (pos 0)
get-zeros zero i h = absurd (omega arith)
get-zeros (suc n) zero h = refl
get-zeros (suc n) (suc i) h = get-zeros n i (omega arith)

-- Where every reward function gives one value for each completion, the combined reward of an example is the
-- weighted sum of its own values, under the weights given or the default ones, and of no other's.
pub compose_rewards-weighted_sum :
    (fns : List RewardFunction) (weights : List (String × ℤ)) (completions : List Value)
    (out : List ℤ) (per_term : List (String × List ℤ)) (i : ℕ)
    → i < length completions
    → compose_rewards fns weights completions ≡ some (out, per_term)
    → get_elem? out i ≡ some (weighted_sum i (weights_or_default weights) completions fns (pos 0))
unfolding compose_rewards
compose_rewards-weighted_sum fns weights completions out per_term i there h =
    get-compose_terms (weights_or_default weights) completions i there fns
      (zeros (length completions)) out per_term (pos 0) (get-zeros (length completions) i there) h
