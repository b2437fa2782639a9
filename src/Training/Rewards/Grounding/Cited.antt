-- ===== src/Training/Rewards/Grounding/Cited.antt =====
-- rewards/grounding.py: an answer that cites what was not retrieved does not get the whole term.
use mathlib.Core.Option.{some-injective}
use mathlib.Core.Path.{subst}
use fde_agent_platform.Prelude.{
  ◌<◌, ◌≤◌, String, true, false, some, List, [], ◌∷◌, length, elem, str_eq, eq_iff, ◌≡◌, refl, sym,
  ◌∙◌, ap, inl, inr, Bool-cases, arith,
}
use fde_agent_platform.Python.Value.{Value}
use fde_agent_platform.Training.Ratio.{Ratio, ◌//◌, Below}
use fde_agent_platform.Training.Episode.{EpisodeLog}
use fde_agent_platform.Training.Episode.Retrieved.{retrieved_keys}
use fde_agent_platform.Training.Rewards.Grounding.{
  citations, distinct, answer_text, is_retrieved, grounded_count, score_of, answer_score,
  cited_score, grounded,
}

same_text : (x y : String) → str_eq x y ≡ true → x ≡ y
same_text x y h = (eq_iff x y).0 h

elem-distinct : (k : String) (ks : List String) → elem k ks ≡ true → elem k (distinct ks) ≡ true
elem-distinct k [] h = h
elem-distinct k (x ∷ ks) h = elim (Bool-cases (elem x (distinct ks))) [
  | inl seen ↦ elim (Bool-cases (str_eq x k)) [
    | inl same ↦ simp seen (ap (λ z. elem z (distinct ks)) (sym (same_text x k same)) ∙ seen)
    | inr other ↦ simp seen (elem-distinct k ks (simp other at h))
  ]
  | inr unseen ↦ elim (Bool-cases (str_eq x k)) [
    | inl same ↦ simp (unseen, same) refl
    | inr other ↦ simp (unseen, other) (elem-distinct k ks (simp other at h))
  ]
]

grounded_count-most : (ks : List String) (vs : List Value) → grounded_count ks vs ≤ length ks
grounded_count-most [] vs = omega arith
grounded_count-most (k ∷ ks) vs = ground (arith, grounded_count-most ks vs)

grounded_count-missing :
    (k : String) (ks : List String) (vs : List Value)
    → elem k ks ≡ true
    → is_retrieved k vs ≡ false
    → grounded_count ks vs < length ks
grounded_count-missing k [] vs h missing = ground arith
grounded_count-missing k (x ∷ ks) vs h missing = elim (Bool-cases (str_eq x k)) [
  | inl same ↦
      let absent = ap (λ z. is_retrieved z vs) (same_text x k same) ∙ missing in
      ground (arith, absent, grounded_count-most ks vs)
  | inr other ↦ ground (arith, grounded_count-missing k ks vs (simp other at h) missing)
]

module _ (lower : String → String) (log : EpisodeLog) (text k : String) (vs : List Value)
    (score : Ratio) where
  score_of-missing :
      (ks : List String)
      → elem k ks ≡ true
      → retrieved_keys log ≡ some vs
      → is_retrieved k vs ≡ false
      → score_of lower log text ks ≡ some score
      → Below score (1 // 1)
  score_of-missing [] h retrieved missing e = ground arith
  score_of-missing (x ∷ ks) h retrieved missing e =
      subst (λ q. Below q (1 // 1))
        (some-injective _ _ (sym (ap (cited_score (x ∷ ks)) retrieved) ∙ e))
        (omega (arith, grounded_count-missing k (x ∷ ks) vs h missing))

  -- An answer that cites a key which no tool call of the episode retrieved scores below 1, whatever else it
  -- cites.
  pub grounded-missing :
      answer_text log.final_answer ≡ some text
      → elem k (citations text) ≡ true
      → retrieved_keys log ≡ some vs
      → is_retrieved k vs ≡ false
      → grounded lower log ≡ some score
      → Below score (1 // 1)
  unfolding grounded
  grounded-missing answers cites retrieved missing e =
      score_of-missing (distinct (citations text)) (elem-distinct k (citations text) cites)
        retrieved missing (sym (ap (answer_score lower log) answers) ∙ e)
