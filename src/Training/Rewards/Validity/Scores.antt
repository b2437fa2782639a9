-- ===== src/Training/Rewards/Validity/Scores.antt =====
-- rewards/validity.py: the two terms as scores, and the calls that the second one raises on.
use mathlib.Core.Path.{subst}
use mathlib.Core.Option.{none-ne-some, some-injective}
use mathlib.Core.List.{Memᴰ}
use fde_agent_platform.Prelude.{
  ℕ, suc, ◌+◌, ◌≤◌, String, Bool, true, false, Option, none, some, List, [], ◌∷◌, ◌≡◌, refl, arith,
  elem, ◌==◌, length, if◌then◌else◌, if_true, if_false, Bool-cases, inl, inr, sym, ap, ◌∙◌,
}
use fde_agent_platform.Python.Value.{Fields, str, int, get, get_or, truthy}
use fde_agent_platform.Prelude.Int.{pos}
use fde_agent_platform.Training.Ratio.{Ratio, ◌//◌, AtMost, IsScore}
use fde_agent_platform.Training.Episode.{ToolCallRecord, EpisodeLog, tool_call_count}
use fde_agent_platform.Training.Rewards.Validity.{
  known_tool_names, well_formed, is_known, format, call_valid, valid_calls, counted, share,
  schema_valid, in_range, names_valid, valid_kg_traverse_args, validate_tool_call_args,
}

well_formed-bounded : (calls : List ToolCallRecord) → well_formed calls ≤ length calls
well_formed-bounded [] = omega arith
well_formed-bounded (call ∷ calls) = let rest = well_formed-bounded calls in ground arith

known_first : (call : ToolCallRecord) → call_valid call ≡ some true → is_known call ≡ true
unfolding call_valid
known_first call h =
    chosen (is_known call) (validate_tool_call_args call.tool_name call.arguments) h
  where
    chosen : (b : Bool) (o : Option Bool) → (if b then o else some false) ≡ some true → b ≡ true
    chosen b o e = ground arith

valid_calls-well_formed :
    (calls : List ToolCallRecord) (n : ℕ) → valid_calls calls ≡ some n → n ≤ well_formed calls
unfolding valid_calls
valid_calls-well_formed [] n h = ground arith
valid_calls-well_formed (call ∷ calls) n h =
    step (call_valid call) (is_known call) (valid_calls calls) (well_formed calls) n
      (known_first call) (valid_calls-well_formed calls) h
  where
    step :
        (valid : Option Bool) (known : Bool) (rest : Option ℕ) (most n : ℕ)
        → (valid ≡ some true → known ≡ true)
        → ((k : ℕ) → rest ≡ some k → k ≤ most)
        → counted valid rest ≡ some n
        → n ≤ (if known then suc most else most)
    step none known rest most n k h e = absurd (none-ne-some _ e)
    step (some b) known none most n k h e = absurd (none-ne-some _ e)
    step (some b) known (some j) most n k h e = let less = h j refl in ground (arith, k)

share-some :
    (total : ℕ) (o : Option ℕ) (score : Ratio)
    → share total o ≡ some score
    → (n : ℕ) × (o ≡ some n) × (score ≡ n // total)
share-some total none score h = absurd (none-ne-some _ h)
share-some total (some n) score h = (n, refl, sym (some-injective _ _ h))

format_of : ℕ → ℕ → ℕ → Ratio
format_of calls malformed n = if calls + malformed == 0 then 1 // 1 else n // (calls + malformed)

-- The two scores of the counts.
compare_scores :
    (calls malformed known valid : ℕ)
    → known ≤ calls
    → valid ≤ known
    → (calls == 0) ≡ false
    → IsScore (format_of calls malformed known)
      × IsScore (valid // calls)
      × (malformed ≡ 0 → AtMost (valid // calls) (format_of calls malformed known))
unfolding format_of
compare_scores calls malformed known valid h k e = grind arith

no_calls :
    (calls malformed known : ℕ)
    → known ≤ calls
    → (calls == 0) ≡ true
    → IsScore (format_of calls malformed known)
      × IsScore (1 // 1)
      × (malformed ≡ 0 → AtMost (1 // 1) (format_of calls malformed known))
unfolding format_of
no_calls calls malformed known h e = ground arith

scores :
    (log : EpisodeLog) (score : Ratio)
    → schema_valid log ≡ some score
    → IsScore (format log)
      × IsScore score
      × (log.malformed_tool_call_count ≡ 0 → AtMost score (format log))
unfolding schema_valid format format_of
scores log score h = elim (Bool-cases (tool_call_count log == 0)) [
  | inl z ↦
      subst
        (λ q.
          IsScore (format log)
          × IsScore q
          × (log.malformed_tool_call_count ≡ 0 → AtMost q (format log)))
        (some-injective _ _ (sym (if_true _ _ _ z) ∙ h))
        (no_calls (tool_call_count log) log.malformed_tool_call_count (well_formed log.tool_calls)
          (well_formed-bounded log.tool_calls) z)
  | inr z ↦
      let (n, e, f) =
        share-some (tool_call_count log) (valid_calls log.tool_calls) score
          (sym (if_false _ _ _ z) ∙ h) in
      subst
        (λ q.
          IsScore (format log)
          × IsScore q
          × (log.malformed_tool_call_count ≡ 0 → AtMost q (format log)))
        (sym f)
        (compare_scores (tool_call_count log) log.malformed_tool_call_count
          (well_formed log.tool_calls) n (well_formed-bounded log.tool_calls)
          (valid_calls-well_formed log.tool_calls n e) z)
]

-- An episode without malformed calls on which `r_schema_valid` does not raise: both terms lie between 0
-- and 1, and it is not rated higher by `r_schema_valid` than by `r_format`.
pub schema_valid-format :
    (log : EpisodeLog) (score : Ratio)
    → schema_valid log ≡ some score
    → log.malformed_tool_call_count ≡ 0
    → IsScore (format log) × IsScore score × AtMost score (format log)
schema_valid-format log score h e = let s = scores log score h in (s.0, s.1, s.2 e)

raising_call :
    (calls : List ToolCallRecord) (call : ToolCallRecord)
    → Memᴰ call calls
    → call_valid call ≡ none
    → valid_calls calls ≡ none
unfolding valid_calls
raising_call [] call m h = elim m [ ]
raising_call (c ∷ calls) call (Memᴰ.head e) h = rw (← e, h) refl
raising_call (c ∷ calls) call (Memᴰ.tail m) h =
    stopped (call_valid c) (valid_calls calls) (raising_call calls call m h)
  where
    stopped : (b : Option Bool) (rest : Option ℕ) → rest ≡ none → counted b rest ≡ none
    stopped b rest e = ground arith

traverse-raises :
    (args : Fields) (text : String)
    → truthy (get args "edge_types") ≡ false
    → get_or args "max_hops" (int (pos 3)) ≡ str text
    → validate_tool_call_args "kg_traverse" args ≡ none
unfolding validate_tool_call_args valid_kg_traverse_args names_valid in_range
traverse-raises args text types hops = rw (types, hops) refl

call-raises :
    (call : ToolCallRecord)
    → call.tool_name ≡ "kg_traverse"
    → validate_tool_call_args "kg_traverse" call.arguments ≡ none
    → call_valid call ≡ none
unfolding call_valid is_known
call-raises call name e =
    ap
      (λ n.
        if elem n known_tool_names then validate_tool_call_args n call.arguments else some false)
      name
    ∙ e

not_empty :
    (calls : List ToolCallRecord) (call : ToolCallRecord)
    → Memᴰ call calls
    → (length calls == 0) ≡ false
not_empty [] call m = elim m [ ]
not_empty (c ∷ calls) call m = ground arith

-- A traversal whose `max_hops` is a text, in an episode: the second term has no score, since the
-- comparison raises a `TypeError` that nothing catches. Its `edge_types` are absent, empty or null.
pub schema_valid-raises :
    (log : EpisodeLog) (call : ToolCallRecord) (text : String)
    → Memᴰ call log.tool_calls
    → call.tool_name ≡ "kg_traverse"
    → truthy (get call.arguments "edge_types") ≡ false
    → get_or call.arguments "max_hops" (int (pos 3)) ≡ str text
    → schema_valid log ≡ none
unfolding schema_valid
schema_valid-raises log call text m name types hops =
    let raises = call-raises call name (traverse-raises call.arguments text types hops) in
    if_false (tool_call_count log == 0) _ _ (not_empty log.tool_calls call m)
    ∙ ap (λ o. share (tool_call_count log) o) (raising_call log.tool_calls call m raises)
