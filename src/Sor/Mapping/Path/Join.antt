-- ===== src/Sor/Mapping/Path/Join.antt =====
-- mapping.py: a dotted path resolves its parts one after the other.
use fde_agent_platform.Prelude.{String, List, [], ◌∷◌, ◌++◌, ◌≡◌, refl, sym, Bool-cases, inl, inr}
use fde_agent_platform.Python.Text.{split}
use fde_agent_platform.Python.Text.Split.{joined, split-joined}
use fde_agent_platform.Python.Value.{Value, null, is_null}
use fde_agent_platform.Sor.Mapping.Path.{step, walk, resolve_path}

walk-null : (path : List String) → walk null path ≡ null
unfolding walk
walk-null [] = refl
walk-null (s ∷ path) = refl

walk-append : (v : Value) (p q : List String) → walk v (p ++ q) ≡ walk (walk v p) q
unfolding walk
walk-append v [] q = refl
walk-append v (s ∷ p) q = elim (Bool-cases (is_null (step v s))) [
  | inl gone ↦ rw gone (sym (walk-null q))
  | inr there ↦ rw there (walk-append (step v s) p q)
]

-- A path `a.b` resolves in any payload as its part `a` from the payload and then its part `b` from
-- what `a` resolved to, with `None` for whatever is absent on the way.
pub resolve_path-joined :
    (payload : Value) (a b : String)
    → resolve_path payload (joined "." a b) ≡ resolve_path (resolve_path payload a) b
unfolding resolve_path
resolve_path-joined payload a b =
    rw (split-joined "." a b) (walk-append payload (split b'.' a) (split b'.' b))
