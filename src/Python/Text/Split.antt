-- ===== src/Python/Text/Split.antt =====
-- `split` undoes joining with its separator.
use Prim.Native.String
use text.Mathlib.TextLemmas.{nil-append, cons-append, append_assoc}
use fde_agent_platform.Prelude.{ℕ, Char, code, String, List, [], ◌∷◌, ◌++◌, ◌≡◌, ◌≢◌, refl, arith}
use fde_agent_platform.Python.Text.{split, push}

-- `a`, the character, `b`.
abbrev pub joined : Char → String → String → String
joined c a b = String.◌++◌ a (String.◌∷◌ c b)

push-ne-nil : (c : Char) (xs : List String) → push c xs ≢ []
push-ne-nil c [] = ground arith
push-ne-nil c (x ∷ xs) = ground arith

split-ne-nil : (sep : ℕ) (s : String) → split sep s ≢ []
unfolding split
split-ne-nil sep String.[] = ground arith
split-ne-nil sep (String.◌∷◌ c s) = ground (arith, push-ne-nil c (split sep s))

push-append : (c : Char) (xs ys : List String) → xs ≢ [] → push c (xs ++ ys) ≡ push c xs ++ ys
push-append c [] ys h = absurd (h refl)
push-append c (x ∷ xs) ys h = refl

pub split-joined :
    (sep : Char) (a b : String)
    → split (code sep) (joined sep a b) ≡ split (code sep) a ++ split (code sep) b
unfolding split
split-joined sep String.[] b = rw nil-append (ground arith)
split-joined sep (String.◌∷◌ c a) b = rw cons-append (
    ground (
      arith,
      split-joined sep a b,
      push-append c (split (code sep) a) (split (code sep) b),
      split-ne-nil (code sep) a,
    ))

pub joined_assoc :
    (c : Char) (x y z : String) → joined c (joined c x y) z ≡ joined c x (joined c y z)
joined_assoc c x y z = rw append_assoc (rw cons-append)
