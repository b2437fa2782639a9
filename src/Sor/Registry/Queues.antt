-- ===== src/Sor/Registry/Queues.antt =====
-- registry.py: which texts the pattern of a queue's name matches.
use Prim.Native.String
use text.Mathlib.TextLemmas.{nil-append, cons-append}
use fde_agent_platform.Prelude.{
  ℕ, code, String, Bool, true, false, ◌&&◌, ◌==◌, not, ◌≡◌, ap, ◌⊎◌, inl, inr, arith,
}
use fde_agent_platform.Python.Text.{is_empty}
use fde_agent_platform.Python.Text.Split.{joined}
use fde_agent_platform.Sor.Registry.{some_suffix, like_from, name_pattern}

-- No character of the text means anything else in a pattern.
abbrev pub is_plain_char : ℕ → Bool
is_plain_char c = not (c == b'%') && (not (c == b'_') && not (c == b'\\'))

-- A pattern's text covers a text: character by character the same, or an underscore in the pattern.
abbrev pub Covers : String → String → Type 0
Covers String.[] s = is_empty s ≡ true
Covers (String.◌∷◌ c p) String.[] = ⊥
Covers (String.◌∷◌ c p) (String.◌∷◌ d s) =
    ((c ≡ d) × (is_plain_char (code c) ≡ true) ⊎ (code c ≡ b'_')) × Covers p s

like_from-Covers : (p s : String) → Covers p s → like_from false p s ≡ true
unfolding like_from
like_from-Covers String.[] s h = h
like_from-Covers (String.◌∷◌ c p) String.[] h = absurd h
like_from-Covers (String.◌∷◌ c p) (String.◌∷◌ d s) (inl (e, plain), rest) =
    ground (arith, ap code e, like_from-Covers p s rest)
like_from-Covers (String.◌∷◌ c p) (String.◌∷◌ d s) (inr e, rest) =
    ground (arith, like_from-Covers p s rest)

some_suffix_self : (test : String → Bool) (s : String) → test s ≡ true → some_suffix test s ≡ true
some_suffix_self test String.[] h = h
some_suffix_self test (String.◌∷◌ c s) h = ground arith

some_suffix-append :
    (test : String → Bool) (a b : String)
    → test b ≡ true
    → some_suffix test (String.◌++◌ a b) ≡ true
some_suffix-append test String.[] b h = rw nil-append (some_suffix_self test b h)
some_suffix-append test (String.◌∷◌ c a) b h =
    rw cons-append (ground (arith, some_suffix-append test a b h))

-- The pattern of a queue's name matches each url whose last part the name covers: the queue's own url, and
-- where the name has an underscore, also the url of a queue that has any other character there.
pub name_pattern-Covers :
    (queue host name : String)
    → Covers queue name
    → like_from false (name_pattern queue) (joined "/" host name) ≡ true
unfolding like_from
name_pattern-Covers queue host name h =
    some_suffix-append (like_from false (String.◌∷◌ "/" queue)) host (String.◌∷◌ "/" name)
      (like_from-Covers queue name h)
