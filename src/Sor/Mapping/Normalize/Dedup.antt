-- ===== src/Sor/Mapping/Normalize/Dedup.antt =====
-- mapping.py: what `compute_dedup_key` tells apart.
use fde_agent_platform.Prelude.{String, [], ◌∷◌, Option, arith, if◌then◌else◌, ◌≡◌, sym, ◌∙◌, ap}
use fde_agent_platform.Prelude.Int.{ℤ}
use fde_agent_platform.Python.Text.{split}
use fde_agent_platform.Python.Text.Split.{joined, split-joined, joined_assoc}
use fde_agent_platform.Sor.Errors.{ok, err, unicode_error}
use fde_agent_platform.Sor.Stdlib.{Stdlib}
use fde_agent_platform.Sor.Mapping.Normalize.{dedup_material, compute_dedup_key, or_empty}

-- No `|` in a text.
abbrev pub HasNoBar : String → Type 0
HasNoBar s = split b'|' s ≡ s ∷ []

split-material :
    (py : Stdlib) (c r : String) (t : ℤ) (h : Option String)
    → HasNoBar c
    → HasNoBar r
    → HasNoBar (py.isoformat t)
    → HasNoBar (or_empty h)
    → split b'|' (dedup_material py c r t h) ≡ c ∷ r ∷ py.isoformat t ∷ or_empty h ∷ []
unfolding dedup_material
split-material py c r t h nc nr nt nh =
    let tail = joined "|" (py.isoformat t) (or_empty h) in
    split-joined "|" c (joined "|" r tail)
    ∙ cc (nc, nr, nt, nh, split-joined "|" r tail, split-joined "|" (py.isoformat t) (or_empty h))

key-digest :
    (py : Stdlib) (c r : String) (t : ℤ) (h : Option String) (key : String)
    → compute_dedup_key py c r t h ≡ ok key
    → py.sha256 (dedup_material py c r t h) ≡ key
unfolding compute_dedup_key
key-digest py c r t h key e = ground arith

-- Where SHA-256 does not collide, an instant is written in one way and no part holds a `|`, two
-- observations have one key only if they have one case, one raw activity, one instant and one actor
-- hash, an absent hash counting as the empty one. (A text without a UTF-8 encoding has no key.)
pub compute_dedup_key-injective :
    (py : Stdlib) (c r c' r' key : String) (t t' : ℤ) (h h' : Option String)
    → ((x y : String) → py.sha256 x ≡ py.sha256 y → x ≡ y)
    → ((x y : ℤ) → py.isoformat x ≡ py.isoformat y → x ≡ y)
    → ((x : ℤ) → HasNoBar (py.isoformat x))
    → HasNoBar c
    → HasNoBar r
    → HasNoBar (or_empty h)
    → HasNoBar c'
    → HasNoBar r'
    → HasNoBar (or_empty h')
    → compute_dedup_key py c r t h ≡ ok key
    → compute_dedup_key py c' r' t' h' ≡ ok key
    → (c ≡ c') × (r ≡ r') × (t ≡ t') × (or_empty h ≡ or_empty h')
compute_dedup_key-injective py c r c' r' key t t' h h' sha iso bar nc nr nh nc' nr' nh' one other =
    let parts : c ∷ r ∷ py.isoformat t ∷ or_empty h ∷ []
        ≡ c' ∷ r' ∷ py.isoformat t' ∷ or_empty h' ∷ [] =
      sym (split-material py c r t h nc nr (bar t) nh)
      ∙ ap (split b'|') (
          sha (dedup_material py c r t h) (dedup_material py c' r' t' h')
            (key-digest py c r t h key one ∙ sym (key-digest py c' r' t' h' key other)))
      ∙ split-material py c' r' t' h' nc' nr' (bar t') nh' in
    (cc, cc, iso t t' (cc), cc)

-- Where a `|` stands in the case or in the activity, two different records have one key, whatever the hash:
-- a case `a|b` with the activity `c`, and a case `a` with the activity `b|c`.
pub dedup_bar_collision :
    (py : Stdlib) (a b c : String) (t : ℤ) (h : Option String)
    → compute_dedup_key py (joined "|" a b) c t h ≡ compute_dedup_key py a (joined "|" b c) t h
unfolding compute_dedup_key
dedup_bar_collision py a b c t h =
    let tail = joined "|" (py.isoformat t) (or_empty h) in
    ap
      (λ (material : String).
        if py.encodes material then ok (py.sha256 material) else err unicode_error)
      (joined_assoc "|" a b (joined "|" c tail)
        ∙ ap (joined "|" a) (sym (joined_assoc "|" b c tail)))
