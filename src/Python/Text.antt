-- ===== src/Python/Text.antt =====
-- The methods of `str` that the source calls: `strip`, `split` on one character, `replace`, and
-- `int(text)`. A text is its characters; `int` reads ASCII digits only.
pub mod Split
use Prim.Native.String.{[], ◌∷◌, ◌++◌}
use mathlib.Core.List.{List}
use fde_agent_platform.Prelude.{
  ℕ, ◌+◌, ◌-◌, ◌*◌, Char, code, String, Bool, true, false, ◌&&◌, ◌||◌, Option, none, some, leb,
  ◌==◌, if◌then◌else◌, str_eq,
}
use fde_agent_platform.Prelude.Int.{ℤ, pos, negsuc}

-- The characters for which `str.isspace` holds.
abbrev pub is_space : ℕ → Bool
is_space c =
    (leb 9 c && leb c 13)
    || (leb 28 c && leb c 32)
    || c == 133
    || c == 160
    || c == 5760
    || (leb 8192 c && leb c 8202)
    || c == 8232
    || c == 8233
    || c == 8239
    || c == 8287
    || c == 12288

abbrev pub is_empty : String → Bool
is_empty [] = true
is_empty (c ∷ s) = false

pub lstrip : String → String
lstrip [] = []
lstrip (c ∷ s) = let rest = lstrip s in if is_space (code c) then rest else c ∷ s

pub rstrip : String → String
rstrip [] = []
rstrip (c ∷ s) = let rest = rstrip s in if is_space (code c) && is_empty rest then [] else c ∷ rest

unfoldable pub strip : String → String
unfolding lstrip rstrip
strip s = lstrip (rstrip s)

-- Puts a character in front of the first piece.
abbrev pub push : Char → List String → List String
push c List.[] = List.◌∷◌ (c ∷ []) List.[]
push c (List.◌∷◌ w ws) = List.◌∷◌ (c ∷ w) ws

-- `text.split(sep)` for a separator of one character: never empty.
unfoldable pub split : ℕ → String → List String
split sep [] = List.◌∷◌ [] List.[]
split sep (c ∷ s) =
    let rest = split sep s in if code c == sep then List.◌∷◌ [] rest else push c rest

-- `text.replace(old, new)` for an `old` of one character.
unfoldable pub replace : ℕ → String → String → String
replace old new [] = []
replace old new (c ∷ s) =
    let rest = replace old new s in if code c == old then new ++ rest else c ∷ rest

-- The digits of `int(text)`: at least one, and single underscores between digits.
digits : Bool → ℕ → String → Option ℕ
digits after_digit n [] = if after_digit then some n else none
digits after_digit n (c ∷ s) =
    let d = code c in
    let next = digits true (n * 10 + (d - 48)) s in
    let skip = digits false n s in
    if leb 48 d && leb d 57 then next else if d == b'_' && after_digit then skip else none

abbrev pub negate : ℕ → ℤ
negate n = if n == 0 then pos 0 else negsuc (n - 1)

signed : String → Option ℤ
unfolding digits
signed [] = none
signed (c ∷ s) =
    if code c == b'-'
    then elim (digits false 0 s) [ none ↦ none | some n ↦ some (negate n) ]
    else elim (digits false 0 (if code c == b'+' then s else c ∷ s)) [
      | none ↦ none
      | some n ↦ some (pos n)
    ]

-- `int(text)`; `none` is a `ValueError`.
unfoldable pub int_of_text : String → Option ℤ
unfolding signed strip
int_of_text s = signed (strip s)

-- `text.endswith(suffix)`
abbrev pub ends_with : String → String → Bool
ends_with [] suffix = str_eq [] suffix
ends_with (c ∷ s) suffix =
    let rest = ends_with s suffix in if str_eq (c ∷ s) suffix then true else rest
