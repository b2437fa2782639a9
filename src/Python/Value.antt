-- ===== src/Python/Value.antt =====
-- A decoded JSON value (`json.loads`, a jsonb column), and what `dict.get`, indexing, truth testing
-- and `isinstance` do on it. A float is a whole number of millionths, or not finite.
use fde_agent_platform.Prelude.{
  ℕ, suc, ◌+◌, ◌-◌, String, Bool, true, false, not, ◌||◌, Option, none, some, List, [], ◌∷◌, ltb,
  ◌==◌, str_eq, if◌then◌else◌,
}
use fde_agent_platform.Prelude.Int.{ℤ, pos, negsuc}
use fde_agent_platform.Python.Text.{is_empty}

-- `finite m` is m / 10^6.
pub data Float : Type 0 where
  finite : ℤ → Float
  infinite nan : Float

mutual
  pub data Fields : Type 0 where
    end : Fields
    field : String → Value → Fields → Fields

  pub data Value : Type 0 where
    null : Value
    bool : Bool → Value
    int : ℤ → Value
    float : Float → Value
    str : String → Value
    arr : Items → Value
    obj : Fields → Value

  pub data Items : Type 0 where
    nil : Items
    cons : Value → Items → Items

abbrev pub is_null : Value → Bool
is_null null = true
is_null _ = false

-- `fields.get(key)`; a missing key is `None`, as JSON null is.
abbrev pub get : Fields → String → Value
get end key = null
get (field k v rest) key = if str_eq k key then v else get rest key

-- `key in fields`
abbrev pub has : Fields → String → Bool
has end key = false
has (field k v rest) key = str_eq k key || has rest key

-- `fields.get(key, default)`: a key that holds null keeps its null.
abbrev pub get_or : Fields → String → Value → Value
get_or end key default = default
get_or (field k v rest) key default = if str_eq k key then v else get_or rest key default

abbrev pub items_length : Items → ℕ
items_length nil = 0
items_length (cons v rest) = suc (items_length rest)

abbrev pub nth : Items → ℕ → Value
nth nil i = null
nth (cons v rest) ℕ.zero = v
nth (cons v rest) (ℕ.suc i) = nth rest i

-- `items[i]`, from the end for a negative index; `IndexError` is null.
abbrev pub index : Items → ℤ → Value
index xs (pos i) = nth xs i
index xs (negsuc i) = if ltb i (items_length xs) then nth xs (items_length xs - (i + 1)) else null

abbrev pub is_zero : ℤ → Bool
is_zero (pos n) = n == 0
is_zero (negsuc n) = false

-- `bool(value)`
abbrev pub truthy : Value → Bool
truthy null = false
truthy (bool b) = b
truthy (int n) = not (is_zero n)
truthy (float (finite m)) = not (is_zero m)
truthy (float _) = true
truthy (str s) = not (is_empty s)
truthy (arr nil) = false
truthy (arr _) = true
truthy (obj end) = false
truthy (obj _) = true

-- The elements, where all are texts.
abbrev pub texts : Items → Option (List String)
texts nil = some []
texts (cons (str s) rest) = elim (texts rest) [ none ↦ none | some ss ↦ some (s ∷ ss) ]
texts (cons _ rest) = none

-- `fields[key] = v`, or `fields || jsonb_build_object(key, v)` in a query.
abbrev pub put : Fields → String → Value → Fields
put end key v = field key v end
put (field k u rest) key v = if str_eq k key then field k v rest else field k u (put rest key v)
