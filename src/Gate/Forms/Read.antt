-- ===== src/Gate/Forms/Read.antt =====
-- forms.py: a submitted form, read back as the values of its fields.
use fde_agent_platform.Prelude.{
  String, Bool, not, Option, none, some, List, [], ◌∷◌, ◌++◌, map, elem, if◌then◌else◌,
}
use Prim.Native.String.{◌++◌ as ◌<>◌}
use fde_agent_platform.Python.Value.{
  Fields, end, Value, bool, int, float, str, arr, Items, nil, cons, put,
}
use fde_agent_platform.Python.Text.{is_empty, strip, split, int_of_text}
use fde_agent_platform.Gate.Forms.{Python, ValueType, integer, number, Field, is_array, is_boolean}

-- What `GateError` says: a field is required, or a text, or an entry of an array, is no number.
pub data Refusal : Type 0 where
  is_required : String → Refusal
  not_number : Bool → String → ValueType → String → Refusal

pub data Read (A : Type 0) : Type 0 where
  read : A → Read A
  refuse : Refusal → Read A

infixl 5 ◌>>=◌
abbrev pub ◌>>=◌ : {A B : Type 0} → Read A → (A → Read B) → Read B
read a >>= f = f a
refuse e >>= f = refuse e

-- `_FALSY_SUBMISSIONS`
abbrev pub falsy_submissions : List String
falsy_submissions = "" ∷ "0" ∷ "false" ∷ "no" ∷ "off" ∷ []

-- `Field.input_name`
abbrev pub input_name : Field → String
input_name f = "f_" <> f.name

abbrev pub submitted : Option String → String
submitted none = ""
submitted (some text) = text

abbrev pub concat_split : List String → List String
concat_split [] = []
concat_split (chunk ∷ chunks) = map strip (split b',' chunk) ++ concat_split chunks

abbrev pub drop_empty : List String → List String
drop_empty [] = []
drop_empty (part ∷ parts) =
    let rest = drop_empty parts in if is_empty part then rest else part ∷ rest

module _ (py : Python) where
  abbrev pub scalar_of : {A : Type 0} → (A → Value) → Option A → Refusal → Read Value
  scalar_of wrap none e = refuse e
  scalar_of wrap (some a) e = read (wrap a)

  -- `_scalar`
  unfoldable pub scalar : Field → String → ValueType → Read Value
  scalar f raw integer =
      scalar_of int (int_of_text raw) (not_number (is_array f.value_type) f.label integer raw)
  scalar f raw number =
      scalar_of float (py.float_of raw) (not_number (is_array f.value_type) f.label number raw)
  scalar f raw _ = read (str raw)

  -- The entries of an array, in order.
  unfoldable pub entries : Field → List String → Read Items
  unfolding scalar
  entries f [] = read nil
  entries f (part ∷ parts) = do
    v ← scalar f part f.item_type
    rest ← entries f parts
    read (cons v rest)

  -- `_coerce`
  unfoldable pub coerce : Field → String → Read Value
  unfolding entries scalar
  coerce f raw =
      if is_array f.value_type
      then (entries f (drop_empty (concat_split (py.splitlines raw)))
          >>= (λ items. read (arr items)))
      else scalar f raw f.value_type

  -- One turn of the loop of `values_from_form`.
  unfoldable pub read_field : Field → String → Fields → Read Fields
  unfolding coerce
  read_field f text values =
      let raw = strip text in
      if is_boolean f.value_type
      then read (put values f.name (bool (not (elem (py.lower raw) falsy_submissions))))
      else if is_empty raw
      then (if f.required then refuse (is_required f.label) else read values)
      else (coerce f raw >>= (λ v. read (put values f.name v)))

  unfoldable pub read_fields : List Field → (String → Option String) → Fields → Read Fields
  unfolding read_field
  read_fields [] form values = read values
  read_fields (f ∷ fields) form values =
      read_field f (submitted (form (input_name f))) values
      >>= (λ so_far. read_fields fields form so_far)

  -- `values_from_form`
  unfoldable pub values_from_form : List Field → (String → Option String) → Read Fields
  unfolding read_fields
  values_from_form fields form = read_fields fields form end
