-- ===== src/Gate/Forms/Typed.antt =====
-- forms.py: the values of a form have the types of its fields.
use mathlib.Core.Path.{subst}
use fde_agent_platform.Prelude.{
  String, Bool, true, false, not, ◌&&◌, ◌||◌, Option, List, [], ◌∷◌, ◌≡◌, ◌≢◌, refl, str_eq,
  if◌then◌else◌, if_true, if_false, All, arith, eq_refl, elem, eq_iff, Bool-cases, inl, inr, sym,
  ◌∙◌,
}
use fde_agent_platform.Python.Value.{
  Fields, end, field, Value, bool, int, float, str, arr, Items, nil, cons, put,
}
use fde_agent_platform.Python.Text.{is_empty, strip, int_of_text}
use fde_agent_platform.Gate.Forms.{
  Python, ValueType, string, boolean, integer, number, array, Field, is_array, is_boolean,
}
use fde_agent_platform.Gate.Forms.Read.{
  Refusal, is_required, not_number, Read, read, refuse, ◌>>=◌, input_name, submitted, concat_split,
  drop_empty, scalar_of, scalar, entries, coerce, read_field, read_fields, values_from_form,
  falsy_submissions,
}

abbrev pub has_scalar_type : ValueType → Value → Bool
has_scalar_type string (str s) = true
has_scalar_type boolean (bool b) = true
has_scalar_type integer (int n) = true
has_scalar_type number (float m) = true
has_scalar_type _ _ = false

abbrev pub have_type : ValueType → Items → Bool
have_type t nil = true
have_type t (cons v rest) = has_scalar_type t v && have_type t rest

-- Whether a value is of a type, the entries of an array of the item type.
abbrev pub has_type : ValueType → ValueType → Value → Bool
has_type array item (arr items) = have_type item items
has_type array item _ = false
has_type t item v = has_scalar_type t v

abbrev pub is_item_type : ValueType → Bool
is_item_type string = true
is_item_type integer = true
is_item_type number = true
is_item_type _ = false

-- Whether a field of the name admits the value.
abbrev pub admits : List Field → String → Value → Bool
admits [] name v = false
admits (f ∷ fields) name v =
    (str_eq f.name name && has_type f.value_type f.item_type v) || admits fields name v

-- A test of every entry.
abbrev pub every : (String → Value → Bool) → Fields → Bool
every test end = true
every test (field k v rest) = test k v && every test rest

every-put :
    (test : String → Value → Bool) (fields : Fields) (k : String) (v : Value)
    → every test fields ≡ true
    → test k v ≡ true
    → every test (put fields k v) ≡ true
every-put test end k v h t = ground arith
every-put test (field j u rest) k v h t =
    let others = every-put test rest k v in ground (arith, eq_iff j k)

read-injective : {A : Type 0} (a b : A) → read a ≡ read b → a ≡ b
read-injective a b h = cc

read-ne-refuse : {A : Type 0} (e : Refusal) (a : A) → refuse e ≢ read a
read-ne-refuse e a h = cc

bind-read :
    {A B : Type 0} (r : Read A) (f : A → Read B) (b : B)
    → (r >>= f) ≡ read b
    → (a : A) × (r ≡ read a) × (f a ≡ read b)
bind-read (read a) f b h = (a, refl, h)
bind-read (refuse e) f b h = absurd (read-ne-refuse _ _ h)

module _ (py : Python) where
  scalar-typed :
      (f : Field) (raw : String) (t : ValueType) (v : Value)
      → is_item_type t ≡ true
      → scalar py f raw t ≡ read v
      → has_scalar_type t v ≡ true
  unfolding scalar
  scalar-typed f raw string v i h = ground arith
  scalar-typed f raw integer v i h = wrapped (int_of_text raw) h
    where
      wrapped :
          (o : Option _)
          → scalar_of py int o (not_number (is_array f.value_type) f.label integer raw) ≡ read v
          → has_scalar_type integer v ≡ true
      wrapped o e = ground arith
  scalar-typed f raw number v i h = ground arith
  scalar-typed f raw boolean v i h = ground arith
  scalar-typed f raw array v i h = ground arith

  entries-typed :
      (f : Field) (parts : List String) (items : Items)
      → is_item_type f.item_type ≡ true
      → entries py f parts ≡ read items
      → have_type f.item_type items ≡ true
  unfolding entries
  entries-typed f [] items i h = ground arith
  entries-typed f (part ∷ parts) items i h =
      let (v, e, h1) = bind-read (scalar py f part f.item_type) _ items h in
      let (rest, e2, h2) = bind-read (entries py f parts) _ items h1 in
      let head = scalar-typed f part f.item_type v i e in
      let tail = entries-typed f parts rest i e2 in ground arith

  scalar_type : (t : ValueType) → is_array t ≡ false → is_boolean t ≡ false → is_item_type t ≡ true
  scalar_type t a b = ground arith

  array_has_type :
      (t item : ValueType) (items : Items) (v : Value)
      → is_array t ≡ true
      → have_type item items ≡ true
      → read (arr items) ≡ read v
      → has_type t item v ≡ true
  array_has_type t item items v a h e = ground arith

  scalar_has_type :
      (t item : ValueType) (v : Value)
      → is_array t ≡ false
      → is_boolean t ≡ false
      → has_scalar_type t v ≡ true
      → has_type t item v ≡ true
  scalar_has_type t item v a b h = ground arith

  boolean_has_type :
      (t item : ValueType) (b : Bool) → is_boolean t ≡ true → has_type t item (bool b) ≡ true
  boolean_has_type t item b h = ground arith

  coerce-typed :
      (f : Field) (raw : String) (v : Value)
      → is_item_type f.item_type ≡ true
      → is_boolean f.value_type ≡ false
      → coerce py f raw ≡ read v
      → has_type f.value_type f.item_type v ≡ true
  unfolding coerce
  coerce-typed f raw v i b h = elim (Bool-cases (is_array f.value_type)) [
    | inl a ↦
        let (items, e, e2) =
          bind-read (entries py f (drop_empty (concat_split (py.splitlines raw)))) _ v
            (sym (if_true _ _ _ a) ∙ h) in
        array_has_type f.value_type f.item_type items v a (entries-typed f _ items i e) e2
    | inr a ↦ scalar_has_type f.value_type f.item_type v a b (
        scalar-typed f raw f.value_type v (scalar_type f.value_type a b)
          (sym (if_false _ _ _ a) ∙ h))
  ]

  read_field-typed :
      (test : String → Value → Bool) (f : Field) (text : String) (values so_far : Fields)
      → is_item_type f.item_type ≡ true
      → ((v : Value) → has_type f.value_type f.item_type v ≡ true → test f.name v ≡ true)
      → every test values ≡ true
      → read_field py f text values ≡ read so_far
      → every test so_far ≡ true
  unfolding read_field
  read_field-typed test f text values so_far i ok h e =
      elim (Bool-cases (is_boolean f.value_type)) [
        | inl b ↦
            let answer = bool (not (elem (py.lower (strip text)) falsy_submissions)) in
            let e1 = read-injective _ _ (sym (if_true _ _ _ b) ∙ e) in
            subst (λ q. every test q ≡ true) e1
              (every-put test values f.name answer h
                (ok answer (boolean_has_type f.value_type f.item_type _ b)))
        | inr b ↦
            answered (is_empty (strip text)) (sym (if_false _ _ _ b) ∙ e)
              (λ v c. every-put test values f.name v h (ok v (coerce-typed f (strip text) v i b c)))
      ]
    where
      answered :
          (blank : Bool)
          → (if blank
              then (if f.required then refuse (is_required f.label) else read values)
              else (coerce py f (strip text) >>= (λ v. read (put values f.name v))))
            ≡ read so_far
          → ((v : Value)
              → coerce py f (strip text) ≡ read v
              → every test (put values f.name v) ≡ true)
          → every test so_far ≡ true
      answered true q typed = ground (arith, h)
      answered false q typed =
          let (v, c, p) = bind-read (coerce py f (strip text)) _ so_far q in
          subst (λ x. every test x ≡ true) (read-injective _ _ p) (typed v c)

  read_fields-typed :
      (test : String → Value → Bool) (fields : List Field) (form : String → Option String)
      → (values result : Fields) → All (λ (f : Field). is_item_type f.item_type ≡ true) fields
      → All
          (λ (f : Field).
            (v : Value) → has_type f.value_type f.item_type v ≡ true → test f.name v ≡ true)
          fields
      → every test values ≡ true
      → read_fields py fields form values ≡ read result
      → every test result ≡ true
  unfolding read_fields
  read_fields-typed test [] form values result i ok h e = ground arith
  read_fields-typed test (f ∷ fields) form values result i ok h e =
      let (so_far, e1, e2) =
        bind-read (read_field py f (submitted (form (input_name f))) values) _ result e in
      read_fields-typed test fields form so_far result i.1 ok.1
        (read_field-typed test f (submitted (form (input_name f))) values so_far i.0 ok.0 h e1) e2

admitted :
    (fields : List Field) (test : String → Value → Bool)
    → ((k : String) (v : Value) → admits fields k v ≡ true → test k v ≡ true)
    → All
        (λ (f : Field).
          (v : Value) → has_type f.value_type f.item_type v ≡ true → test f.name v ≡ true)
        fields
admitted [] test h = tt
admitted (f ∷ fields) test h = (
  (λ v t. h f.name v (ground (arith, eq_refl f.name))),
  admitted fields test (λ k v a. h k v (ground arith)),
)

-- The entries of arrays are texts, whole numbers or numbers, as every field that a schema gives has them.
-- Then each value that a form is read as belongs to a field of its name and has that field's type, the
-- entries of an array included.
pub values_from_form-typed :
    (py : Python) (fields : List Field) (form : String → Option String) (values : Fields)
    → All (λ (f : Field). is_item_type f.item_type ≡ true) fields
    → values_from_form py fields form ≡ read values
    → every (admits fields) values ≡ true
unfolding values_from_form
values_from_form-typed py fields form values i e =
    read_fields-typed py (admits fields) fields form end values i
      (admitted fields (admits fields) (λ k v a. a)) refl e
