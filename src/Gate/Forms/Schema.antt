-- ===== src/Gate/Forms/Schema.antt =====
-- forms.py: the two dialects of a schema, and the fields that they give.
use fde_agent_platform.Prelude.{
  String, Bool, true, false, not, ◌&&◌, ◌||◌, Option, none, some, List, [], ◌∷◌, map, str_eq,
  if◌then◌else◌,
}
use fde_agent_platform.Python.Value.{
  Fields, end, field, Value, str, arr, obj, Items, nil, cons, bool, get, has,
}
use fde_agent_platform.Python.Text.{is_empty, strip, replace}
use fde_agent_platform.Gate.Forms.{
  Python, ValueType, boolean, integer, number, array, Property, Field, Parsed, parsed, no_form,
  type_error, is_boolean, is_array, is_reserved, any_keyword, text_of, type_text,
  property_from_spec,
}

-- `set(required)`: a list or an object in it is not hashable.
abbrev pub hashable : Items → Bool
hashable nil = true
hashable (cons (arr _) rest) = false
hashable (cons (obj _) rest) = false
hashable (cons _ rest) = hashable rest

abbrev pub is_text : String → Value → Bool
is_text name (str s) = str_eq s name
is_text name _ = false

abbrev pub mentions : Items → String → Bool
mentions nil name = false
mentions (cons v rest) name = is_text name v || mentions rest name

abbrev pub non_empty : {A : Type 0} → List A → Parsed (List A)
non_empty [] = no_form
non_empty (x ∷ xs) = parsed (x ∷ xs)

abbrev pub parsed_if : {A : Type 0} → Option (List A) → Parsed (List A)
parsed_if none = no_form
parsed_if (some xs) = non_empty xs

module _ (py : Python) where
  abbrev pub prepend : Option Property → Option (List Property) → Option (List Property)
  prepend none rest = none
  prepend (some p) none = none
  prepend (some p) (some ps) = some (p ∷ ps)

  -- The loop of both dialects: the reserved keys are left out, and a key that cannot be asked for ends it.
  unfoldable pub collect : (String → Bool) → Fields → Option (List Property)
  unfolding property_from_spec
  collect required end = some []
  collect required (field name spec rest) =
      let others = collect required rest in
      if is_reserved name
      then others
      else prepend (property_from_spec py name spec (required name)) others

  abbrev pub required_by : Value → String → Bool
  required_by (arr items) name = mentions items name
  required_by _ name = false

  abbrev pub can_hash : Value → Bool
  can_hash (arr items) = hashable items
  can_hash _ = true

  abbrev pub properties_of : Value → Value → Parsed (List Property)
  properties_of (obj (field k v rest)) required =
      if can_hash required
      then parsed_if (collect (required_by required) (field k v rest))
      else type_error
  properties_of _ required = no_form

  -- `_json_schema_properties`
  unfoldable pub json_schema_properties : Fields → Parsed (List Property)
  unfolding collect
  json_schema_properties schema = properties_of (get schema "properties") (get schema "required")

  -- `_flat_map_properties`
  unfoldable pub flat_map_properties : Fields → Parsed (List Property)
  unfolding collect
  flat_map_properties schema =
      if any_keyword schema then no_form else parsed_if (collect (λ name. true) schema)

  -- `_properties`
  unfoldable pub properties : Value → Parsed (List Property)
  unfolding json_schema_properties flat_map_properties
  properties (obj (field k v rest)) =
      let schema = field k v rest in
      if has schema "properties" || is_text "object" (get schema "type")
      then json_schema_properties schema
      else flat_map_properties schema
  properties _ = no_form

  -- `_humanise`
  unfoldable pub humanise : String → String
  humanise name =
      let words = strip (replace b'-' " " (replace b'_' " " name)) in
      if is_empty words then name else py.capitalise_first words

  -- `_type_hint`
  abbrev pub type_hint : ValueType → String
  type_hint array = "One per line, or separated by commas."
  type_hint integer = "A whole number."
  type_hint number = "A number."
  type_hint _ = ""

  abbrev pub is_true_member : Value → Bool
  is_true_member (bool b) = b
  is_true_member (str s) = str_eq (type_text py s) "true"
  is_true_member _ = false

  -- `_option`
  unfoldable pub option : ValueType → Value → String × String
  option boolean item = if is_true_member item then ("1", "true") else ("", "false")
  option t item = (text_of py item, text_of py item)

  abbrev pub or_text : String → String → String
  or_text s t = if is_empty s then t else s

  -- `_to_field`
  unfoldable pub to_field : Property → Field
  unfolding humanise option
  to_field p = record {
    name = p.name;
    label = or_text p.title (humanise p.name);
    value_type = p.value_type;
    item_type = p.item_type;
    hint = or_text p.description (type_hint p.value_type);
    required = p.required && not (is_boolean p.value_type);
    options = map (option p.value_type) p.enum;
    rows = if is_array p.value_type then 3 else 0;
  }

  -- `fields_from_schema`; no field is the answer for a schema that cannot drive a form.
  unfoldable pub fields_from_schema : Value → Parsed (List Field)
  unfolding properties to_field
  fields_from_schema schema = elim (properties schema) [
    | parsed ps ↦ parsed (map to_field ps)
    | no_form ↦ no_form
    | type_error ↦ type_error
  ]
