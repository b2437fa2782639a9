-- ===== src/Gate/Forms/Whole.antt =====
-- forms.py: a form asks for every property of a schema, or there is no form.
use mathlib.Core.Path.{subst}
use mathlib.Core.Option.{some-injective}
use fde_agent_platform.Prelude.{
  String, Bool, true, false, ◌||◌, Option, none, some, List, [], ◌∷◌, ◌≡◌, ◌≢◌, refl, map,
  if◌then◌else◌, if_true, if_false, arith, ap, ◌∙◌, sym, Bool-cases, inl, inr,
}
use fde_agent_platform.Python.Value.{Fields, end, field, Value, obj, get, has}
use fde_agent_platform.Gate.Forms.{
  Python, Property, Field, Parsed, parsed, no_form, type_error, is_reserved, any_keyword,
  property_from_spec, enum_property, spec_property, typed_property, plain_property,
}
use fde_agent_platform.Gate.Forms.Schema.{
  collect, prepend, parsed_if, properties_of, json_schema_properties, flat_map_properties,
  properties, to_field, fields_from_schema, required_by, can_hash, is_text,
}

-- The keys of a schema's properties, less the reserved ones.
abbrev pub asked : Fields → List String
asked end = []
asked (field name spec rest) =
    let others = asked rest in if is_reserved name then others else name ∷ others

abbrev pub names : List Property → List String
names [] = []
names (p ∷ ps) = p.name ∷ names ps

abbrev pub field_names : List Field → List String
field_names [] = []
field_names (f ∷ fields) = f.name ∷ field_names fields

abbrev pub inner : Value → Fields
inner (obj fields) = fields
inner _ = end

-- Where the properties of a schema stand: under "properties", or at the top.
abbrev pub declared : Value → Fields
declared (obj schema) =
    if has schema "properties" || is_text "object" (get schema "type")
    then inner (get schema "properties")
    else schema
declared v = end

no_form-ne-parsed : {A : Type 0} (a : A) → no_form ≢ parsed a
no_form-ne-parsed a h = cc

type_error-ne-parsed : {A : Type 0} (a : A) → type_error ≢ parsed a
type_error-ne-parsed a h = cc

parsed-injective : {A : Type 0} (a b : A) → parsed a ≡ parsed b → a ≡ b
parsed-injective a b h = cc

module _ (py : Python) where
  property_from_spec-name :
      (name : String) (spec : Value) (required : Bool) (p : Property)
      → property_from_spec py name spec required ≡ some p
      → p.name ≡ name
  unfolding property_from_spec spec_property enum_property typed_property plain_property
  property_from_spec-name name spec required p h = ground arith

  -- One key of the loop.
  step :
      (reserved : Bool) (name : String) (p : Option Property) (rest : Option (List Property))
      → (later : List String) (ps : List Property) → ((q : Property) → p ≡ some q → q.name ≡ name)
      → ((qs : List Property) → rest ≡ some qs → names qs ≡ later)
      → (if reserved then rest else prepend py p rest) ≡ some ps
      → names ps ≡ (if reserved then later else name ∷ later)
  step true name p rest later ps first others h = others ps h
  step false name none rest later ps first others h = cc
  step false name (some q) none later ps first others h = cc
  step false name (some q) (some qs) later ps first others h =
      subst (λ x. names x ≡ name ∷ later) (some-injective _ _ h)
        (rw (first q refl, others qs refl) refl)

  collect-names :
      (required : String → Bool) (fields : Fields) (ps : List Property)
      → collect py required fields ≡ some ps
      → names ps ≡ asked fields
  unfolding collect
  collect-names required end ps h = ground arith
  collect-names required (field name spec rest) ps h =
      step (is_reserved name) name (property_from_spec py name spec (required name))
        (collect py required rest) (asked rest) ps
        (property_from_spec-name name spec (required name))
        (λ others e. collect-names required rest others e) h

  parsed_if-some :
      (o : Option (List Property)) (ps : List Property) → parsed_if o ≡ parsed ps → o ≡ some ps
  parsed_if-some o ps h = ground arith

  properties_of-names :
      (inside required : Value) (ps : List Property)
      → properties_of py inside required ≡ parsed ps
      → names ps ≡ asked (inner inside)
  properties_of-names (obj (field k v rest)) required ps h =
      elim (Bool-cases (can_hash py required)) [
        | inl b ↦
            collect-names (required_by py required) (field k v rest) ps
              (parsed_if-some _ ps (sym (if_true _ _ _ b) ∙ h))
        | inr b ↦ absurd (type_error-ne-parsed ps (sym (if_false _ _ _ b) ∙ h))
      ]
  properties_of-names _ required ps h = absurd (no_form-ne-parsed ps h)

  flat_map-names :
      (schema : Fields) (ps : List Property)
      → flat_map_properties py schema ≡ parsed ps
      → names ps ≡ asked schema
  unfolding flat_map_properties
  flat_map-names schema ps h = elim (Bool-cases (any_keyword schema)) [
    | inl b ↦ absurd (no_form-ne-parsed ps (sym (if_true _ _ _ b) ∙ h))
    | inr b ↦
        collect-names (λ name. true) schema ps (parsed_if-some _ ps (sym (if_false _ _ _ b) ∙ h))
  ]

  -- Whichever dialect is read.
  either :
      (b : Bool) (x y : Parsed (List Property)) (ps : List Property) (inside outside : Fields)
      → (if b then x else y) ≡ parsed ps
      → (x ≡ parsed ps → names ps ≡ asked inside)
      → (y ≡ parsed ps → names ps ≡ asked outside)
      → names ps ≡ asked (if b then inside else outside)
  either true x y ps inside outside h f g = f h
  either false x y ps inside outside h f g = g h

  properties-names :
      (schema : Value) (ps : List Property)
      → properties py schema ≡ parsed ps
      → names ps ≡ asked (declared schema)
  unfolding properties json_schema_properties flat_map_properties
  properties-names (obj (field k v rest)) ps h =
      either (has (field k v rest) "properties" || is_text "object" (get (field k v rest) "type")) _
        _ ps _ _ h
        (properties_of-names (get (field k v rest) "properties") (get (field k v rest) "required")
          ps)
        (flat_map-names (field k v rest) ps)
  properties-names _ ps h = absurd (no_form-ne-parsed ps h)

  names-to_field : (ps : List Property) → field_names (map (to_field py) ps) ≡ names ps
  unfolding to_field
  names-to_field [] = refl
  names-to_field (p ∷ ps) = ap (λ ns. p.name ∷ ns) (names-to_field ps)

  -- A schema that gives fields gives one for every property that it declares but the assignee, in order:
  -- none is dropped and none is added.
  pub fields_from_schema-whole :
      (schema : Value) (fields : List Field)
      → fields_from_schema py schema ≡ parsed fields
      → field_names fields ≡ asked (declared schema)
  unfolding fields_from_schema
  fields_from_schema-whole schema fields h = whole (properties py schema) refl h
    where
      whole :
          (q : Parsed (List Property))
          → properties py schema ≡ q
          → elim q as (λ x. Parsed (List Field)) [
            | parsed ps ↦ parsed (map (to_field py) ps)
            | no_form ↦ no_form
            | type_error ↦ type_error
          ]
            ≡ parsed fields
          → field_names fields ≡ asked (declared schema)
      whole (parsed ps) e i =
          subst (λ x. field_names x ≡ asked (declared schema)) (parsed-injective _ _ i)
            (names-to_field ps ∙ properties-names schema ps e)
      whole no_form e i = cc
      whole type_error e i = cc
