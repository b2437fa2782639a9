-- ===== src/Gate/Forms.antt =====
-- forms.py: the fields of a console form, from the schema that a workflow step declares.
pub mod Schema
pub mod Read
pub mod Typed
pub mod Whole
pub mod Options
use fde_agent_platform.Prelude.{
  ℕ, String, Bool, true, false, not, ◌&&◌, ◌||◌, Option, none, some, List, [], ◌∷◌, elem, str_eq,
  if◌then◌else◌,
}
use fde_agent_platform.Python.Value.{
  Fields, end, field, Value, null, bool, int, float, str, arr, obj, Items, nil, cons, Float, get,
  truthy,
}
use fde_agent_platform.Python.Text.{strip}

-- What the source calls of Python on texts and numbers.
pub record Python : Type 0 where
  pub lower : String → String
  pub capitalise_first : String → String
  pub str_of : Value → String
  pub float_of : String → Option Float
  pub splitlines : String → List String

-- `_SUPPORTED_TYPES`
pub data ValueType : Type 0 where
  string boolean integer number array : ValueType

pub record Property : Type 0 where
  pub name : String
  pub value_type : ValueType
  pub item_type : ValueType
  pub title : String
  pub description : String
  pub enum : List Value
  pub required : Bool

pub record Field : Type 0 where
  pub name : String
  pub label : String
  pub value_type : ValueType
  pub item_type : ValueType
  pub hint : String
  pub required : Bool
  pub options : List (String × String)
  pub rows : ℕ

-- A schema is read, or it cannot drive a form, or reading it raises a `TypeError`.
pub data Parsed (A : Type 0) : Type 0 where
  parsed : A → Parsed A
  no_form type_error : Parsed A

abbrev pub type_named : String → Option ValueType
type_named text =
    if str_eq text "string"
    then some string
    else if str_eq text "boolean"
    then some boolean
    else if str_eq text "integer"
    then some integer
    else if str_eq text "number"
    then some number
    else if str_eq text "array"
    then some array
    else none

-- `_SUPPORTED_ITEM_TYPES`
abbrev pub item_type_named : String → Option ValueType
item_type_named text =
    if str_eq text "string"
    then some string
    else if str_eq text "integer"
    then some integer
    else if str_eq text "number"
    then some number
    else none

abbrev pub is_boolean : ValueType → Bool
is_boolean boolean = true
is_boolean _ = false

abbrev pub is_array : ValueType → Bool
is_array array = true
is_array _ = false

-- `_RESERVED_KEYS` and `_SCHEMA_KEYWORDS`
abbrev pub is_reserved : String → Bool
is_reserved name = str_eq name "assignee"

abbrev pub keywords : List String
keywords = "type" ∷ "properties" ∷ "required" ∷ "title" ∷ "description" ∷ []

abbrev pub any_keyword : Fields → Bool
any_keyword end = false
any_keyword (field k v rest) = elem k keywords || any_keyword rest

-- `_member_type`
abbrev pub member_type : Value → Option ValueType
member_type (bool b) = some boolean
member_type (int n) = some integer
member_type (float m) = some number
member_type (str s) = some string
member_type _ = none

abbrev pub same_type : ValueType → ValueType → Bool
same_type string string = true
same_type boolean boolean = true
same_type integer integer = true
same_type number number = true
same_type array array = true
same_type _ _ = false

abbrev pub agree : Option ValueType → Option ValueType → Option ValueType
agree none b = none
agree (some a) none = none
agree (some a) (some b) = if same_type a b then some a else none

-- `_inferred_enum_type`, of a list that is not empty.
unfoldable pub inferred_enum_type : Items → Option ValueType
inferred_enum_type nil = none
inferred_enum_type (cons v nil) = member_type v
inferred_enum_type (cons v rest) = agree (member_type v) (inferred_enum_type rest)

abbrev pub members : Items → List Value
members nil = []
members (cons v rest) = v ∷ members rest

-- The texts of a list of types, less "null".
abbrev pub is_null_name : Value → Bool
is_null_name (str s) = str_eq s "null"
is_null_name _ = false

module _ (py : Python) where
  abbrev pub text_of : Value → String
  text_of (str s) = s
  text_of v = py.str_of v

  -- `str(value or "")`
  abbrev pub text_or_empty : Value → String
  text_or_empty v = if truthy v then text_of v else ""

  abbrev pub type_text : String → String
  type_text s = py.lower (strip s)

  abbrev pub candidates : Items → List String
  candidates nil = []
  candidates (cons v rest) =
      let ts = candidates rest in if is_null_name v then ts else text_of v ∷ ts

  abbrev pub only : List String → Option String
  only (s ∷ []) = some s
  only _ = none

  -- `declared`, once a list of types is narrowed to one; `none` where it is no text.
  unfoldable pub declared_type : Value → Option String
  declared_type (str s) = some s
  declared_type (arr items) = only (candidates items)
  declared_type _ = none

  -- `_is_boolean_member`
  abbrev pub is_boolean_member : Value → Bool
  is_boolean_member (bool b) = true
  is_boolean_member (str s) = elem (type_text s) ("true" ∷ "false" ∷ [])
  is_boolean_member _ = false

  abbrev pub all_boolean : Items → Bool
  all_boolean nil = true
  all_boolean (cons v rest) = is_boolean_member v && all_boolean rest

  abbrev pub new_property : String → ValueType → ValueType → Fields → List Value → Bool → Property
  new_property name value_type item_type spec enum required = record {
    name = name;
    value_type = value_type;
    item_type = item_type;
    title = text_or_empty (get spec "title");
    description = text_or_empty (get spec "description");
    enum = enum;
    required = required;
  }

  -- The type that `_enum_property` settles on.
  unfoldable pub enum_type : Option String → Items → Option ValueType
  unfolding inferred_enum_type
  enum_type none enum = inferred_enum_type enum
  enum_type (some text) enum = type_named (type_text text)

  -- `_enum_property`
  unfoldable pub enum_property : String → Fields → Option String → Items → Bool → Option Property
  unfolding enum_type
  enum_property name spec declared enum required = elim (enum_type declared enum) [
    | none ↦ none
    | some t ↦
        if is_array t
        then none
        else if is_boolean t && not (all_boolean enum)
        then none
        else some (new_property name t string spec (members enum) required)
  ]

  abbrev pub item_type_of : Value → Option ValueType
  item_type_of (str s) = item_type_named (type_text s)
  item_type_of _ = none

  -- `_item_type`
  unfoldable pub item_type : Value → Option ValueType
  item_type null = some string
  item_type (obj items) = item_type_of (get items "type")
  item_type _ = none

  unfoldable pub plain_property : String → Fields → Bool → ValueType → Option Property
  unfolding item_type
  plain_property name spec required array = elim (item_type (get spec "items")) [
    | none ↦ none
    | some t ↦ some (new_property name array t spec [] required)
  ]
  plain_property name spec required t = some (new_property name t string spec [] required)

  -- A property without members.
  unfoldable pub typed_property : String → Fields → Option String → Bool → Option Property
  unfolding plain_property
  typed_property name spec none required = none
  typed_property name spec (some text) required = elim (type_named (type_text text)) [
    | none ↦ none
    | some t ↦ plain_property name spec required t
  ]

  unfoldable pub spec_property : String → Fields → Option String → Value → Bool → Option Property
  unfolding enum_property typed_property
  spec_property name spec declared (arr (cons v rest)) required =
      enum_property name spec declared (cons v rest) required
  spec_property name spec declared _ required = typed_property name spec declared required

  -- `_property_from_spec`
  unfoldable pub property_from_spec : String → Value → Bool → Option Property
  unfolding declared_type spec_property
  property_from_spec name (str s) required = elim (type_named (type_text s)) [
    | none ↦ none
    | some t ↦ some (new_property name t string end [] required)
  ]
  property_from_spec name (obj spec) required =
      spec_property name spec (declared_type (get spec "type")) (get spec "enum") required
  property_from_spec name _ required = none
