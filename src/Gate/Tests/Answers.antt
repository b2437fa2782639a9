-- ===== src/Gate/Tests/Answers.antt =====
-- forms.py on a schema of a choice and a list.
use fde_agent_platform.Prelude.{
  String, true, false, Option, none, some, [], ◌∷◌, ◌≡◌, refl, str_eq, if◌then◌else◌,
}
use fde_agent_platform.Prelude.Int.{pos}
use fde_agent_platform.Python.Value.{Fields, end, field, Value, str, int, bool, arr, obj, nil, cons}
use fde_agent_platform.Python.Text.{strip, split, replace, int_of_text}
use fde_agent_platform.Gate.Forms.{Python, string, boolean, integer, array, Property, Field, parsed}
use fde_agent_platform.Gate.Forms.Schema.{option, to_field, fields_from_schema}
use fde_agent_platform.Gate.Forms.Read.{read, read_field, values_from_form}
use fde_agent_platform.Gate.Forms.Typed.{admits, every, values_from_form-typed}
use fde_agent_platform.Gate.Forms.Options.{option-reads_back}
use fde_agent_platform.Gate.Forms.Whole.{asked, declared, fields_from_schema-whole}

-- Texts are already in lower case, 7 is the one number printed, and a text has one line.
abbrev python : Python
python = record {
  lower = λ s. s;
  capitalise_first = λ s. s;
  str_of = λ v. "7";
  float_of = λ s. none;
  splitlines = λ s. s ∷ [];
}

-- The one dialect with two properties, and the assignee.
abbrev schema : Value
schema = obj (
    field "assignee" (str "ana") (
      field "approved" (str "boolean")
        (field "signals" (obj (field "type" (str "array") end)) end)))

abbrev approved : Field
approved = record {
  name = "approved";
  label = "approved";
  value_type = boolean;
  item_type = string;
  hint = "";
  required = false;
  options = [];
  rows = 0;
}

abbrev signals : Field
signals = record {
  name = "signals";
  label = "signals";
  value_type = array;
  item_type = string;
  hint = "One per line, or separated by commas.";
  required = true;
  options = [];
  rows = 3;
}

schema_fields : fields_from_schema python schema ≡ parsed (approved ∷ signals ∷ [])
unfolding fields_from_schema strip replace
schema_fields = refl

fields_from_schema-whole_example : "approved" ∷ "signals" ∷ [] ≡ asked (declared schema)
fields_from_schema-whole_example =
    fields_from_schema-whole python schema (approved ∷ signals ∷ []) schema_fields

abbrev form : String → Option String
form name = if str_eq name "f_signals" then some "a, b" else none

abbrev answers : Fields
answers =
    field "approved" (bool false) (field "signals" (arr (cons (str "a") (cons (str "b") nil))) end)

answers_read : values_from_form python (approved ∷ signals ∷ []) form ≡ read answers
unfolding values_from_form strip split
answers_read = refl

values_from_form-typed_example : every (admits (approved ∷ signals ∷ [])) answers ≡ true
values_from_form-typed_example =
    values_from_form-typed python (approved ∷ signals ∷ []) form answers (refl, (refl, tt))
      answers_read

abbrev choice : Property
choice = record {
  name = "n";
  value_type = integer;
  item_type = string;
  title = "";
  description = "";
  enum = int (pos 7) ∷ [];
  required = true;
}

seven : (strip "7" ≡ "7") × (int_of_text "7" ≡ some (pos 7))
unfolding strip int_of_text
seven = (refl, refl)

option-reads_back_example :
    read_field python (to_field python choice) (option python integer (int (pos 7))).0 end
    ≡ read (field "n" (int (pos 7)) end)
option-reads_back_example =
    option-reads_back python choice end integer (int (pos 7)) refl (seven.0, refl, seven.1)
