-- ===== src/Gate/Forms/Options.antt =====
-- forms.py: an option of a generated control, read back.
use mathlib.Core.Path.{subst}
use fde_agent_platform.Prelude.{
  String, Bool, true, false, not, some, ◌≡◌, refl, if◌then◌else◌, arith, elem, ap, ◌∙◌, sym,
}
use fde_agent_platform.Prelude.Int.{ℤ}
use fde_agent_platform.Python.Value.{Fields, Float, Value, bool, int, float, str, put}
use fde_agent_platform.Python.Text.{is_empty, strip, int_of_text}
use fde_agent_platform.Gate.Forms.{
  Python, ValueType, string, boolean, integer, number, Property, Field, is_boolean_member,
  is_boolean, is_array,
}
use fde_agent_platform.Gate.Forms.Schema.{option, to_field, is_true_member}
use fde_agent_platform.Gate.Forms.Read.{read, falsy_submissions, scalar, coerce, read_field}

module _ (py : Python) where
  -- A member that a control of the type can offer.
  abbrev pub offers : ValueType → Value → Bool
  offers string (str s) = not (is_empty (strip s))
  offers boolean v = is_boolean_member py v
  offers integer (int n) = true
  offers number (float m) = true
  offers _ v = false

  -- What the choice of a member means: a text loses the blanks around it.
  abbrev pub meaning : ValueType → Value → Value
  meaning string (str s) = str (strip s)
  meaning boolean v = bool (is_true_member py v)
  meaning t v = v

  -- What the source relies on of `str.lower`, and of `str`, `int` and `float` at the member.
  abbrev pub IsPython : ValueType → Value → Type 0
  IsPython boolean v = (py.lower "" ≡ "") × (py.lower "1" ≡ "1")
  IsPython integer (int n) =
      let s = py.str_of (int n) in (strip s ≡ s) × (is_empty s ≡ false) × (int_of_text s ≡ some n)
  IsPython number (float m) =
      let s = py.str_of (float m) in (strip s ≡ s) × (is_empty s ≡ false) × (py.float_of s ≡ some m)
  IsPython _ v = Unit

  read_boolean :
      (f : Field) (text low : String) (values : Fields)
      → is_boolean f.value_type ≡ true
      → py.lower (strip text) ≡ low
      → read_field py f text values
        ≡ read (put values f.name (bool (not (elem low falsy_submissions))))
  unfolding read_field
  read_boolean f text low values t l = rw (t, l) refl

  read_scalar :
      (f : Field) (text raw : String) (v : Value) (values : Fields)
      → is_boolean f.value_type ≡ false
      → is_array f.value_type ≡ false
      → strip text ≡ raw
      → is_empty raw ≡ false
      → scalar py f raw f.value_type ≡ read v
      → read_field py f text values ≡ read (put values f.name v)
  unfolding read_field coerce
  read_scalar f text raw v values b a s e h = rw (b, s, e, a, h) refl

  strip_one : strip "1" ≡ "1"
  unfolding strip
  strip_one = refl

  strip_empty : strip "" ≡ ""
  unfolding strip
  strip_empty = refl

  module _ (p : Property) (values : Fields) where
    -- A control of type `t` whose property is `p` reads `text` as `v`.
    abbrev ReadsAs : ValueType → String → Value → Type 0
    ReadsAs t text v =
        read_field py (to_field py (record p { value_type = t })) text values
        ≡ read (put values p.name v)

    boolean_back :
        (b : Bool)
        → (py.lower "" ≡ "") × (py.lower "1" ≡ "1")
        → ReadsAs boolean (if b then "1" else "") (bool b)
    unfolding to_field
    boolean_back true laws =
        read_boolean (to_field py (record p { value_type = boolean })) "1" "1" values refl
          (ap (λ s. py.lower s) strip_one ∙ laws.1)
    boolean_back false laws =
        read_boolean (to_field py (record p { value_type = boolean })) "" "" values refl
          (ap (λ s. py.lower s) strip_empty ∙ laws.0)

    string_back : (s : String) → is_empty (strip s) ≡ false → ReadsAs string s (str (strip s))
    unfolding to_field scalar
    string_back s e =
        read_scalar (to_field py (record p { value_type = string })) s (strip s) (str (strip s))
          values refl refl refl e refl

    integer_back : (n : ℤ) → IsPython integer (int n) → ReadsAs integer (py.str_of (int n)) (int n)
    unfolding to_field scalar
    integer_back n laws =
        read_scalar (to_field py (record p { value_type = integer })) (py.str_of (int n))
          (py.str_of (int n)) (int n) values refl refl (laws.0) (laws.1) (rw (laws.2) refl)

    number_back :
        (m : Float) → IsPython number (float m) → ReadsAs number (py.str_of (float m)) (float m)
    unfolding to_field scalar
    number_back m laws =
        read_scalar (to_field py (record p { value_type = number })) (py.str_of (float m))
          (py.str_of (float m)) (float m) values refl refl (laws.0) (laws.1) (rw (laws.2) refl)

    option-text : (v : Value) → (option py boolean v).0 ≡ (if is_true_member py v then "1" else "")
    unfolding option
    option-text v = ground arith

    -- An operator chooses a member of the type `t` of a property, not a blank text, where `str`, `int`,
    -- `float` and `lower` behave on that member as documented. The control's answer is read back as the
    -- member, under the property's name, a text without the blanks around it.
    pub option-reads_back :
        (t : ValueType) (v : Value)
        → offers t v ≡ true
        → IsPython t v
        → read_field py (to_field py (record p { value_type = t })) (option py t v).0 values
          ≡ read (put values p.name (meaning t v))
    unfolding option
    option-reads_back boolean v h laws =
        subst (λ s. ReadsAs boolean s (bool (is_true_member py v))) (sym (option-text v))
          (boolean_back (is_true_member py v) laws)
    option-reads_back string (str s) h laws = string_back s (ground arith)
    option-reads_back integer (int n) h laws = integer_back n laws
    option-reads_back number (float m) h laws = number_back m laws
    option-reads_back _ _ h laws = cc
