-- ===== src/Sor/Errors.antt =====
-- What a call of packages/fde-sor can raise. A `RecordError` names a reason and a field, and
-- `arithmetic_error` stands for the `OverflowError`, the `OSError` or the plain `ValueError` of
-- `datetime`, `float` and `round`, and `unicode_error` for a `UnicodeEncodeError`: no handler of the
-- pipeline catches them as a `RecordError`, and none tells them apart. `ack_error` is what
-- `on_batch_committed` raises.
use fde_agent_platform.Prelude.{String, List, ◌≡◌, ◌≢◌, refl, ◌⊎◌, inl, inr}

-- mapping.py: the messages of `RecordError`.
pub data Reason : Type 0 where
  missing_or_empty is_boolean not_iso not_timestamp not_numeric no_hasher : Reason

-- mapping.py: the messages that `MappingSpec.parse` collects.
pub data Problem : Type 0 where
  required_text optional_text required_map text_map sub_object : String → Problem
  unknown_unit attribute_paths role_map_without_actor : Problem

pub data Raised : Type 0 where
  record_error : Reason → String → Raised
  mapping_error : List Problem → Raised
  arithmetic_error unicode_error ack_error : Raised
  salt_unavailable : String → Raised
  source_error database_error : Raised
  adapter_not_found unknown_kind not_implemented : String → Raised

pub data Result {ℓ} (A : Type ℓ) : Type ℓ where
  ok : A → Result A
  err : Raised → Result A

infixl 5 ◌>>=◌
abbrev pub ◌>>=◌ {ℓ κ} : {A : Type ℓ} {B : Type κ} → Result A → (A → Result B) → Result B
ok a >>= f = f a
err e >>= f = err e

pub Result-cases :
    {A : Type 0} (r : Result A) → ((a : A) × (r ≡ ok a)) ⊎ ((e : Raised) × (r ≡ err e))
Result-cases (ok a) = inl (a, refl)
Result-cases (err e) = inr (e, refl)

pub ok-injective : {A : Type 0} (a b : A) → ok a ≡ ok b → a ≡ b
ok-injective a b h = cc

pub err-ne-ok : {A : Type 0} (e : Raised) (a : A) → err e ≢ ok a
err-ne-ok e a h = cc
