-- ===== src/Sor/Registry/Disabled.antt =====
-- registry.py: which adapters are found after one is registered or disabled.
use mathlib.Core.Option.{none-ne-some}
use fde_agent_platform.Prelude.{
  ℕ, String, true, false, Option, none, some, List, [], ◌∷◌, ◌++◌, elem, eq_refl, ◌≡◌, refl, sym,
  ◌∙◌, ap, inl, inr, Bool-cases, if◌then◌else◌,
}
use fde_agent_platform.Sor.Errors.{ok, ok-injective, err-ne-ok, unknown_kind, Result-cases}
use fde_agent_platform.Sor.Mapping.Spec.{parse}
use fde_agent_platform.Sor.State.{AdapterRow, StoredAdapter}
use fde_agent_platform.Sor.Registry.{
  is_adapter, find_adapter, found, load_adapter, Registration, registered, insert_adapter,
  register_adapter, disable_row, disable_adapter, adapter_kinds,
}

abbrev pub inactive : Option AdapterRow → Option AdapterRow
inactive none = none
inactive (some row) = some (record row { is_active = false })

find_adapter-disable_row :
    (e k : String) (a : StoredAdapter) (x y : Option AdapterRow)
    → x ≡ inactive y
    → (if is_adapter e k (disable_row e k a).row then some (disable_row e k a).row else x)
      ≡ inactive (if is_adapter e k a.row then some a.row else y)
find_adapter-disable_row e k a x y h = elim (Bool-cases (is_adapter e k a.row)) [
  | inl hit ↦ simp (hit, hit) refl
  | inr miss ↦ simp (miss, miss) h
]

-- Once an adapter is disabled, the row that is found for it is the one that was, inactive; none is found
-- where none was.
pub find_adapter-disable_adapter :
    (e k : String) (rows : List StoredAdapter)
    → find_adapter e k (disable_adapter e k rows) ≡ inactive (find_adapter e k rows)
unfolding disable_adapter
find_adapter-disable_adapter e k [] = refl
find_adapter-disable_adapter e k (a ∷ rows) =
    find_adapter-disable_row e k a (find_adapter e k (disable_adapter e k rows))
      (find_adapter e k rows) (find_adapter-disable_adapter e k rows)

find_adapter-append :
    (e k : String) (rows : List StoredAdapter) (new : StoredAdapter)
    → find_adapter e k rows ≡ none
    → find_adapter e k (rows ++ new ∷ []) ≡ (if is_adapter e k new.row then some new.row else none)
find_adapter-append e k [] new h = refl
find_adapter-append e k (a ∷ rows) new h = elim (Bool-cases (is_adapter e k a.row)) [
  | inl hit ↦ absurd (none-ne-some a.row (sym (simp hit at h)))
  | inr miss ↦ simp miss (find_adapter-append e k rows new (simp miss at h))
]

is_adapter_self :
    (id : ℕ) (r : Registration)
    → is_adapter r.engagement_id r.adapter_key (registered id r).row ≡ true
is_adapter_self id r = simp (eq_refl r.engagement_id, eq_refl r.adapter_key) refl

insert_adapter-loads :
    (id : ℕ) (r : Registration) (rows after : List StoredAdapter) (o : Option AdapterRow)
    → find_adapter r.engagement_id r.adapter_key rows ≡ o
    → insert_adapter id r rows o ≡ ok after
    → find_adapter r.engagement_id r.adapter_key after ≡ some (registered id r).row
insert_adapter-loads id r rows after (some taken) h e = cc
insert_adapter-loads id r rows after none h e = rw (← ok-injective _ _ e) (
    find_adapter-append r.engagement_id r.adapter_key rows (registered id r) h
    ∙ simp (is_adapter_self id r) refl)

-- An adapter that registers is found from then on, with what it was registered with, active and without a
-- cursor.
pub load_adapter-register_adapter :
    (id : ℕ) (r : Registration) (rows after : List StoredAdapter)
    → register_adapter id r rows ≡ ok after
    → load_adapter r.engagement_id r.adapter_key after ≡ ok (registered id r).row
unfolding load_adapter register_adapter
load_adapter-register_adapter id r rows after h = elim (Bool-cases (elem r.kind adapter_kinds)) [
  | inl known ↦ elim (Result-cases (parse r.mapping)) [
    | inl (spec, e) ↦ ap (found r.adapter_key) (
        insert_adapter-loads id r rows after (find_adapter r.engagement_id r.adapter_key rows) refl
          (simp (known, e) at h))
    | inr (x, e) ↦ absurd (err-ne-ok x after (simp (known, e) at h))
  ]
  | inr unknown ↦ absurd (err-ne-ok (unknown_kind r.kind) after (simp unknown at h))
]
