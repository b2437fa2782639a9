-- ===== src/Sor/Ingest/Table/Unique.antt =====
-- observations.py, `_INSERT_SQL`: the unique index on the adapter and the key.
use fde_agent_platform.Prelude.{
  ℕ, String, false, List, [], ◌∷◌, ◌++◌, ◌≡◌, refl, arith, eq_iff, Bool-cases, inl, inr,
}
use fde_agent_platform.Sor.Mapping.Normalize.{NormalizedObservation}
use fde_agent_platform.Sor.State.{StoredObservation}
use fde_agent_platform.Sor.Ingest.Table.{has_key, stored, insert_row, insert_rows}
use fde_agent_platform.Sor.Ingest.Table.Keys.{has_key-append}

-- No two rows of one adapter have one key.
abbrev pub IsUnique : List StoredObservation → Type 0
IsUnique [] = Unit
IsUnique (x ∷ t) = (has_key x.adapter x.observation.dedup_key t ≡ false) × IsUnique t

IsUnique-append :
    (t : List StoredObservation) (x : StoredObservation)
    → IsUnique t
    → has_key x.adapter x.observation.dedup_key t ≡ false
    → IsUnique (t ++ x ∷ [])
IsUnique-append [] x u h = (refl, tt)
IsUnique-append (y ∷ t) x u h = (
  ground (
    arith,
    has_key-append y.adapter y.observation.dedup_key t (x ∷ []),
    eq_iff x.observation.dedup_key y.observation.dedup_key,
    eq_iff y.observation.dedup_key x.observation.dedup_key,
  ),
  IsUnique-append t x u.1 (ground arith),
)

insert_row-IsUnique :
    (engagement : String) (a : ℕ) (t : List StoredObservation) (o : NormalizedObservation)
    → IsUnique t
    → IsUnique (insert_row engagement a t o)
unfolding insert_row
insert_row-IsUnique engagement a t o u = elim (Bool-cases (has_key a o.dedup_key t)) [
  | inl known ↦ rw known u
  | inr new ↦ rw new (IsUnique-append t (stored engagement a o) u new)
]

pub insert_rows-IsUnique :
    (engagement : String) (a : ℕ) (t : List StoredObservation) (os : List NormalizedObservation)
    → IsUnique t
    → IsUnique (insert_rows engagement a t os)
unfolding insert_rows
insert_rows-IsUnique engagement a t [] u = u
insert_rows-IsUnique engagement a t (o ∷ os) u =
    insert_rows-IsUnique engagement a (insert_row engagement a t o) os
      (insert_row-IsUnique engagement a t o u)
