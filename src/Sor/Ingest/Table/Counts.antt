-- ===== src/Sor/Ingest/Table/Counts.antt =====
-- observations.py: the row count of the insert, and the rows of other adapters.
use fde_agent_platform.Prelude.{
  ℕ, ◌+◌, ◌≤◌, String, List, [], ◌∷◌, ◌++◌, length, length-append, ◌≡◌, ◌≢◌, refl, ◌∙◌, arith, ◌==◌,
  if◌then◌else◌,
}
use mathlib.Core.List.{append-nil}
use fde_agent_platform.Sor.Mapping.Normalize.{NormalizedObservation}
use fde_agent_platform.Sor.State.{StoredObservation}
use fde_agent_platform.Sor.Ingest.Table.{has_key, stored, insert_row, insert_rows, rowcount}

-- The rows of one adapter.
abbrev pub rows_of : ℕ → List StoredObservation → List StoredObservation
rows_of b [] = []
rows_of b (x ∷ t) = let rest = rows_of b t in if x.adapter == b then x ∷ rest else rest

rows_of-append :
    (b : ℕ) (t u : List StoredObservation) → rows_of b (t ++ u) ≡ rows_of b t ++ rows_of b u
rows_of-append b [] u = refl
rows_of-append b (x ∷ t) u = ground (arith, rows_of-append b t u)

module _ (engagement : String) (a : ℕ) where
  length-insert_row :
      (t : List StoredObservation) (o : NormalizedObservation)
      → length (insert_row engagement a t o) ≡ length t + (if has_key a o.dedup_key t then 0 else 1)
  unfolding insert_row
  length-insert_row t o = ground (arith, length-append t (stored engagement a o ∷ []))

  pub length-insert_rows :
      (t : List StoredObservation) (os : List NormalizedObservation)
      → length (insert_rows engagement a t os) ≡ length t + rowcount engagement a t os
  unfolding insert_rows rowcount
  length-insert_rows t [] = omega arith
  length-insert_rows t (o ∷ os) =
      omega (arith, length-insert_rows (insert_row engagement a t o) os, length-insert_row t o)

  pub rowcount-le-length :
      (t : List StoredObservation) (os : List NormalizedObservation)
      → rowcount engagement a t os ≤ length os
  unfolding rowcount
  rowcount-le-length t [] = omega arith
  rowcount-le-length t (o ∷ os) =
      ground (arith, rowcount-le-length (insert_row engagement a t o) os)

  pub rowcount-append :
      (t : List StoredObservation) (xs ys : List NormalizedObservation)
      → rowcount engagement a t (xs ++ ys)
        ≡ rowcount engagement a t xs + rowcount engagement a (insert_rows engagement a t xs) ys
  unfolding rowcount insert_rows
  rowcount-append t [] ys = omega arith
  rowcount-append t (x ∷ xs) ys = omega (arith, rowcount-append (insert_row engagement a t x) xs ys)

  rows_of-insert_row :
      (b : ℕ) (t : List StoredObservation) (o : NormalizedObservation)
      → a ≢ b
      → rows_of b (insert_row engagement a t o) ≡ rows_of b t
  unfolding insert_row
  rows_of-insert_row b t o h =
      ground (arith, rows_of-append b t (stored engagement a o ∷ []), append-nil (rows_of b t))

  pub rows_of-insert_rows :
      (b : ℕ) (t : List StoredObservation) (os : List NormalizedObservation)
      → a ≢ b
      → rows_of b (insert_rows engagement a t os) ≡ rows_of b t
  unfolding insert_rows
  rows_of-insert_rows b t [] h = refl
  rows_of-insert_rows b t (o ∷ os) h =
      rows_of-insert_rows b (insert_row engagement a t o) os h ∙ rows_of-insert_row b t o h
