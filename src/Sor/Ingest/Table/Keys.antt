-- ===== src/Sor/Ingest/Table/Keys.antt =====
-- observations.py, `_INSERT_SQL`: which keys a table holds after inserts, and inserts of known keys.
use fde_agent_platform.Prelude.{
  ℕ, String, true, ◌||◌, List, [], ◌∷◌, ◌++◌, ◌≡◌, refl, sym, ◌∙◌, ap, All, arith, eq_refl,
}
use fde_agent_platform.Sor.Mapping.Normalize.{NormalizedObservation}
use fde_agent_platform.Sor.State.{StoredObservation}
use fde_agent_platform.Sor.Ingest.Table.{has_key, stored, insert_row, insert_rows, rowcount}

pub has_key-append :
    (a : ℕ) (k : String) (t u : List StoredObservation)
    → has_key a k (t ++ u) ≡ (has_key a k t || has_key a k u)
has_key-append a k [] u = refl
has_key-append a k (x ∷ t) u = ground (arith, has_key-append a k t u)

module _ (engagement : String) (a : ℕ) where
  -- Every key of the observations is in the table.
  abbrev pub AllKnown : List StoredObservation → List NormalizedObservation → Type 0
  AllKnown t = All (λ o. has_key a o.dedup_key t ≡ true)

  pub insert_rows-append :
      (t : List StoredObservation) (xs ys : List NormalizedObservation)
      → insert_rows engagement a t (xs ++ ys)
        ≡ insert_rows engagement a (insert_rows engagement a t xs) ys
  unfolding insert_rows
  insert_rows-append t [] ys = refl
  insert_rows-append t (x ∷ xs) ys = insert_rows-append (insert_row engagement a t x) xs ys

  has_key-insert_row :
      (b : ℕ) (k : String) (t : List StoredObservation) (o : NormalizedObservation)
      → has_key b k t ≡ true
      → has_key b k (insert_row engagement a t o) ≡ true
  unfolding insert_row
  has_key-insert_row b k t o h = ground (arith, has_key-append b k t (stored engagement a o ∷ []))

  pub has_key-insert_rows :
      (b : ℕ) (k : String) (t : List StoredObservation) (os : List NormalizedObservation)
      → has_key b k t ≡ true
      → has_key b k (insert_rows engagement a t os) ≡ true
  unfolding insert_rows
  has_key-insert_rows b k t [] h = h
  has_key-insert_rows b k t (o ∷ os) h =
      has_key-insert_rows b k (insert_row engagement a t o) os (has_key-insert_row b k t o h)

  has_key-insert_row_self :
      (t : List StoredObservation) (o : NormalizedObservation)
      → has_key a o.dedup_key (insert_row engagement a t o) ≡ true
  unfolding insert_row
  has_key-insert_row_self t o =
      ground
        (arith, has_key-append a o.dedup_key t (stored engagement a o ∷ []), eq_refl o.dedup_key)

  pub insert_rows-AllKnown :
      (t : List StoredObservation) (os : List NormalizedObservation)
      → AllKnown (insert_rows engagement a t os) os
  unfolding insert_rows
  insert_rows-AllKnown t [] = tt
  insert_rows-AllKnown t (o ∷ os) = (
    has_key-insert_rows a o.dedup_key (insert_row engagement a t o) os
        (has_key-insert_row_self t o),
    insert_rows-AllKnown (insert_row engagement a t o) os,
  )

  AllKnown-insert_rows :
      (t : List StoredObservation) (os ps : List NormalizedObservation)
      → AllKnown t os
      → AllKnown (insert_rows engagement a t ps) os
  AllKnown-insert_rows t [] ps h = tt
  AllKnown-insert_rows t (o ∷ os) ps h =
      (has_key-insert_rows a o.dedup_key t ps h.0, AllKnown-insert_rows t os ps h.1)

  insert_row-known :
      (t : List StoredObservation) (o : NormalizedObservation)
      → has_key a o.dedup_key t ≡ true
      → insert_row engagement a t o ≡ t
  unfolding insert_row
  insert_row-known t o h = rw h

  pub insert_rows-known :
      (t : List StoredObservation) (os : List NormalizedObservation)
      → AllKnown t os
      → insert_rows engagement a t os ≡ t
  unfolding insert_rows
  insert_rows-known t [] h = refl
  insert_rows-known t (o ∷ os) h = rw (insert_row-known t o h.0) (insert_rows-known t os h.1)

  pub rowcount-known :
      (t : List StoredObservation) (os : List NormalizedObservation)
      → AllKnown t os
      → rowcount engagement a t os ≡ 0
  unfolding rowcount
  rowcount-known t [] h = refl
  rowcount-known t (o ∷ os) h = rw (insert_row-known t o h.0, h.0) (rw (rowcount-known t os h.1))

  -- Inserting again changes nothing.
  pub insert_rows_twice :
      (t : List StoredObservation) (os : List NormalizedObservation)
      → insert_rows engagement a (insert_rows engagement a t os) os ≡ insert_rows engagement a t os
  insert_rows_twice t os =
      insert_rows-known (insert_rows engagement a t os) os (insert_rows-AllKnown t os)

  -- Inserting a part again, and then the rest, is inserting everything once.
  pub insert_rows_resume :
      (t : List StoredObservation) (xs ys : List NormalizedObservation)
      → insert_rows engagement a (insert_rows engagement a t xs) (xs ++ ys)
        ≡ insert_rows engagement a t (xs ++ ys)
  insert_rows_resume t xs ys =
      insert_rows-append (insert_rows engagement a t xs) xs ys
      ∙ ap (λ u. insert_rows engagement a u ys) (insert_rows_twice t xs)
      ∙ sym (insert_rows-append t xs ys)
