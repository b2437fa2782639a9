-- ===== src/Gate/Workflow/Stack.antt =====
-- db/013: the attempts of a run as a stack. Only the newest attempt can be open, and the numbers and the
-- attempts of a step grow.
use mathlib.Core.Option.{none-ne-some}
use fde_agent_platform.Prelude.{
  ℕ, ◌<◌, ◌≤◌, true, false, Option, none, some, List, [], ◌∷◌, map, ◌≡◌, refl, arith,
}
use fde_agent_platform.Gate.Workflow.Tables.{
  RunStep, is_open, find_run_step, update_run_step, has_open, max_attempt, has_attempt,
}

-- Closed attempts numbered below `n`.
abbrev pub Settled : ℕ → List RunStep → Type 0
Settled n [] = Unit
Settled n (r ∷ rows) =
    (is_open r.status ≡ false)
    × (r.run_step_id < n)
    × (max_attempt rows r.step_id < r.attempt)
    × Settled r.run_step_id rows

-- A newest attempt, open or not, over closed ones.
abbrev pub Stacked : ℕ → List RunStep → Type 0
Stacked n [] = Unit
Stacked n (r ∷ rows) =
    (r.run_step_id < n) × (max_attempt rows r.step_id < r.attempt) × Settled r.run_step_id rows

abbrev pub tip : List RunStep → Option RunStep
tip [] = none
tip (r ∷ rows) = some r

-- An update that leaves the keys of a row alone.
abbrev pub Keeps : (RunStep → RunStep) → Type 0
Keeps f =
    (r : RunStep)
    → ((f r).run_step_id ≡ r.run_step_id)
      × ((f r).step_id ≡ r.step_id)
      × ((f r).attempt ≡ r.attempt)

update-Settled :
    (n : ℕ) (rows : List RunStep) (id : ℕ) (f : RunStep → RunStep)
    → Settled n rows
    → n ≤ id
    → update_run_step rows id f ≡ rows
update-Settled n [] id f h le = refl
update-Settled n (r ∷ rows) id f h le =
    let rest = update-Settled r.run_step_id rows id f h.3 (omega arith) in ground (arith, rest)

pub find-Settled :
    (n : ℕ) (rows : List RunStep) (id : ℕ) (row : RunStep)
    → Settled n rows
    → find_run_step rows id ≡ some row
    → is_open row.status ≡ false
find-Settled n [] id row h e = absurd (none-ne-some _ e)
find-Settled n (r ∷ rows) id row h e =
    let rest = find-Settled r.run_step_id rows id row h.3 in ground arith

-- An attempt that is open is the newest one.
pub find_open :
    (n : ℕ) (rows : List RunStep) (id : ℕ) (row : RunStep)
    → Stacked n rows
    → find_run_step rows id ≡ some row
    → is_open row.status ≡ true
    → tip rows ≡ some row
find_open n [] id row h e o = absurd (none-ne-some _ e)
find_open n (r ∷ rows) id row h e o =
    let rest = find-Settled r.run_step_id rows id row h.2 in ground arith

pub update-Stacked :
    (n : ℕ) (rows : List RunStep) (id : ℕ) (row : RunStep) (f : RunStep → RunStep)
    → Stacked n rows
    → find_run_step rows id ≡ some row
    → is_open row.status ≡ true
    → Keeps f
    → Stacked n (update_run_step rows id f)
update-Stacked n [] id row f h e o k = tt
update-Stacked n (r ∷ rows) id row f h e o k =
    let rest = find-Settled r.run_step_id rows id row h.2 in
    let same = update-Settled r.run_step_id rows id f h.2 in ground (arith, k r)

pub tip-update :
    (rows : List RunStep) (id : ℕ) (row : RunStep) (f : RunStep → RunStep)
    → tip rows ≡ some row
    → find_run_step rows id ≡ some row
    → is_open row.status ≡ true
    → (n : ℕ) → Stacked n rows
    → tip (update_run_step rows id f) ≡ some (f row)
tip-update [] id row f t e o n h = absurd (none-ne-some _ e)
tip-update (r ∷ rows) id row f t e o n h =
    let rest = find-Settled r.run_step_id rows id row h.2 in ground arith

pub find-update :
    (rows : List RunStep) (id : ℕ) (row : RunStep) (f : RunStep → RunStep)
    → find_run_step rows id ≡ some row
    → Keeps f
    → find_run_step (update_run_step rows id f) id ≡ some (f row)
find-update [] id row f e k = absurd (none-ne-some _ e)
find-update (r ∷ rows) id row f e k =
    let rest = λ (q : find_run_step rows id ≡ some row). find-update rows id row f q k in
    ground (arith, k r)

-- An update of the open attempt, all at once.
pub update_open :
    (n : ℕ) (rows : List RunStep) (id : ℕ) (row : RunStep) (f : RunStep → RunStep)
    → Stacked n rows
    → find_run_step rows id ≡ some row
    → is_open row.status ≡ true
    → Keeps f
    → (tip rows ≡ some row)
      × Stacked n (update_run_step rows id f)
      × (tip (update_run_step rows id f) ≡ some (f row))
      × (find_run_step (update_run_step rows id f) id ≡ some (f row))
update_open n rows id row f h e o k =
    let t = find_open n rows id row h e o in
    (
      t,
      update-Stacked n rows id row f h e o k,
      tip-update rows id row f t e o n h,
      find-update rows id row f e k,
    )

-- With the newest attempt closed all of them are.
pub tip-Settled :
    (n : ℕ) (rows : List RunStep) (row : RunStep)
    → Stacked n rows
    → tip rows ≡ some row
    → is_open row.status ≡ false
    → Settled n rows
tip-Settled n [] row h t c = tt
tip-Settled n (r ∷ rows) row h t c = ground arith

pub no_open-Settled :
    (n : ℕ) (rows : List RunStep) → Stacked n rows → has_open rows ≡ false → Settled n rows
no_open-Settled n [] h c = tt
no_open-Settled n (r ∷ rows) h c = ground arith

pub Settled-Stacked : (n : ℕ) (rows : List RunStep) → Settled n rows → Stacked n rows
Settled-Stacked n [] h = tt
Settled-Stacked n (r ∷ rows) h = (h.1, h.2, h.3)

pub max_attempt-tip :
    (n : ℕ) (rows : List RunStep) (row : RunStep)
    → Stacked n rows
    → tip rows ≡ some row
    → max_attempt rows row.step_id ≡ row.attempt
max_attempt-tip n [] row h t = absurd (none-ne-some _ t)
max_attempt-tip n (r ∷ rows) row h t = ground arith

-- An attempt past the highest one of its step is a new one.
pub has_attempt-fresh :
    (rows : List RunStep) (step n : ℕ) → max_attempt rows step < n → has_attempt rows step n ≡ false
has_attempt-fresh [] step n h = refl
has_attempt-fresh (r ∷ rows) step n h = let rest = has_attempt-fresh rows step n in ground arith

pub Settled-has_open : (n : ℕ) (rows : List RunStep) → Settled n rows → has_open rows ≡ false
Settled-has_open n [] h = refl
Settled-has_open n (r ∷ rows) h = let rest = Settled-has_open r.run_step_id rows h.3 in ground arith

module _ (f : RunStep → RunStep) (keeps : Keeps f) where
  pub max_attempt-map :
      (rows : List RunStep) (step : ℕ) → max_attempt (map f rows) step ≡ max_attempt rows step
  max_attempt-map [] step = refl
  max_attempt-map (r ∷ rows) step = let rest = max_attempt-map rows step in ground (arith, keeps r)

  Settled-map :
      ((r : RunStep) → is_open r.status ≡ false → is_open (f r).status ≡ false)
      → (n : ℕ) (rows : List RunStep) → Settled n rows
      → Settled n (map f rows)
  Settled-map shuts n [] h = tt
  Settled-map shuts n (r ∷ rows) h =
      let rest = Settled-map shuts r.run_step_id rows h.3 in
      ground (arith, keeps r, shuts r, max_attempt-map rows r.step_id)

  pub map-Stacked :
      ((r : RunStep) → is_open (f r).status ≡ false)
      → (n : ℕ) (rows : List RunStep) → Stacked n rows
      → Settled n (map f rows)
  map-Stacked shuts n [] h = tt
  map-Stacked shuts n (r ∷ rows) h =
      let rest = Settled-map (λ q c. shuts q) r.run_step_id rows h.2 in
      ground (arith, keeps r, shuts r, max_attempt-map rows r.step_id)
