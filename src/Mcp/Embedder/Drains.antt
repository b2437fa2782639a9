-- ===== src/Mcp/Embedder/Drains.antt =====
-- embedder_worker.py: the queue is drained, whatever the embedding service answers.
use mathlib.Core.Path.{subst}
use fde_agent_platform.Prelude.{
  ℕ, zero, suc, ◌+◌, ◌-◌, ◌≤◌, ◌<◌, Bool, true, false, ◌&&◌, List, [], ◌∷◌, map, take, ◌==◌, ◌≡◌,
  refl, sym, ap, ◌∙◌, if◌then◌else◌, arith,
}
use fde_agent_platform.Mcp.Embedder.{
  QueueRow, State, World, Failure, Attempt, written, raises, is_claimable, claimable, mark_claimed,
  claim_batch, complete_row, mark_complete, fail_row, mark_failed, embed_and_write, settled,
  process_one, process_all, run_once, run_rounds,
}

module _ (w : World) where
  -- The attempts that a row has left, and those of a queue.
  abbrev pub left : QueueRow → ℕ
  left row = if row.completed then 0 else w.max_attempts - row.attempts

  abbrev pub total_left : List QueueRow → ℕ
  total_left [] = 0
  total_left (row ∷ rows) = left row + total_left rows

  -- Whether a row of the number is claimable.
  abbrev live : List QueueRow → ℕ → Bool
  live [] id = false
  live (row ∷ rows) id =
      let rest = live rows id in if row.queue_id == id && is_claimable w row then true else rest

  total_left-complete_row :
      (rows : List QueueRow) (id : ℕ)
      → (total_left (map (complete_row w id) rows) ≤ total_left rows)
        × (live rows id ≡ true → total_left (map (complete_row w id) rows) < total_left rows)
  total_left-complete_row [] id = ground arith
  total_left-complete_row (row ∷ rows) id =
      let rest = total_left-complete_row rows id in ground arith

  total_left-fail_row :
      (rows : List QueueRow) (id : ℕ) (error : Failure)
      → (total_left (map (fail_row w id error) rows) ≤ total_left rows)
        × (live rows id ≡ true → total_left (map (fail_row w id error) rows) < total_left rows)
  total_left-fail_row [] id error = ground arith
  total_left-fail_row (row ∷ rows) id error =
      let rest = total_left-fail_row rows id error in ground arith

  total_left-mark_claimed :
      (batch rows : List QueueRow) (id : ℕ)
      → (total_left (map (mark_claimed w batch) rows) ≡ total_left rows)
        × (live (map (mark_claimed w batch) rows) id ≡ live rows id)
  total_left-mark_claimed batch [] id = (refl, refl)
  total_left-mark_claimed batch (row ∷ rows) id =
      let rest = total_left-mark_claimed batch rows id in ground arith

  settled-left :
      (s : State) (item : QueueRow) (a : Attempt)
      → (total_left (settled w s item a).queue ≤ total_left s.queue)
        × (live s.queue item.queue_id ≡ true
            → total_left (settled w s item a).queue < total_left s.queue)
  unfolding mark_failed mark_complete
  settled-left s item (raises error true) = total_left-fail_row s.queue item.queue_id error
  settled-left s item (raises error false) = total_left-fail_row s.queue item.queue_id error
  settled-left s item (written embeddings) = total_left-complete_row s.queue item.queue_id

  process_all-left :
      (batch : List QueueRow) (s : State)
      → total_left (process_all w batch s).queue ≤ total_left s.queue
  unfolding process_all process_one
  process_all-left [] s = omega arith
  process_all-left (item ∷ batch) s =
      let one = settled-left s item (embed_and_write w s item) in
      let rest = process_all-left batch (settled w s item (embed_and_write w s item)) in
      omega (arith, one.0, rest)

  claimable-live :
      (rows : List QueueRow) (row : QueueRow) (rest : List QueueRow)
      → claimable w rows ≡ row ∷ rest
      → live rows row.queue_id ≡ true
  claimable-live [] row rest h = cc
  claimable-live (r ∷ rows) row rest h = let later = claimable-live rows row rest in ground arith

  claimable-none : (rows : List QueueRow) → claimable w rows ≡ [] → total_left rows ≡ 0
  claimable-none [] h = refl
  claimable-none (r ∷ rows) h = let later = claimable-none rows in ground arith

  -- The queue after a batch is claimed and processed.
  abbrev left_after : State → List QueueRow → ℕ
  left_after s batch =
      total_left
        (process_all w batch (record s { queue = map (mark_claimed w batch) s.queue })).queue

  round_le : (s : State) → total_left (run_once w s).1.queue ≤ total_left s.queue
  unfolding run_once claim_batch
  round_le s =
      let batch = take w.batch_size (claimable w s.queue) in
      let same = total_left-mark_claimed batch s.queue 0 in
      omega (
        arith,
        same.0,
        process_all-left batch (record s { queue = map (mark_claimed w batch) s.queue }),
      )

  batch_lt :
      (s : State) (row : QueueRow) (rest : List QueueRow)
      → live s.queue row.queue_id ≡ true
      → left_after s (row ∷ rest) < total_left s.queue
  unfolding process_all process_one
  batch_lt s row rest h =
      let same = total_left-mark_claimed (row ∷ rest) s.queue row.queue_id in
      let t = record s { queue = map (mark_claimed w (row ∷ rest)) s.queue } in
      let one = settled-left t row (embed_and_write w t row) in
      omega (
        arith,
        same.0,
        one.1 (same.1 ∙ h),
        process_all-left rest (settled w t row (embed_and_write w t row)),
      )

  -- A round that finds a row uses an attempt up, or completes the row.
  round_lt :
      (s : State) (row : QueueRow) (rest : List QueueRow)
      → 1 ≤ w.batch_size
      → claimable w s.queue ≡ row ∷ rest
      → total_left (run_once w s).1.queue < total_left s.queue
  unfolding run_once claim_batch
  round_lt s row rest b h =
      let (k, e) = positive w.batch_size b in
      subst (λ batch. left_after s batch < total_left s.queue)
        (sym (ap (λ n. take n (claimable w s.queue)) e ∙ ap (λ rows. take (suc k) rows) h))
        (batch_lt s row (take k rest) (claimable-live s.queue row rest h))
    where
      positive : (n : ℕ) → 1 ≤ n → (j : ℕ) × (n ≡ suc j)
      positive zero q = absurd (omega arith)
      positive (suc j) q = (j, refl)

  -- As many rounds as there are attempts left in the queue, whatever the embedding service answers and
  -- whatever is missing: no row is left to claim, each is completed or has used its attempts up.
  pub run_rounds-drains :
      (n : ℕ) (s : State)
      → 1 ≤ w.batch_size
      → total_left s.queue ≤ n
      → claimable w (run_rounds w n s).queue ≡ []
  unfolding run_rounds
  run_rounds-drains zero s b h = drained s.queue (omega arith)
    where
      drained : (rows : List QueueRow) → total_left rows ≡ 0 → claimable w rows ≡ []
      drained [] e = refl
      drained (r ∷ rows) e = let later = drained rows in ground arith
  run_rounds-drains (suc n) s b h =
      run_rounds-drains n (run_once w s).1 b (fewer (claimable w s.queue) refl)
    where
      fewer :
          (rows : List QueueRow)
          → claimable w s.queue ≡ rows
          → total_left (run_once w s).1.queue ≤ n
      fewer [] e = omega (arith, claimable-none s.queue e, round_le s)
      fewer (row ∷ rest) e = omega (arith, round_lt s row rest b e)
