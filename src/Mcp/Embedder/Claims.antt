-- ===== src/Mcp/Embedder/Claims.antt =====
-- embedder_worker.py: what a claim keeps from other workers, and what a failure keeps from other rows.
use fde_agent_platform.Prelude.{
  ℕ, zero, suc, true, false, List, [], ◌∷◌, map, take, ◌==◌, ◌≡◌, refl, ap, ◌∙◌, if◌then◌else◌,
  arith,
}
use fde_agent_platform.Mcp.Embedder.{
  QueueRow, Embedding, State, World, Failure, Attempt, written, raises, claimable, mark_claimed,
  claim_batch, complete_row, fail_row, embed_and_write, settled, process_one,
}

abbrev pub ids : List QueueRow → List ℕ
ids [] = []
ids (row ∷ rows) = row.queue_id ∷ ids rows

-- The rows of other numbers.
abbrev pub others : List QueueRow → ℕ → List QueueRow
others [] id = []
others (row ∷ rows) id =
    let rest = others rows id in if row.queue_id == id then rest else row ∷ rest

module _ (w : World) where
  claimable-mark_claimed :
      (batch rows : List QueueRow)
      → claimable w (map (mark_claimed w batch) rows)
        ≡ map (mark_claimed w batch) (claimable w rows)
  claimable-mark_claimed batch [] = refl
  claimable-mark_claimed batch (row ∷ rows) =
      let rest = claimable-mark_claimed batch rows in ground arith

  ids-mark_claimed : (batch rows : List QueueRow) → ids (map (mark_claimed w batch) rows) ≡ ids rows
  ids-mark_claimed batch [] = refl
  ids-mark_claimed batch (row ∷ rows) = let rest = ids-mark_claimed batch rows in ground arith

  take-map :
      (f : QueueRow → QueueRow) (n : ℕ) (rows : List QueueRow)
      → take n (map f rows) ≡ map f (take n rows)
  take-map f n [] = refl
  take-map f zero (row ∷ rows) = refl
  take-map f (suc n) (row ∷ rows) = ap (λ rest. f row ∷ rest) (take-map f n rows)

  -- Another worker that claims a batch after this one has committed its claim, and before any row of it is
  -- settled, is given the very same rows.
  pub claim_batch-again :
      (s : State) → ids (claim_batch w (claim_batch w s).1).0 ≡ ids (claim_batch w s).0
  unfolding claim_batch
  claim_batch-again s =
      let batch = take w.batch_size (claimable w s.queue) in
      ap (λ rows. ids (take w.batch_size rows)) (claimable-mark_claimed batch s.queue)
      ∙ ap ids (take-map (mark_claimed w batch) w.batch_size (claimable w s.queue))
      ∙ ids-mark_claimed batch batch

  others-complete_row :
      (rows : List QueueRow) (id : ℕ) → others (map (complete_row w id) rows) id ≡ others rows id
  others-complete_row [] id = refl
  others-complete_row (row ∷ rows) id = let rest = others-complete_row rows id in ground arith

  others-fail_row :
      (rows : List QueueRow) (id : ℕ) (error : Failure)
      → others (map (fail_row w id error) rows) id ≡ others rows id
  others-fail_row [] id error = refl
  others-fail_row (row ∷ rows) id error = let rest = others-fail_row rows id error in ground arith

  -- What an item leaves in the database when it fails.
  abbrev pub kept : Attempt → State → List Embedding
  kept (raises error call) s = s.embeddings
  kept (written embeddings) s = embeddings

  -- The item's transaction settles its own row only: the other rows stay as they are, and the embeddings
  -- are those written, or the old ones when anything failed.
  pub process_one-isolated :
      (s : State) (item : QueueRow)
      → (others (process_one w s item).queue item.queue_id ≡ others s.queue item.queue_id)
        × ((process_one w s item).embeddings ≡ kept (embed_and_write w s item) s)
  unfolding process_one
  process_one-isolated s item = isolated (embed_and_write w s item)
    where
      isolated :
          (a : Attempt)
          → (others (settled w s item a).queue item.queue_id ≡ others s.queue item.queue_id)
            × ((settled w s item a).embeddings ≡ kept a s)
      isolated (raises error true) = (others-fail_row s.queue item.queue_id error, refl)
      isolated (raises error false) = (others-fail_row s.queue item.queue_id error, refl)
      isolated (written embeddings) = (others-complete_row s.queue item.queue_id, refl)
