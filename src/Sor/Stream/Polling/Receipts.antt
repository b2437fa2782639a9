-- ===== src/Sor/Stream/Polling/Receipts.antt =====
-- adapters/event_stream.py: the receipts of a polling adapter.
use fde_agent_platform.Prelude.{
  ℕ, zero, suc, Bool, true, false, ◌≤◌, String, Option, none, some, List, [], ◌∷◌, ◌++◌, length,
  ◌≡◌, refl, arith, All,
}
use fde_agent_platform.Python.Value.{Fields}
use fde_agent_platform.Sor.Stdlib.{Stdlib}
use fde_agent_platform.Sor.Stream.Polling.{
  Call, deleted, abandoned, outcomes, Poller, chunks, on_batch_committed, receipt, decoded, Event,
  message, committed,
}

abbrev pub concat : List (List String) → List String
concat [] = []
concat (xs ∷ rest) = xs ++ concat rest

abbrev pub handles : Call → List String
handles (deleted chunk) = chunk
handles (abandoned chunk) = chunk

-- The receipts of the calls, in order.
abbrev pub all_handles : List Call → List String
all_handles [] = []
all_handles (call ∷ calls) = handles call ++ all_handles calls

abbrev pub AtMostTen : List Call → Type 0
AtMostTen = All (λ (call : Call). length (handles call) ≤ 10)

abbrev pub is_deleted : Call → Bool
is_deleted (deleted chunk) = true
is_deleted (abandoned chunk) = false

-- Every call was taken.
abbrev pub AllDeleted : List Call → Type 0
AllDeleted = All (λ (call : Call). is_deleted call ≡ true)

outcomes-AllDeleted :
    (n : ℕ) (chunks : List (List String)) → length chunks ≤ n → AllDeleted (outcomes n chunks)
unfolding outcomes
outcomes-AllDeleted zero [] h = tt
outcomes-AllDeleted (suc n) [] h = tt
outcomes-AllDeleted zero (c ∷ rest) h = absurd (omega arith)
outcomes-AllDeleted (suc n) (c ∷ rest) h = (refl, outcomes-AllDeleted n rest (omega arith))

append-All : (P : Call → Type 0) (xs ys : List Call) → All P xs → All P ys → All P (xs ++ ys)
append-All P [] ys h k = k
append-All P (x ∷ xs) ys h k = (h.0, append-All P xs ys h.1 k)

-- Where no call of a commit raises, its calls delete every receipt that was pending.
pub on_batch_committed-AllDeleted :
    (n : ℕ) (p : Poller)
    → length (chunks (length p.pending) p.pending) ≤ n
    → AllDeleted p.calls
    → AllDeleted (on_batch_committed n p).calls
unfolding on_batch_committed
on_batch_committed-AllDeleted n p h k =
    append-All _ p.calls (outcomes n (chunks (length p.pending) p.pending)) k
      (outcomes-AllDeleted n (chunks (length p.pending) p.pending) h)

module _ (py : Stdlib) (config : Fields) where
  abbrev handle_if : Option Fields → String → List String
  handle_if none handle = []
  handle_if (some payload) handle = handle ∷ []

  -- The receipts of the messages that decode.
  abbrev pub receipts : List (Event py config) → List String
  receipts [] = []
  receipts (message m ∷ events) =
      handle_if (decoded py config m) (receipt py config m) ++ receipts events
  receipts (committed n ∷ events) = receipts events

  abbrev pub handled : Poller → List String
  handled p = all_handles p.calls ++ p.pending
