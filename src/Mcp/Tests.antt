-- ===== src/Mcp/Tests.antt =====
-- embedder_worker.py on a queue of a node that is there and one that is not.
use fde_agent_platform.Prelude.{
  ℕ, true, false, none, some, [], ◌∷◌, ◌≡◌, arith, ◌==◌, if◌then◌else◌,
}
use fde_agent_platform.Python.Value.{null}
use fde_agent_platform.Mcp.Embedder.{
  node, QueueRow, State, World, vector_of, refused, claimable, claim_batch, run_rounds,
}
use fde_agent_platform.Mcp.Embedder.Drains.{run_rounds-drains}
use fde_agent_platform.Mcp.Embedder.Claims.{ids, claim_batch-again}

-- The service refuses the first call.
abbrev world : World
world = record {
  max_attempts = 2;
  batch_size = 1;
  nodes = λ id.
      if id == 1
      then some (record { label = "Deal Desk"; summary = none; is_current = true })
      else none;
  edges = λ id. none;
  chunks = λ id. none;
  embed = λ n text. if n == 0 then refused "throttled" else vector_of (null ∷ []);
  py_str = λ v. "";
  error_text = λ e. "failed";
}

abbrev row : ℕ → QueueRow
row id = record {
  queue_id = id;
  subject_kind = node;
  subject_id = id;
  attempts = 0;
  claimed = false;
  completed = false;
  last_error = none;
}

abbrev queued : State
queued = record { queue = row 1 ∷ row 2 ∷ []; embeddings = []; calls = 0 }

run_rounds-drains_example : claimable world (run_rounds world 4 queued).queue ≡ []
run_rounds-drains_example = run_rounds-drains world 4 queued (omega arith) (omega arith)

claim_batch-again_example :
    ids (claim_batch world (claim_batch world queued).1).0 ≡ ids (claim_batch world queued).0
claim_batch-again_example = claim_batch-again world queued
