-- ===== src/Mcp/Embedder.antt =====
-- embedder_worker.py: the queue of subjects to embed, and the worker that drains it. The rows of a table
-- are a list, kg.embed_queue in the order of `enqueued_at`.
pub mod Verbalise
pub mod Drains
pub mod Claims
use fde_agent_platform.Prelude.{
  ℕ, suc, ◌+◌, String, Bool, true, false, not, ◌&&◌, Option, none, some, List, [], ◌∷◌, map, take,
  ltb, ◌==◌, if◌then◌else◌, length,
}
use fde_agent_platform.Python.Value.{Value}
use fde_agent_platform.Mcp.Embedder.Verbalise.{verbalise_node, verbalise_edge}

pub data SubjectKind : Type 0 where
  node edge chunk : SubjectKind
  other_kind : String → SubjectKind

-- kg.embed_queue
pub record QueueRow : Type 0 where
  pub queue_id : ℕ
  pub subject_kind : SubjectKind
  pub subject_id : ℕ
  pub attempts : ℕ
  pub claimed : Bool
  pub completed : Bool
  pub last_error : Option String

-- kg.node, and kg.edge with the labels of its ends, as far as the worker reads them.
pub record NodeRow : Type 0 where
  pub label : String
  pub summary : Option String
  pub is_current : Bool

pub record EdgeRow : Type 0 where
  pub src_label : String
  pub edge_type : String
  pub dst_label : String
  pub attributes : Value
  pub is_current : Bool

-- A row of kg.node_embedding or kg.edge_embedding, or the columns of kg.chunk.
pub record Embedding : Type 0 where
  pub subject_kind : SubjectKind
  pub subject_id : ℕ
  pub embed_text : String
  pub vector : List Value
  pub is_current : Bool

-- What the database holds, and how often the embedding service has been called.
pub record State : Type 0 where
  pub queue : List QueueRow
  pub embeddings : List Embedding
  pub calls : ℕ

pub data Embedded : Type 0 where
  vector_of : List Value → Embedded
  refused : String → Embedded

-- What `_embed_and_write` raises.
pub data Failure : Type 0 where
  no_longer_exists : SubjectKind → ℕ → Failure
  no_phrase : Failure
  unknown_subject_kind : String → Failure
  service_error : String → Failure

-- The tables that the worker reads, the settings, and the embedding service, whose answer to a text may
-- change from call to call: a vector, or what it raises. `error_text` is the name and the text of an
-- exception, cut at 4000 characters.
pub record World : Type 0 where
  pub max_attempts : ℕ
  pub batch_size : ℕ
  pub nodes : ℕ → Option NodeRow
  pub edges : ℕ → Option EdgeRow
  pub chunks : ℕ → Option String
  pub embed : ℕ → String → Embedded
  pub py_str : Value → String
  pub error_text : Failure → String

abbrev pub same_kind : SubjectKind → SubjectKind → Bool
same_kind node node = true
same_kind edge edge = true
same_kind chunk chunk = true
same_kind _ _ = false

abbrev pub same_subject : Embedding → Embedding → Bool
same_subject a b = same_kind a.subject_kind b.subject_kind && a.subject_id == b.subject_id

-- The upserts: the row of the subject is replaced, or added.
abbrev pub upsert : List Embedding → Embedding → List Embedding
upsert [] e = e ∷ []
upsert (f ∷ rows) e = if same_subject f e then e ∷ rows else f ∷ upsert rows e

-- What a subject is embedded as: its text and whether it is current.
pub data Loaded : Type 0 where
  loaded : String → Bool → Loaded
  not_loaded : Failure → Loaded

-- What `_embed_and_write` does within its savepoint: the embeddings that it leaves, or what it raises;
-- and whether it has called the service.
pub data Attempt : Type 0 where
  written : List Embedding → Attempt
  raises : Failure → Bool → Attempt

module _ (w : World) where
  abbrev pub load_node : ℕ → Option NodeRow → Loaded
  load_node id none = not_loaded (no_longer_exists node id)
  load_node id (some n) = loaded (verbalise_node n.label n.summary) n.is_current

  abbrev pub verbalised : Option String → Bool → Loaded
  verbalised none current = not_loaded no_phrase
  verbalised (some text) current = loaded text current

  abbrev pub load_edge : ℕ → Option EdgeRow → Loaded
  load_edge id none = not_loaded (no_longer_exists edge id)
  load_edge id (some e) =
      verbalised (verbalise_edge w.py_str e.src_label e.edge_type e.dst_label e.attributes)
        e.is_current

  abbrev pub load_chunk : ℕ → Option String → Loaded
  load_chunk id none = not_loaded (no_longer_exists chunk id)
  load_chunk id (some content) = loaded content true

  -- `_load_node_text`, `_load_edge_text` and `_load_chunk`
  unfoldable pub load : SubjectKind → ℕ → Loaded
  load node id = load_node id (w.nodes id)
  load edge id = load_edge id (w.edges id)
  load chunk id = load_chunk id (w.chunks id)
  load (other_kind kind) id = not_loaded (unknown_subject_kind kind)

  -- The claimable rows: `completed_at IS NULL AND attempts < max_attempts`.
  abbrev pub is_claimable : QueueRow → Bool
  is_claimable row = not row.completed && ltb row.attempts w.max_attempts

  abbrev pub claimable : List QueueRow → List QueueRow
  claimable [] = []
  claimable (row ∷ rows) =
      let rest = claimable rows in if is_claimable row then row ∷ rest else rest

  abbrev pub has_id : List QueueRow → ℕ → Bool
  has_id [] id = false
  has_id (row ∷ rows) id = if row.queue_id == id then true else has_id rows id

  abbrev pub mark_claimed : List QueueRow → QueueRow → QueueRow
  mark_claimed batch row = if has_id batch row.queue_id then record row { claimed = true } else row

  -- `_claim_batch`
  unfoldable pub claim_batch : State → List QueueRow × State
  claim_batch s =
      let batch = take w.batch_size (claimable s.queue) in
      (batch, record s { queue = map (mark_claimed batch) s.queue })

  abbrev pub complete_row : ℕ → QueueRow → QueueRow
  complete_row id row = if row.queue_id == id then record row { completed = true } else row

  -- `_mark_complete`
  unfoldable pub mark_complete : State → ℕ → State
  mark_complete s id = record s { queue = map (complete_row id) s.queue }

  abbrev pub fail_row : ℕ → Failure → QueueRow → QueueRow
  fail_row id error row =
      if row.queue_id == id
      then record row {
        attempts = row.attempts + 1;
        last_error = some (w.error_text error);
        claimed = false;
      }
      else row

  -- `_mark_failed`
  unfoldable pub mark_failed : State → ℕ → Failure → State
  mark_failed s id error = record s { queue = map (fail_row id error) s.queue }

  abbrev pub write : State → SubjectKind → ℕ → String → Bool → Embedded → Attempt
  write s kind id text current (refused error) = raises (service_error error) true
  write s kind id text current (vector_of vector) = written (
      upsert s.embeddings (record {
        subject_kind = kind;
        subject_id = id;
        embed_text = text;
        vector = vector;
        is_current = current;
      }))

  abbrev pub embed_loaded : State → SubjectKind → ℕ → Loaded → Attempt
  embed_loaded s kind id (loaded text current) = write s kind id text current (w.embed s.calls text)
  embed_loaded s kind id (not_loaded failure) = raises failure false

  -- `_embed_and_write`
  unfoldable pub embed_and_write : State → QueueRow → Attempt
  unfolding load
  embed_and_write s item =
      embed_loaded s item.subject_kind item.subject_id (load item.subject_kind item.subject_id)

  abbrev pub called : Bool → State → State
  called true s = record s { calls = s.calls + 1 }
  called false s = s

  abbrev pub settled : State → QueueRow → Attempt → State
  settled s item (raises error call) = mark_failed (called call s) item.queue_id error
  settled s item (written embeddings) =
      mark_complete (record (called true s) { embeddings = embeddings }) item.queue_id

  -- `_process_one`: a failure is rolled back to the savepoint and counted.
  unfoldable pub process_one : State → QueueRow → State
  unfolding embed_and_write mark_failed mark_complete
  process_one s item = settled s item (embed_and_write s item)

  unfoldable pub process_all : List QueueRow → State → State
  unfolding process_one
  process_all [] s = s
  process_all (item ∷ batch) s = process_all batch (process_one s item)

  -- `run_once`: the number of rows processed, and the state.
  unfoldable pub run_once : State → ℕ × State
  unfolding claim_batch process_all
  run_once s =
      let (batch, claimed_state) = claim_batch s in (length batch, process_all batch claimed_state)

  -- `run_forever`, for a number of rounds.
  unfoldable pub run_rounds : ℕ → State → State
  unfolding run_once
  run_rounds ℕ.zero s = s
  run_rounds (suc n) s = run_rounds n (run_once s).1
