-- ===== src/Gate/Workflow/Tables.antt =====
-- db/006: wf.step, wf.run and wf.run_step. A `Run` is one row of wf.run with its rows of wf.run_step,
-- the newest first, and the next number of their identity column. Times are seconds.
use fde_agent_platform.Prelude.{
  ℕ, String, Bool, true, false, ◌&&◌, ◌||◌, Option, none, some, List, [], ◌∷◌, max, ◌==◌, ltb,
  str_eq, if◌then◌else◌,
}
use fde_agent_platform.Python.Value.{Fields, Value}

-- wf.run_status, which both tables use.
pub data RunStatus : Type 0 where
  pending running awaiting_human succeeded failed cancelled : RunStatus

pub data StepKind : Type 0 where
  agent tool human decision sor_write notify : StepKind

pub data OnFailure : Type 0 where
  halt retry skip escalate : OnFailure

pub record Step : Type 0 where
  pub step_id : ℕ
  pub step_key : String
  pub ordinal : ℕ
  pub kind : StepKind
  pub human_schema : Value
  pub timeout_seconds : ℕ
  pub on_failure : OnFailure

pub record RunStep : Type 0 where
  pub run_step_id : ℕ
  pub step_id : ℕ
  pub attempt : ℕ
  pub status : RunStatus
  pub input : Fields
  pub output : Option Fields
  pub error : Option Fields
  pub awaiting_principal : Option String
  pub human_response : Option Fields
  pub responded_by : Option String
  pub started_at : ℕ
  pub finished_at : Option ℕ

pub record Run : Type 0 where
  pub run_id : ℕ
  pub status : RunStatus
  pub context : Fields
  pub current_step_id : Option ℕ
  pub error : Option Fields
  pub finished_at : Option ℕ
  pub run_steps : List RunStep
  pub next_run_step_id : ℕ

-- `status IN ('running', 'awaiting_human')`
abbrev pub is_open : RunStatus → Bool
is_open running = true
is_open awaiting_human = true
is_open _ = false

-- `status IN ('succeeded', 'failed', 'cancelled')`
abbrev pub is_terminal : RunStatus → Bool
is_terminal succeeded = true
is_terminal failed = true
is_terminal cancelled = true
is_terminal _ = false

-- `status IN ('pending', 'running')`
abbrev pub can_begin : RunStatus → Bool
can_begin pending = true
can_begin running = true
can_begin _ = false

abbrev pub is_running : RunStatus → Bool
is_running running = true
is_running _ = false

abbrev pub is_awaiting : RunStatus → Bool
is_awaiting awaiting_human = true
is_awaiting _ = false

abbrev pub is_human : StepKind → Bool
is_human human = true
is_human _ = false

abbrev pub find_step : List Step → ℕ → Option Step
find_step [] id = none
find_step (s ∷ steps) id = if s.step_id == id then some s else find_step steps id

-- The step of a key, within the workflow.
abbrev pub step_of_key : List Step → String → Option ℕ
step_of_key [] key = none
step_of_key (s ∷ steps) key =
    if str_eq s.step_key key then some s.step_id else step_of_key steps key

abbrev pub earlier : Step → Option Step → Step
earlier s none = s
earlier s (some t) = if ltb t.ordinal s.ordinal then t else s

-- `WHERE ordinal > after ORDER BY ordinal LIMIT 1`
abbrev pub next_step : List Step → ℕ → Option Step
next_step [] after = none
next_step (s ∷ steps) after =
    let rest = next_step steps after in if ltb after s.ordinal then some (earlier s rest) else rest

abbrev pub find_run_step : List RunStep → ℕ → Option RunStep
find_run_step [] id = none
find_run_step (r ∷ rows) id = if r.run_step_id == id then some r else find_run_step rows id

-- `UPDATE wf.run_step SET .. WHERE run_step_id = id`
abbrev pub update_run_step : List RunStep → ℕ → (RunStep → RunStep) → List RunStep
update_run_step [] id f = []
update_run_step (r ∷ rows) id f =
    (if r.run_step_id == id then f r else r) ∷ update_run_step rows id f

-- `EXISTS (SELECT 1 FROM wf.run_step WHERE status IN ('running', 'awaiting_human'))`
abbrev pub has_open : List RunStep → Bool
has_open [] = false
has_open (r ∷ rows) = is_open r.status || has_open rows

-- `SELECT coalesce(max(attempt), 0) FROM wf.run_step WHERE step_id = step`
abbrev pub max_attempt : List RunStep → ℕ → ℕ
max_attempt [] step = 0
max_attempt (r ∷ rows) step =
    let rest = max_attempt rows step in if r.step_id == step then max r.attempt rest else rest

-- Whether a row has the step and the attempt: UNIQUE (run_id, step_id, attempt).
abbrev pub has_attempt : List RunStep → ℕ → ℕ → Bool
has_attempt [] step n = false
has_attempt (r ∷ rows) step n = (r.step_id == step && r.attempt == n) || has_attempt rows step n
