-- ===== src/Agents/Records.antt =====
-- agents/contracts.py, and the rows that run_store.py reads and writes.
use code_explorer.Base.{
  ℕ, ◌+◌, String, Bool, true, false, not, ◌&&◌, ◌||◌, Option, none, some, List, [], ◌∷◌, ◌++◌, ◌==◌,
  map, elem, ltb, if◌then◌else◌,
}
use code_explorer.Execution.Contracts.{is_some}
use code_explorer.Agents.Store.{Run, Job, update_rows, first_row}

pub data AgentRunStatus : Type 0 where
  queued running completed failed cancelled : AgentRunStatus

-- `_status`: an unknown text counts as failed.
abbrev pub read_status : String → AgentRunStatus
read_status value =
    if value == "queued"
    then queued
    else (if value == "running"
        then running
        else (if value == "completed"
            then completed
            else (if value == "cancelled" then cancelled else failed)))

abbrev pub strategies : List String
strategies =
    "default" ∷ "graph" ∷ "baseline" ∷ "security_evidence" ∷ "full_source_baseline"
    ∷ "full_source_security_evidence" ∷ "cumulative_baseline" ∷ "cumulative_security_evidence" ∷ []

-- `_strategy`: an unknown text counts as the default.
abbrev pub read_strategy : String → String
read_strategy value = if elem value strategies then value else "default"

-- `status.in_(ACTIVE_STATUSES)`
abbrev pub is_active : String → Bool
is_active s = s == "queued" || s == "running"

pub record AgentRunRequest : Type 0 where
  pub question : String
  pub use_model : Bool
  pub max_steps : ℕ
  pub model : Option String

pub record AgentRunView : Type 0 where
  pub id : String
  pub project_id : String
  pub question : String
  pub status : AgentRunStatus
  pub provider : Option String
  pub model : Option String
  pub answer : Option String
  pub error : Option String
  pub created_at : ℕ
  pub updated_at : ℕ

pub record AgentClaim : Type 0 where
  pub run_id : String
  pub project_id : String
  pub user_id : String
  pub question : String
  pub use_model : Bool
  pub max_steps : ℕ
  pub model : Option String
  pub strategy : String

abbrev pub lease_expired : String
lease_expired = "Agent worker lease expired."

-- `_view`
unfoldable pub view_of : Run → AgentRunView
view_of row = record {
  id = row.id;
  project_id = row.project_id;
  question = row.question;
  status = read_status row.status;
  provider = row.provider;
  model = row.model;
  answer = row.answer;
  error = row.error;
  created_at = row.created_at;
  updated_at = row.updated_at;
}

unfoldable pub claim_of : Run → Job → AgentClaim
claim_of row job = record {
  run_id = row.id;
  project_id = row.project_id;
  user_id = row.user_id;
  question = row.question;
  use_model = row.use_model;
  max_steps = row.max_steps;
  model = row.model;
  strategy = read_strategy job.strategy;
}

unfoldable pub queued_run : String → String → String → AgentRunRequest → ℕ → Run
queued_run run_id project_id user_id request t = record {
  id = run_id;
  project_id = project_id;
  user_id = user_id;
  question = request.question;
  status = "queued";
  use_model = request.use_model;
  max_steps = request.max_steps;
  provider = none;
  model = request.model;
  answer = none;
  error = none;
  created_at = t;
  updated_at = t;
}

unfoldable pub new_job : String → String → ℕ → Job
new_job run_id strategy t = record {
  run_id = run_id;
  strategy = strategy;
  worker_id = none;
  cancel_requested = false;
  attempts = 0;
  created_at = t;
  updated_at = t;
}

abbrev pub has_job : List Job → String → Bool
has_job jobs run_id = is_some (first_row (λ (j : Job). j.run_id == run_id) jobs)

-- The active runs without a job, and their jobs.
abbrev pub lacks_job : List Job → Run → Bool
lacks_job jobs r = is_active r.status && not (has_job jobs r.id)

abbrev pub default_jobs : ℕ → List Run → List Job
default_jobs t [] = []
default_jobs t (r ∷ rs) = new_job r.id "default" t ∷ default_jobs t rs

-- The rows that `claim_next` writes.
abbrev pub taken : ℕ → Run → Run
taken t row = record row { status = "running"; updated_at = t }

abbrev pub leased : String → ℕ → Job → Job
leased worker_id t job = record job {
  worker_id = some worker_id;
  attempts = job.attempts + 1;
  updated_at = t;
}

abbrev pub is_queued_run : String → Run → Bool
is_queued_run run_id r = r.id == run_id && r.status == "queued"

-- `AgentJobModel.worker_id == worker_id`, which no NULL passes
abbrev pub holds : String → String → Job → Bool
holds run_id worker_id j =
    j.run_id == run_id && elim j.worker_id [ none ↦ false | some w ↦ w == worker_id ]

-- The rows that `recover_stale` writes: those of its join.
abbrev pub is_stale_job : ℕ → String → Job → Bool
is_stale_job older_than run_id j = j.run_id == run_id && ltb j.updated_at older_than

abbrev pub is_stale_run : ℕ → List Job → Run → Bool
is_stale_run older_than jobs r =
    r.status == "running" && is_some (first_row (is_stale_job older_than r.id) jobs)

abbrev pub expired : ℕ → Run → Run
expired t r = record r { status = "failed"; error = some lease_expired; updated_at = t }

abbrev pub released : ℕ → Job → Job
released t j = record j { worker_id = none; updated_at = t }

-- A job of a run in the list.
abbrev pub belongs : List Run → Job → Bool
belongs rows j = elem j.run_id (map (λ (r : Run). r.id) rows)

-- `**values` of `update`
pub data Field : Type 0 where
  set_status : String → Field
  set_provider set_model set_answer set_error : Option String → Field
  unsupported : String → Field

abbrev pub is_unsupported : Field → Bool
is_unsupported (unsupported _) = true
is_unsupported _ = false

abbrev pub any_unsupported : List Field → Bool
any_unsupported [] = false
any_unsupported (v ∷ vs) = is_unsupported v || any_unsupported vs

abbrev pub set_field : Field → Run → Run
set_field (set_status s) row = record row { status = s }
set_field (set_provider p) row = record row { provider = p }
set_field (set_model m) row = record row { model = m }
set_field (set_answer a) row = record row { answer = a }
set_field (set_error e) row = record row { error = e }
set_field (unsupported _) row = row

abbrev pub set_fields : List Field → Run → Run
set_fields [] row = row
set_fields (v ∷ vs) row = set_fields vs (set_field v row)

-- What `request_cancel` does, by the status that it finds.
abbrev pub cancelled_run : ℕ → Run → Run
cancelled_run t r =
    if r.status == "queued" then record r { status = "cancelled"; updated_at = t } else r

abbrev pub flagged : ℕ → Job → Job
flagged t j = record j { cancel_requested = true; updated_at = t }

abbrev pub cancel_event : String → Option String
cancel_event status =
    if status == "queued"
    then some "run.cancelled"
    else (if status == "running" then some "run.cancel_requested" else none)

-- The job that an active run without one is given first.
abbrev pub with_job : String → String → ℕ → List Job → List Job
with_job run_id status t jobs =
    if is_active status && not (has_job jobs run_id)
    then jobs ++ new_job run_id "default" t ∷ []
    else jobs

abbrev pub flag_job : String → String → ℕ → List Job → List Job
flag_job run_id status t jobs =
    if is_active status
    then update_rows (λ j. j.run_id == run_id) (flagged t) (with_job run_id status t jobs)
    else jobs

-- `bool(query.scalar())`
abbrev pub requested : Option Job → Bool
requested none = false
requested (some job) = job.cancel_requested

abbrev pub claim_rows : Option Run → Option Job → Option AgentClaim
claim_rows (some row) (some job) = some (claim_of row job)
claim_rows _ _ = none

-- A run waits with a job that nobody has asked to cancel.
abbrev pub is_waiting : List Job → Run → Bool
is_waiting jobs r =
    r.status == "queued"
    && is_some (first_row (λ j. j.run_id == r.id && not j.cancel_requested) jobs)
