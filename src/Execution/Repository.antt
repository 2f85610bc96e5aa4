-- ===== src/Execution/Repository.antt =====
-- backend/app/execution/repository.py: `ExecutionRepository`, one function for each method. A
-- method's own transaction is not interleaved with another session's; between two of its
-- transactions, and between methods, any method of any session may run.
pub mod Effects
pub mod Life
pub mod Rows
pub mod Calls
pub mod Claim
pub mod Order
pub mod Log
pub mod Ends
use code_explorer.Base.{
  ℕ, ◌+◌, String, Bool, true, false, not, ◌&&◌, ◌||◌, Option, none, some, List, [], ◌∷◌, ◌++◌, ◌==◌,
  map, select, length, take, leb, ltb, if◌then◌else◌,
}
use code_explorer.Base.Int.{ℤ}
use code_explorer.Execution.Result.{Outcome, returned, raised, fault, value_error}
use code_explorer.Execution.Exec.{Action, pure, raise, reads, ◌>>=◌, ◌>>◌}
use code_explorer.Execution.Contracts.{
  Floats, Kind, command, security_scan, Status, queued, running, cancel_requested, completed,
  failed, cancelled, timed_out, is_terminal, Plan, TaskView, is_some, is_empty,
}
use code_explorer.Execution.Store.{
  StatusText, known, other, Task, Payload, nothing, enqueued, started_by, recovered, outcome, text,
  Event, Db, Env, update_where, first, now, commit, append_event,
}

-- The literals that the column `kind` holds, and `_kind`, which reads them.
abbrev pub kind_name : Kind → String
kind_name command = "command"
kind_name security_scan = "security_scan"

abbrev pub read_kind : String → Kind
read_kind value = if value == "security_scan" then security_scan else command

-- `_status`: an unknown text counts as failed.
abbrev pub read_status : StatusText → Status
read_status (known s) = s
read_status (other _) = failed

-- `f"task.{status}"`
abbrev pub event_name : Status → String
event_name queued = "task.queued"
event_name running = "task.running"
event_name cancel_requested = "task.cancel_requested"
event_name completed = "task.completed"
event_name failed = "task.failed"
event_name cancelled = "task.cancelled"
event_name timed_out = "task.timed_out"

abbrev pub is_queued : StatusText → Bool
is_queued (known queued) = true
is_queued _ = false

-- `status.in_(("running", "cancel_requested"))`
abbrev pub is_active : StatusText → Bool
is_active (known running) = true
is_active (known cancel_requested) = true
is_active _ = false

-- `status.in_(("queued", "running", "cancel_requested"))`
abbrev pub is_open : StatusText → Bool
is_open s = is_queued s || is_active s

-- `status == "cancel_requested"`
abbrev pub is_cancel_text : StatusText → Bool
is_cancel_text (known cancel_requested) = true
is_cancel_text _ = false

-- `worker_id == value` in SQL, which no NULL passes
abbrev pub holds : Option String → String → Bool
holds none value = false
holds (some w) value = w == value

abbrev pub lease_expired : String
lease_expired = "Execution worker lease expired."

-- The rows that the methods write.
abbrev pub claimed_by : String → ℕ → Task → Task
claimed_by worker_id t row = record row {
  status = known running;
  worker_id = some worker_id;
  started_at = some t;
  updated_at = t;
}

abbrev pub expired_at : ℕ → Task → Task
expired_at t row = record row {
  status = known failed;
  error = some lease_expired;
  finished_at = some t;
  updated_at = t;
}

abbrev pub is_stale : ℕ → Task → Bool
is_stale older_than row = is_active row.status && ltb row.updated_at older_than

abbrev pub finished_as : Status → Option ℤ → Option String → Bool → ℕ → Task → Task
finished_as status exit_code error output_truncated t row = record row {
  status = known status;
  exit_code = exit_code;
  error = error;
  output_truncated = output_truncated;
  finished_at = some t;
  updated_at = t;
}

-- The status, the end and the event of `request_cancel`, by the status it finds.
pub data Cancel : Type 0 where
  now_cancelled now_requested unchanged : Cancel

abbrev pub cancel_kind : StatusText → Cancel
cancel_kind (known queued) = now_cancelled
cancel_kind (known running) = now_requested
cancel_kind _ = unchanged

abbrev pub cancel_event : Cancel → Option String
cancel_event now_cancelled = some "task.cancelled"
cancel_event now_requested = some "task.cancel_requested"
cancel_event unchanged = none

abbrev pub cancel_row : Cancel → ℕ → ℕ → Task → Task
cancel_row now_cancelled finished updated row = record row {
  status = known cancelled;
  finished_at = some finished;
  updated_at = updated;
}
cancel_row now_requested _ updated row = record row {
  status = known cancel_requested;
  updated_at = updated;
}
cancel_row unchanged _ updated row = record row { updated_at = updated }

module _ (fl : Floats) (env : Env) where
  open fl use {Float, str, parse}

  abbrev pub State : Type 0
  State = Db Float

  unfoldable pub view_of : Task → TaskView Float
  view_of row = record {
    id = row.id;
    project_id = row.project_id;
    user_id = row.user_id;
    kind = read_kind row.kind;
    status = read_status row.status;
    image = row.image;
    argv = row.argv;
    scan_profile = row.scan_profile;
    timeout_seconds = row.timeout_seconds;
    cpu_limit = parse row.cpu_limit;
    memory_mb = row.memory_mb;
    pids_limit = row.pids_limit;
    exit_code = row.exit_code;
    error = row.error;
    output_truncated = row.output_truncated;
    created_at = row.created_at;
    started_at = row.started_at;
    finished_at = row.finished_at;
  }

  unfoldable pub add_event : String → String → Payload Float → Action State (Event Float)
  add_event task_id event_type payload = do
    created ← now env
    append_event env task_id event_type payload created

  unfoldable pub queued_row : String → String → String → Plan Float → ℕ → ℕ → Task
  queued_row task_id project_id user_id plan created updated = record {
    id = task_id;
    project_id = project_id;
    user_id = user_id;
    kind = kind_name plan.kind;
    image = plan.image;
    argv = plan.argv;
    scan_profile = plan.scan_profile;
    status = known queued;
    timeout_seconds = plan.timeout_seconds;
    cpu_limit = str plan.cpu_limit;
    memory_mb = plan.memory_mb;
    pids_limit = plan.pids_limit;
    worker_id = none;
    exit_code = none;
    error = none;
    output_truncated = false;
    created_at = created;
    updated_at = updated;
    started_at = none;
    finished_at = none;
  }

  -- An INSERT: a second row with the same primary key is refused.
  insert_row : Task → Action State Unit
  insert_row row db =
      if is_some (first (λ t. t.id == row.id) db.tasks)
      then (raised fault, db)
      else commit env (λ ts. ts ++ row ∷ []) db

  unfoldable pub create : String → String → String → Plan Float → Action State (TaskView Float)
  unfolding insert_row
  create task_id project_id user_id plan = do
    created ← now env
    updated ← now env
    let row = queued_row task_id project_id user_id plan created updated
    insert_row row
    add_event task_id "task.queued" (
        enqueued plan.kind plan.image (length plan.argv) plan.timeout_seconds plan.cpu_limit
          plan.memory_mb plan.pids_limit)
    pure (view_of row)

  unfoldable pub get : String → String → Action State (Option (TaskView Float))
  get task_id user_id = reads λ db.
      elim (first (λ t. t.id == task_id && t.user_id == user_id) db.tasks) [
        | none ↦ none
        | some row ↦ some (view_of row)
      ]

  unfoldable pub count_active_for_user : String → Action State ℕ
  count_active_for_user user_id =
      reads λ db. length (select (λ t. t.user_id == user_id && is_open t.status) db.tasks)

  unfoldable pub claim_result : String → Bool → Option Task → Action State (Option (TaskView Float))
  claim_result worker_id false found = pure none
  claim_result worker_id true none = pure none
  claim_result worker_id true (some row) = do
    add_event row.id "task.started" (started_by worker_id)
    pure (some (view_of row))

  -- The part of `claim_next` from the UPDATE on: between the SELECT that found the candidate and
  -- here, another worker may have taken it.
  unfoldable pub claim_candidate : String → String → Action State (Option (TaskView Float))
  unfolding claim_result
  claim_candidate worker_id candidate = do
    t ← now env
    updated ← reads λ db. length (select (λ r. r.id == candidate && is_queued r.status) db.tasks)
    commit env
        (update_where (λ r. r.id == candidate && is_queued r.status) (claimed_by worker_id t))
    found ← reads λ db. first (λ r. r.id == candidate) db.tasks
    claim_result worker_id (leb updated 1 && leb 1 updated) found

  unfoldable pub claim_found : String → Option Task → Action State (Option (TaskView Float))
  unfolding claim_candidate
  claim_found worker_id none = pure none
  claim_found worker_id (some candidate) = claim_candidate worker_id candidate.id

  unfoldable pub claim_next : String → Action State (Option (TaskView Float))
  unfolding claim_found
  claim_next worker_id = do
    candidate ← reads λ db. env.oldest (select (λ t. is_queued t.status) db.tasks)
    claim_found worker_id candidate

  cancel_time : Cancel → Action State ℕ
  cancel_time now_cancelled = now env
  cancel_time _ = pure 0

  notify : String → Option String → Action State Unit
  notify task_id none = pure tt
  notify task_id (some event_type) = do add_event task_id event_type nothing; pure tt

  unfoldable pub cancel_with : Cancel → Task → Action State (Option (TaskView Float))
  unfolding cancel_time notify
  cancel_with change row = do
    finished ← cancel_time change
    updated ← now env
    commit env (update_where (λ t. t.id == row.id) (cancel_row change finished updated))
    notify row.id (cancel_event change)
    pure (some (view_of (cancel_row change finished updated row)))

  unfoldable pub cancel_found : Option Task → Action State (Option (TaskView Float))
  unfolding cancel_with
  cancel_found none = pure none
  cancel_found (some row) = cancel_with (cancel_kind row.status) row

  unfoldable pub request_cancel : String → String → Action State (Option (TaskView Float))
  unfolding cancel_found
  request_cancel task_id user_id = do
    found ← reads λ db. first (λ t. t.id == task_id && t.user_id == user_id) db.tasks
    cancel_found found

  unfoldable pub heartbeat : String → String → Action State Unit
  heartbeat task_id worker_id = do
    t ← now env
    commit env (
        update_where (λ r. r.id == task_id && holds r.worker_id worker_id && is_active r.status)
          (λ r. record r { updated_at = t }))

  -- The events after the commit of `recover_stale`, one transaction each.
  report_recovered : List Task → Action State Unit
  report_recovered [] = pure tt
  report_recovered (row ∷ rows) =
      let rest = report_recovered rows in
      do add_event row.id "task.failed" (recovered lease_expired); rest

  unfoldable pub recover_stale : ℕ → Action State (List String)
  unfolding report_recovered
  recover_stale older_than = do
    rows ← reads λ db. select (is_stale older_than) db.tasks
    t ← now env
    commit env (update_where (is_stale older_than) (expired_at t))
    report_recovered rows
    pure (map (λ (r : Task). r.id) rows)

  unfoldable pub is_cancel_requested : String → Action State Bool
  is_cancel_requested task_id = reads λ db. elim (first (λ t. t.id == task_id) db.tasks) [
    | none ↦ false
    | some row ↦ is_cancel_text row.status
  ]

  finish_as : String → Status → Option ℤ → Option String → Bool → Action State Unit
  finish_as task_id status exit_code error output_truncated = do
    t ← now env
    commit env (
        update_where (λ r. r.id == task_id && is_active r.status)
          (finished_as status exit_code error output_truncated t))
    add_event task_id (event_name status) (outcome exit_code error output_truncated)
    pure tt

  unfoldable pub finish : String → StatusText → Option ℤ → Option String → Bool → Action State Unit
  unfolding finish_as
  finish task_id (other _) exit_code error output_truncated =
      raise (value_error "Invalid terminal execution status")
  finish task_id (known status) exit_code error output_truncated =
      if is_terminal status
      then finish_as task_id status exit_code error output_truncated
      else raise (value_error "Invalid terminal execution status")

  -- `ORDER BY sequence`
  insert_event : Event Float → List (Event Float) → List (Event Float)
  insert_event e [] = e ∷ []
  insert_event e (f ∷ es) =
      let rest = insert_event e es in if leb e.sequence f.sequence then e ∷ f ∷ es else f ∷ rest

  in_order : List (Event Float) → List (Event Float)
  unfolding insert_event
  in_order [] = []
  in_order (e ∷ es) = insert_event e (in_order es)

  unfoldable pub events_after : String → ℕ → Action State (List (Event Float))
  unfolding in_order
  events_after task_id sequence =
      reads λ db. in_order (select (λ e. e.task_id == task_id && ltb sequence e.sequence) db.events)

  unfoldable pub list_for_project : String → String → ℕ → Action State (List (TaskView Float))
  list_for_project project_id user_id limit = reads λ db. map view_of (
      take limit (
        env.newest_first
          (select (λ t. t.project_id == project_id && t.user_id == user_id) db.tasks)))
