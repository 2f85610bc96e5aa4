-- ===== src/Agents/RunStore.antt =====
-- backend/app/agents/run_store.py: `AgentRunStore`, one function for each method. A transaction is
-- not interleaved with another session's; between two of them any method of any session may run. The
-- clock is read once in a transaction.
pub mod Rows
pub mod Left
pub mod Calls
pub mod Claims
pub mod Leases
pub mod Cancel
pub mod Missing
use code_explorer.Base.{
  ℕ, ◌+◌, String, Bool, true, false, not, ◌&&◌, ◌||◌, Option, none, some, List, [], ◌∷◌, ◌++◌, ◌==◌,
  map, select, length, elem, leb, ltb, if◌then◌else◌,
}
use code_explorer.Execution.Result.{Outcome, returned, raised, fault, value_error}
use code_explorer.Execution.Exec.{Action, pure, raise, reads, ◌>>=◌, ◌>>◌}
use code_explorer.Execution.Contracts.{is_some, is_empty}
use code_explorer.Agents.Store.{
  Run, Job, Value, text, flag, json, Event, Db, Env, update_rows, first_row, in_order, now, commit,
  append_event,
}
use code_explorer.Agents.Records.{
  AgentClaim, AgentRunRequest, AgentRunView, Field, any_unsupported, belongs, cancel_event,
  cancelled_run, claim_rows, default_jobs, expired, failed, flag_job, has_job, holds, is_queued_run,
  is_stale_run, is_waiting, lacks_job, lease_expired, leased, new_job, queued_run, released,
  requested, set_error, set_fields, set_status, strategies, taken, view_of,
}

module _ {J : Type 0} (env : Env) where
  unfoldable pub add_event : String → String → List (String × Value J) → Action (Db J) (Event J)
  add_event run_id event_type payload = do
    created ← now env
    append_event env run_id event_type payload created

  -- Both rows in one transaction, which a second row with the same key makes fail.
  unfoldable pub insert_run : Run → Job → Action (Db J) Unit
  insert_run row job db =
      if is_some (first_row (λ r. r.id == row.id) db.runs) || has_job db.jobs job.run_id
      then (raised fault, db)
      else commit env (λ rs. rs ++ row ∷ []) (λ js. js ++ job ∷ []) db

  unfoldable pub create :
      String → String → String → AgentRunRequest → String → Action (Db J) AgentRunView
  unfolding insert_run
  create run_id project_id user_id request strategy =
      if elem strategy strategies
      then (do
        t ← now env
        insert_run (queued_run run_id project_id user_id request t) (new_job run_id strategy t)
        pure (view_of (queued_run run_id project_id user_id request t)))
      else raise (value_error "Unsupported agent strategy")

  unfoldable pub ensure_jobs : Action (Db J) ℕ
  ensure_jobs = do
    rows ← reads λ db. select (lacks_job db.jobs) db.runs
    t ← now env
    commit env (λ rs. rs) (λ js. js ++ default_jobs t rows)
    pure (length rows)

  unfoldable pub get : String → String → Action (Db J) (Option AgentRunView)
  get run_id user_id = reads λ db.
      elim (first_row (λ r. r.id == run_id && r.user_id == user_id) db.runs) [
        | none ↦ none
        | some row ↦ some (view_of row)
      ]

  unfoldable pub claim_if : String → String → ℕ → Bool → Action (Db J) (Option AgentClaim)
  claim_if worker_id candidate t false = pure none
  claim_if worker_id candidate t true = do
    commit env (update_rows (is_queued_run candidate) (taken t))
        (update_rows (λ j. j.run_id == candidate) (leased worker_id t))
    row ← reads λ db. first_row (λ r. r.id == candidate) db.runs
    job ← reads λ db. first_row (λ j. j.run_id == candidate) db.jobs
    pure (claim_rows row job)

  -- `claim_next` from its UPDATE on; a count that is not one rolls the UPDATE back.
  unfoldable pub claim_candidate : String → String → Action (Db J) (Option AgentClaim)
  unfolding claim_if
  claim_candidate worker_id candidate = do
    t ← now env
    updated ← reads λ db. length (select (is_queued_run candidate) db.runs)
    claim_if worker_id candidate t (leb updated 1 && leb 1 updated)

  unfoldable pub claim_found : String → Option Run → Action (Db J) (Option AgentClaim)
  unfolding claim_candidate
  claim_found worker_id none = pure none
  claim_found worker_id (some row) = claim_candidate worker_id row.id

  unfoldable pub claim_next : String → Action (Db J) (Option AgentClaim)
  unfolding claim_found
  claim_next worker_id = do
    candidate ← reads λ db. env.oldest (select (is_waiting db.jobs) db.runs)
    claim_found worker_id candidate

  unfoldable pub notify : String → Option String → Action (Db J) Unit
  notify run_id none = pure tt
  notify run_id (some event_type) = do add_event run_id event_type []; pure tt

  unfoldable pub cancel_found : Option Run → Action (Db J) (Option AgentRunView)
  unfolding notify
  cancel_found none = pure none
  cancel_found (some row) = do
    t ← now env
    commit env (update_rows (λ r. r.id == row.id) (cancelled_run t)) (flag_job row.id row.status t)
    notify row.id (cancel_event row.status)
    pure (some (view_of (cancelled_run t row)))

  unfoldable pub request_cancel : String → String → Action (Db J) (Option AgentRunView)
  unfolding cancel_found
  request_cancel run_id user_id = do
    found ← reads λ db. first_row (λ r. r.id == run_id && r.user_id == user_id) db.runs
    cancel_found found

  unfoldable pub heartbeat : String → String → Action (Db J) Unit
  heartbeat run_id worker_id = do
    t ← now env
    commit env (λ rs. rs) (update_rows (holds run_id worker_id) (λ j. record j { updated_at = t }))

  unfoldable pub is_cancel_requested : String → Action (Db J) Bool
  is_cancel_requested run_id = reads λ db. requested (first_row (λ j. j.run_id == run_id) db.jobs)

  unfoldable pub report_recovered : List Run → Action (Db J) Unit
  report_recovered [] = pure tt
  report_recovered (row ∷ rows) =
      let rest = report_recovered rows in
      do
        add_event row.id "run.failed"
            (("error", text lease_expired) ∷ ("recovered", flag true) ∷ [])
        rest

  unfoldable pub recover_stale : ℕ → Action (Db J) (List String)
  unfolding report_recovered
  recover_stale older_than = do
    jobs ← reads λ db. db.jobs
    rows ← reads λ db. select (is_stale_run older_than db.jobs) db.runs
    t ← now env
    commit env (update_rows (is_stale_run older_than jobs) (expired t))
        (update_rows (belongs rows) (released t))
    report_recovered rows
    pure (map (λ (r : Run). r.id) rows)

  unfoldable pub finish_job : String → String → Action (Db J) Unit
  finish_job run_id worker_id = do
    t ← now env
    commit env (λ rs. rs) (update_rows (holds run_id worker_id) (released t))

  unfoldable pub update_found : List Field → Option Run → Action (Db J) Unit
  update_found values none = pure tt
  update_found values (some row) = do
    t ← now env
    commit env
        (update_rows (λ r. r.id == row.id) (λ r. record (set_fields values r) { updated_at = t }))
        (λ js. js)

  unfoldable pub update : String → List Field → Action (Db J) Unit
  unfolding update_found
  update run_id values =
      if any_unsupported values then raise (value_error "Unsupported agent run fields") else (do
        found ← reads λ db. first_row (λ r. r.id == run_id) db.runs
        update_found values found)

  unfoldable pub fail_claim : String → String → Action (Db J) Unit
  fail_claim run_id public_error = do
    update run_id (set_status "failed" ∷ set_error (some public_error) ∷ [])
    add_event run_id "run.failed" (("error", text public_error) ∷ [])
    pure tt

  unfoldable pub events_after : String → ℕ → Action (Db J) (List (Event J))
  events_after run_id sequence =
      reads λ db. in_order (select (λ e. e.run_id == run_id && ltb sequence e.sequence) db.events)
