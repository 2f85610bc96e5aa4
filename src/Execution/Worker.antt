-- ===== src/Execution/Worker.antt =====
-- backend/app/execution/worker.py: `ExecutionWorker`. A container run is a tree of the callbacks
-- that the executor makes, by what they return, down to its result or a raise.
pub mod Ends
pub mod Plans
use code_explorer.Base.{
  ℕ, String, Bool, true, false, Option, none, some, List, max, ◌-◌, ◌*◌, ltb, leb, if◌then◌else◌,
  ◌==◌,
}
use code_explorer.Base.Int.{ℤ}
use code_explorer.Execution.Result.{
  Error, value_error, execution_error, fault, Outcome, returned, raised,
}
use code_explorer.Execution.Exec.{Action, pure, raise, from_result, attempt, ◌>>=◌, ◌>>◌}
use code_explorer.Execution.Contracts.{Floats, Plan, TaskView, failed}
use code_explorer.Execution.Policy.{Settings, validate_plan}
use code_explorer.Execution.Store.{Env, known, StatusText, text, now}
use code_explorer.Execution.Repository as Repo
use code_explorer.Execution.Repository.{State}

-- `DockerExecutionResult`
pub record RunResult : Type 0 where
  pub status : StatusText
  pub exit_code : Option ℤ
  pub error : Option String
  pub output_truncated : Bool

pub data Run : Type 0 where
  done : RunResult → Run
  raises : Error → Run
  on_heartbeat : Run → Run
  on_output : String → Run → Run
  ask_cancelled : (Bool → Run) → Run

module _ (fl : Floats) (env : Env) (settings : Settings fl.Float)
    (workspace_is_sound : String → String → Bool) (execute : String → Plan fl.Float → Run) where
  open fl use {Float}

  unfoldable pub plan_of_view : TaskView Float → Plan Float
  plan_of_view task = record {
    kind = task.kind;
    image = task.image;
    argv = task.argv;
    scan_profile = task.scan_profile;
    timeout_seconds = task.timeout_seconds;
    cpu_limit = task.cpu_limit;
    memory_mb = task.memory_mb;
    pids_limit = task.pids_limit;
  }

  validate_workspace : Bool → Action (State fl env) Unit
  validate_workspace true = pure tt
  validate_workspace false =
      raise (execution_error "Controlled project workspace is unavailable." 409)

  append_output : String → String → Action (State fl env) Unit
  append_output task_id chunk =
      if chunk == ""
      then pure tt
      else (do Repo.add_event fl env task_id "task.output" (text chunk); pure tt)

  -- The callbacks of a run, with the first raise ending it.
  follow : String → String → Run → Action (State fl env) RunResult
  unfolding append_output
  follow worker_id task_id (done result) = pure result
  follow worker_id task_id (raises e) = raise e
  follow worker_id task_id (on_heartbeat rest) =
      Repo.heartbeat fl env task_id worker_id >> follow worker_id task_id rest
  follow worker_id task_id (on_output chunk rest) =
      append_output task_id chunk >> follow worker_id task_id rest
  follow worker_id task_id (ask_cancelled next) =
      Repo.is_cancel_requested fl env task_id >>= λ c. follow worker_id task_id (next c)

  -- The `try` block of `run_once`.
  body : String → TaskView Float → Action (State fl env) Unit
  unfolding validate_workspace follow
  body worker_id task = do
    from_result (validate_plan fl settings (plan_of_view task))
    validate_workspace (workspace_is_sound task.user_id task.project_id)
    result ← follow worker_id task.id (execute task.id (plan_of_view task))
    Repo.finish fl env task.id result.status result.exit_code result.error result.output_truncated

  -- `except ExecutionError` and `except Exception`
  on_error : String → Error → Action (State fl env) Unit
  on_error task_id (execution_error message _) =
      Repo.finish fl env task_id (known failed) none (some message) false
  on_error task_id _ =
      Repo.finish fl env task_id (known failed) none
        (some "Execution worker failed before the container completed.") false

  run_claimed : String → Option (TaskView Float) → Action (State fl env) Bool
  unfolding body on_error
  run_claimed worker_id none = pure false
  run_claimed worker_id (some task) = do attempt (body worker_id task) (on_error task.id); pure true

  unfoldable pub run_once : String → Action (State fl env) Bool
  unfolding run_claimed
  run_once worker_id = do task ← Repo.claim_next fl env worker_id; run_claimed worker_id task

  -- The cutoff is `max(lease_seconds, 15)` seconds before now; the clock counts microseconds.
  unfoldable pub recover_stale : ℕ → Action (State fl env) (List String)
  recover_stale lease_seconds = do
    t ← now env
    Repo.recover_stale fl env (t - max lease_seconds 15 * 1000000)
