-- ===== src/Execution/Service.antt =====
-- backend/app/execution/service.py: `ExecutionService`. Whether a user owns a project is asked of
-- another part of the backend, here the parameter `owned`; the new task's id comes from `uuid4`.
pub mod Sizes
pub mod Quota
use code_explorer.Base.{
  ℕ, String, Bool, true, false, Option, none, some, List, ◌++◌, ltb, leb, if◌then◌else◌,
}
use code_explorer.Execution.Result.{Outcome, returned, raised, execution_error}
use code_explorer.Execution.Exec.{Action, pure, raise, from_result, ◌>>=◌, ◌>>◌}
use code_explorer.Execution.Contracts.{Floats, TaskRequest, Plan, TaskView}
use code_explorer.Execution.Policy.{Settings, resolve}
use code_explorer.Execution.Store.{Env}
use code_explorer.Execution.Repository as Repo
use code_explorer.Execution.Repository.{State}
use code_explorer.Execution.Repository.Calls.{Call, run_calls}

module _ (fl : Floats) (env : Env) (settings : Settings fl.Float)
    (owned : String → String → Bool) where
  open fl use {Float}

  -- What other sessions of the database call meanwhile.
  meanwhile : List (Call Float) → Action (State fl env) Unit
  meanwhile between s = (returned tt, run_calls fl env between s)

  -- The part of `submit` behind the ownership test and the quota: a second session, of which the
  -- first one's count knows nothing.
  enqueue :
      List (Call Float)
      → String
      → String
      → String
      → TaskRequest Float
      → Action (State fl env) (TaskView Float)
  unfolding meanwhile
  enqueue between task_id project_id user_id request = do
    plan ← from_result (resolve fl settings request)
    meanwhile between
    Repo.create fl env task_id project_id user_id plan

  -- The test of the number of open tasks, before the rest of `submit`.
  within_quota : ℕ → Action (State fl env) (TaskView Float) → Action (State fl env) (TaskView Float)
  within_quota active rest =
      if leb settings.max_active_tasks_per_user active
      then raise (execution_error "Too many active execution tasks for this user." 429)
      else rest

  -- `between` is what other sessions call between the count and the insertion.
  unfoldable pub submit :
      List (Call Float)
      → String
      → String
      → String
      → TaskRequest Float
      → Action (State fl env) (TaskView Float)
  unfolding enqueue within_quota
  submit between task_id project_id user_id request =
      if owned project_id user_id
      then (do
        active ← Repo.count_active_for_user fl env user_id
        within_quota active (enqueue between task_id project_id user_id request))
      else raise (execution_error "Project not found or unauthorized." 404)

  or_missing : Option (TaskView Float) → Action (State fl env) (TaskView Float)
  or_missing none = raise (execution_error "Execution task not found." 404)
  or_missing (some view) = pure view

  unfoldable pub get : String → String → Action (State fl env) (TaskView Float)
  unfolding or_missing
  get task_id user_id = do view ← Repo.get fl env task_id user_id; or_missing view

  unfoldable pub list_for_project :
      String → String → ℕ → Action (State fl env) (List (TaskView Float))
  list_for_project project_id user_id limit =
      if owned project_id user_id
      then Repo.list_for_project fl env project_id user_id limit
      else raise (execution_error "Project not found or unauthorized." 404)

  unfoldable pub cancel : String → String → Action (State fl env) (TaskView Float)
  unfolding or_missing
  cancel task_id user_id = do
    found ← Repo.get fl env task_id user_id
    or_missing found
    view ← Repo.request_cancel fl env task_id user_id
    or_missing view
