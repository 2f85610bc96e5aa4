-- ===== src/Execution/Service/Quota.antt =====
-- How far `submit` of service.py keeps to the quota of open tasks.
use code_explorer.Base.{suc, ◌+◌, ◌≤◌, max, String, Bool, List, arith, inl, inr}
use code_explorer.Execution.Result.{outcome_cases}
use code_explorer.Execution.Exec.{resume, ◌>>=◌}
use code_explorer.Execution.Contracts.{Floats, TaskRequest}
use code_explorer.Execution.Policy.{Settings, resolve}
use code_explorer.Execution.Store.{Env}
use code_explorer.Execution.Repository as Repo
use code_explorer.Execution.Repository.{State}
use code_explorer.Execution.Repository.Life.{IsWellFormed}
use code_explorer.Execution.Repository.Calls.{Call, run_calls}
use code_explorer.Execution.Service.{submit, within_quota, enqueue, meanwhile}
use code_explorer.Execution.Service.Sizes.{
  open_tasks, creations, open_tasks-create, open_tasks-run_calls,
}

module _ (fl : Floats) (env : Env) (settings : Settings fl.Float)
    (owned : String → String → Bool) where
  open_tasks-enqueue :
      (between : List (Call fl.Float)) (i p u : String) (r : TaskRequest fl.Float)
      (s : State fl env)
      → IsWellFormed s.tasks
      → open_tasks u (enqueue fl env settings owned between i p u r s).1.tasks
        ≤ suc (open_tasks u s.tasks + creations u between)
  unfolding enqueue meanwhile ◌>>=◌
  open_tasks-enqueue between i p u r s h = elim (outcome_cases (resolve fl settings r)) [
    | inl (plan, e) ↦
        rw (e, resume)
          (ground (
            arith,
            open_tasks-create fl env u i p u plan (run_calls fl env between s),
            open_tasks-run_calls fl env u between s h,
          ))
    | inr (x, e) ↦ rw (e, resume) (omega arith)
  ]

  -- After `submit` on a well-formed table, however it ends, its user has no more open tasks than the
  -- quota allows, or than there were before, and beyond that only as many as other sessions have
  -- called to create for the same user between the count and the insertion, whatever else they called.
  pub submit_within_quota :
      (between : List (Call fl.Float)) (i p u : String) (r : TaskRequest fl.Float)
      (s : State fl env)
      → IsWellFormed s.tasks
      → open_tasks u (submit fl env settings owned between i p u r s).1.tasks
        ≤ max (open_tasks u s.tasks) settings.max_active_tasks_per_user + creations u between
  unfolding submit within_quota Repo.count_active_for_user ◌>>=◌
  submit_within_quota between i p u r s h = ground (arith, open_tasks-enqueue between i p u r s h)
