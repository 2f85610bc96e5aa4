-- ===== src/Execution/Worker/Plans.antt =====
-- The plan that the worker rebuilds from a row of the queue is the plan that was enqueued.
use code_explorer.Base.{ℕ, String, Bool, ◌≡◌, refl, ◌∙◌, sym, ap}
use code_explorer.Execution.Result.{returned}
use code_explorer.Execution.Contracts.{Floats, Kind, command, security_scan, TaskRequest, Plan}
use code_explorer.Execution.Policy.{Settings, resolve, validate_plan}
use code_explorer.Execution.Policy.Resolution.{validate_plan-resolve}
use code_explorer.Execution.Store.{Env, Task}
use code_explorer.Execution.Repository.{view_of, queued_row, kind_name, read_kind}
use code_explorer.Execution.Repository.Life.{frozen, Follows}
use code_explorer.Execution.Worker.{Run, plan_of_view}

read_kind-kind_name : (k : Kind) → read_kind (kind_name k) ≡ k
read_kind-kind_name command = refl
read_kind-kind_name security_scan = refl

module _ (fl : Floats) (env : Env) (settings : Settings fl.Float)
    (workspace_is_sound : String → String → Bool) (execute : String → Plan fl.Float → Run) where
  abbrev pub stored_plan : Task → Plan fl.Float
  stored_plan r = plan_of_view fl env settings workspace_is_sound execute (view_of fl env r)

  stored_plan-queued_row :
      (i p u : String) (plan : Plan fl.Float) (c t : ℕ)
      → stored_plan (queued_row fl env i p u plan c t) ≡ plan
  unfolding plan_of_view view_of queued_row
  stored_plan-queued_row i p u plan c t = λ j. record plan {
    kind = read_kind-kind_name plan.kind j;
    cpu_limit = fl.parse-str plan.cpu_limit j;
  }

  stored_plan-frozen : (r : Task) → stored_plan (frozen r) ≡ stored_plan r
  unfolding plan_of_view view_of
  stored_plan-frozen r = refl

  -- A request that `resolve` accepted is stored, and the row may be claimed, touched or asked to
  -- stop: from whatever the row has become, the worker rebuilds the plan that was resolved, and under
  -- the same settings its second check accepts it.
  pub worker_accepts_resolved :
      (request : TaskRequest fl.Float) (plan : Plan fl.Float) (i p u : String) (c t : ℕ) (r : Task)
      → resolve fl settings request ≡ returned plan
      → Follows (queued_row fl env i p u plan c t) r
      → (stored_plan r ≡ plan) × (validate_plan fl settings (stored_plan r) ≡ returned tt)
  worker_accepts_resolved request plan i p u c t r h f =
      let same =
        sym (stored_plan-frozen r)
        ∙ ap stored_plan f.fixed
        ∙ stored_plan-frozen (queued_row fl env i p u plan c t)
        ∙ stored_plan-queued_row i p u plan c t in
      (same, rw same (validate_plan-resolve fl settings request plan h))
