-- ===== src/Execution/Tests.antt =====
-- Runs of the code of backend/app/execution, and its theorems at concrete inputs.
use code_explorer.Base.{
  ℕ, ◌+◌, ◌≤◌, max, String, true, false, none, some, List, [], ◌∷◌, ◌++◌, ◌≡◌, ◌≢◌, ◌↔◌, refl,
  arith, All, In, inl, inr, eq_iff, ◌==◌, select,
}
use code_explorer.Base.Int.{pos}
use code_explorer.Execution.Result.{returned, raised, execution_error}
use code_explorer.Execution.Exec.{◌>>=◌}
use code_explorer.Execution.Samples.{floats, steady, steady-IsSqlite, unary, oldest, older}
use code_explorer.Execution.Contracts.{
  Plan, TaskRequest, TaskView, command, queued, running, completed,
}
use code_explorer.Execution.Policy.{Settings, resolve, validate_plan}
use code_explorer.Execution.Policy.Argv.{image_matches, validate_argv}
use code_explorer.Execution.Policy.Conforms.{IsValidArgv, validate_argv_iff}
use code_explorer.Execution.Policy.Revalidation.{IsAllowed, validate_plan_iff}
use code_explorer.Execution.Policy.Resolution.{validate_plan-resolve}
use code_explorer.Execution.Policy.Requests.{Fulfils, resolve_iff}
use code_explorer.Execution.Store.{nothing, Task, Db, Event, known, now, commit, append_event}
use code_explorer.Execution.Repository.{
  claim_candidate, claim_next, request_cancel, finish, recover_stale, is_stale, queued_row, view_of,
  claimed_by, add_event, events_after, count_active_for_user, create, heartbeat,
}
use code_explorer.Execution.Repository.Life.{Follows-refl, IsWellFormed}
use code_explorer.Execution.Repository.Rows.{Advances}
use code_explorer.Execution.Repository.Calls.{
  run_call, Call, create_task, claim, cancel, beat, recover, finish_task, run_calls,
  run_calls-Advances,
}
use code_explorer.Execution.Repository.Claim.{claimed_once}
use code_explorer.Execution.Repository.Order.{
  TakesOldest, claim_next-TakesOldest, claim_next_progress,
}
use code_explorer.Execution.Repository.Log.Resume.{events_after_resumes}
use code_explorer.Execution.Repository.Ends.{
  Ended, late_finish_is_logged, cancel_by_stranger, recover_stale_clears,
}
use code_explorer.Execution.Service.{submit}
use code_explorer.Execution.Service.Sizes.{open_tasks, creations}
use code_explorer.Execution.Service.Quota.{submit_within_quota}
use code_explorer.Execution.Worker.{Run, done, on_heartbeat, on_output, ask_cancelled, run_once}
use code_explorer.Execution.Worker.Ends.{run_once_ends}
use code_explorer.Execution.Worker.Plans.{stored_plan, worker_accepts_resolved}

abbrev settings : Settings ℕ
settings = record {
  allowed_images = "alpine" ∷ [];
  scan_images = ("bandit", "scanner") ∷ [];
  max_timeout_seconds = 300;
  max_cpu = 2;
  max_memory_mb = 2048;
  max_pids = 256;
  max_output_bytes = 1048576;
  max_active_tasks_per_user = 5;
  docker_binary = "docker";
}

abbrev request : TaskRequest ℕ
request = record {
  kind = command;
  image = some "alpine";
  argv = "ls" ∷ "-l" ∷ [];
  scan_profile = none;
  timeout_seconds = 60;
  cpu_limit = 1;
  memory_mb = 128;
  pids_limit = 32;
}

abbrev plan : Plan ℕ
plan = record {
  kind = command;
  image = "alpine";
  argv = "ls" ∷ "-l" ∷ [];
  scan_profile = none;
  timeout_seconds = 60;
  cpu_limit = 1;
  memory_mb = 128;
  pids_limit = 32;
}

resolve-request : resolve floats settings request ≡ returned plan
unfolding resolve validate_argv image_matches
resolve-request = refl

resolve-forbidden :
    resolve floats settings (record request { image = some "ubuntu" })
    ≡ raised (execution_error "Container image is not in the execution allowlist." 403)
unfolding resolve validate_argv image_matches
resolve-forbidden = refl

resolve-greedy :
    resolve floats settings (record request { memory_mb = 4096 })
    ≡ raised (execution_error "Requested memory limit exceeds server policy." 422)
unfolding resolve validate_argv image_matches
resolve-greedy = refl

validate_argv_iff_example : (validate_argv ("ls" ∷ []) ≡ returned tt) ↔ IsValidArgv ("ls" ∷ [])
validate_argv_iff_example = validate_argv_iff ("ls" ∷ [])

validate_plan_iff_example :
    (validate_plan floats settings plan ≡ returned tt) ↔ IsAllowed floats settings plan
validate_plan_iff_example = validate_plan_iff floats settings plan

resolve_iff_example :
    (resolve floats settings request ≡ returned plan) ↔ Fulfils floats settings request plan
resolve_iff_example = resolve_iff floats settings request plan

validate_plan-resolve_example : validate_plan floats settings plan ≡ returned tt
validate_plan-resolve_example = validate_plan-resolve floats settings request plan resolve-request

abbrev waiting : Task
waiting = record {
  id = "t1";
  project_id = "p";
  user_id = "ann";
  kind = "command";
  image = "alpine";
  argv = "ls" ∷ "-l" ∷ [];
  scan_profile = none;
  status = known queued;
  timeout_seconds = 60;
  cpu_limit = unary 1;
  memory_mb = 128;
  pids_limit = 32;
  worker_id = none;
  exit_code = none;
  error = none;
  output_truncated = false;
  created_at = 5;
  updated_at = 5;
  started_at = none;
  finished_at = none;
}

abbrev busy : Task
busy = record waiting {
  id = "t2";
  status = known running;
  worker_id = some "w1";
  created_at = 3;
  updated_at = 9;
  started_at = some 9;
}

abbrev start : Db ℕ
start = record { tasks = waiting ∷ busy ∷ []; events = []; tick = 0 }

t1_not_t2 : ◌≢◌ {A = String} "t1" "t2"
t1_not_t2 e = ground (arith, eq_iff "t1" "t2")

start-IsWellFormed : IsWellFormed start.tasks
start-IsWellFormed = record {
  unique = ((t1_not_t2, tt), (tt, tt));
  sound = ((refl, refl, refl, refl), ((refl, refl, refl), tt));
}

abbrev calls : List (Call ℕ)
calls =
    claim "w2"
    ∷ cancel "t2" "ann"
    ∷ beat "t2" "w1"
    ∷ recover 50
    ∷ finish_task "t1" (known completed) (some (pos 0)) none false
    ∷ []

run_calls-Advances_example : Advances start.tasks (run_calls floats steady calls start).tasks
run_calls-Advances_example = run_calls-Advances floats steady calls start start-IsWellFormed

abbrev logged : Db ℕ
logged = record start {
  events =
      record {
        sequence = 7;
        task_id = "t2";
        event_type = "task.created";
        payload = nothing;
        created_at = 3;
      }
      ∷ [];
}

events_after_resumes_example :
    (more : List (Event ℕ)) × ((run_calls floats steady calls logged).events
      ≡ logged.events ++ more)
    × ((events_after floats steady "t2" 7 (run_calls floats steady calls logged)).0
        ≡ returned (select (λ e. e.task_id == "t2") more))
events_after_resumes_example =
    events_after_resumes floats steady calls logged "t2" 7 steady-IsSqlite (tt, tt) (inl refl)
      ((λ _. omega arith), tt)

abbrev claimed_view : TaskView ℕ
claimed_view = view_of floats steady (claimed_by "w2" 100 waiting)

first_claim : (claim_candidate floats steady "w2" "t1" start).0 ≡ returned (some claimed_view)
unfolding claim_candidate add_event append_event now commit ◌>>=◌
first_claim = refl

claimed_once_example :
    (claim_candidate floats steady "w3" "t1"
      (run_calls floats steady calls (claim_candidate floats steady "w2" "t1" start).1)).0
    ≢ returned (some claimed_view)
claimed_once_example =
    claimed_once floats steady "w2" "w3" "t1" start claimed_view claimed_view calls
      start-IsWellFormed first_claim

claim_gives : (claim_next floats steady "w2" start).0 ≡ returned (some claimed_view)
unfolding claim_next claim_candidate add_event append_event now commit oldest older view_of ◌>>=◌
claim_gives = refl

claim_next-TakesOldest_example :
    TakesOldest floats steady "w2" start (claim_next floats steady "w2" start).1 claimed_view
claim_next-TakesOldest_example =
    claim_next-TakesOldest floats steady "w2" start claimed_view steady-IsSqlite start-IsWellFormed
      claim_gives

claim_next_progress_example :
    (v : TaskView ℕ) × ((claim_next floats steady "w2" start).0 ≡ returned (some v))
claim_next_progress_example =
    claim_next_progress floats steady "w2" start waiting steady-IsSqlite start-IsWellFormed
      (λ n. refl) (inl refl) refl

late_finish_is_logged_example :
    ((finish floats steady "t1" (known completed) (some (pos 0)) none false start).1.tasks
      ≡ start.tasks)
    × (ev : Event ℕ) × ((finish floats steady "t1"
          (known completed)
          (some (pos 0))
          none
          false
          start).1.events
        ≡ start.events ++ ev ∷ [])
    × (ev.task_id ≡ "t1")
    × (ev.event_type ≡ "task.completed")
late_finish_is_logged_example =
    late_finish_is_logged floats steady "t1" completed (some (pos 0)) none false start waiting
      start-IsWellFormed (inl refl) refl refl refl (λ n. refl)

cancel_by_stranger_example : request_cancel floats steady "t2" "bob" start ≡ (returned none, start)
cancel_by_stranger_example =
    cancel_by_stranger floats steady "t2" "bob" start busy start-IsWellFormed (inr (inl refl)) refl
      (λ e. ground (arith, eq_iff "ann" "bob"))

recover_stale_clears_example :
    All (λ r. is_stale 50 r ≡ false) (recover_stale floats steady 50 start).1.tasks
    × ((r : Task)
        → In r start.tasks
        → is_stale 50 r ≡ false
        → In r (recover_stale floats steady 50 start).1.tasks)
recover_stale_clears_example = recover_stale_clears floats steady 50 start refl

-- Another session creates a task of the same user between the count and the insertion.
abbrev other_session : List (Call ℕ)
other_session = create_task "t4" "p" "ann" plan ∷ beat "t2" "w1" ∷ []

submit_within_quota_example :
    open_tasks "ann"
      (submit floats steady settings
        (λ p u. true)
        other_session
        "t3"
        "p"
        "ann"
        request
        start).1.tasks
    ≤ max (open_tasks "ann" start.tasks) 5 + creations "ann" other_session
submit_within_quota_example =
    submit_within_quota floats steady settings (λ p u. true) other_session "t3" "p" "ann" request
      start start-IsWellFormed

-- With a quota of three, and two tasks open before, the user has four.
quota_missed :
    open_tasks "ann"
      (submit floats steady
        (record settings { max_active_tasks_per_user = 3 })
        (λ p u. true)
        other_session
        "t3"
        "p"
        "ann"
        request
        start).1.tasks
    ≡ 4
unfolding submit resolve validate_argv image_matches count_active_for_user create run_calls run_call
    heartbeat queued_row now commit add_event append_event ◌>>=◌
quota_missed = refl

-- A run that beats, prints, sees a cancellation or not, and ends by no terminal status.
abbrev container : String → Plan ℕ → Run
container task_id p = on_heartbeat (
    on_output "hello" (
      ask_cancelled (λ c.
        done (record {
          status = known running;
          exit_code = none;
          error = none;
          output_truncated = c;
        }))))

run_once_ends_example :
    ((run_once floats steady settings (λ u p. true) container "w2" start).0 ≡ returned true)
    × Ended "t1" (run_once floats steady settings (λ u p. true) container "w2" start).1.tasks
unfolding view_of
run_once_ends_example =
    run_once_ends floats steady settings (λ u p. true) container "w2" start claimed_view
      start-IsWellFormed (λ n. refl) claim_gives

worker_accepts_resolved_example :
    (stored_plan floats steady settings
        (λ u p. true)
        container
        (queued_row floats steady "t1" "p" "ann" plan 5 5)
      ≡ plan)
    × (validate_plan floats settings (
          stored_plan floats steady settings
            (λ u p. true)
            container
            (queued_row floats steady "t1" "p" "ann" plan 5 5))
        ≡ returned tt)
worker_accepts_resolved_example =
    worker_accepts_resolved floats steady settings (λ u p. true) container request plan "t1" "p"
      "ann" 5 5 (queued_row floats steady "t1" "p" "ann" plan 5 5) resolve-request
      (Follows-refl (queued_row floats steady "t1" "p" "ann" plan 5 5))
