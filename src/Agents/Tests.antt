-- ===== src/Agents/Tests.antt =====
-- Runs of the models of backend/app/agents at concrete inputs.
use code_explorer.Base.{
  ℕ, suc, max, String, true, false, Option, none, some, List, [], ◌∷◌, ◌≡◌, ◌≢◌, refl, inl, inr,
  select, length, ◌+◌, elem, if◌then◌else◌,
}
use code_explorer.Execution.Result.{returned}
use code_explorer.Agents.History.{
  entry, history_event_fields, history_event, history_with, history_event_shows,
}
use code_explorer.Agents.Store.{Event, text, json, Run, Job, Db, Env, now, commit, append_event}
use code_explorer.Agents.Records.{
  AgentRunRequest, AgentRunView, AgentClaim, set_status, claim_of, expired, lacks_job, view_of,
  queued_run, new_job,
}
use code_explorer.Agents.RunStore.{
  create, get, claim_candidate, claim_if, request_cancel, cancel_found, notify, is_cancel_requested,
  heartbeat, finish_job, recover_stale, report_recovered, ensure_jobs, add_event, insert_run,
  update, update_found,
}
use code_explorer.Agents.RunStore.Left.{apart}
use code_explorer.Agents.RunStore.Calls.{Call, claim, ensure, recover, beat, set_values, run_calls}
use code_explorer.Agents.RunStore.Claims.{run_claimed_once}
use code_explorer.Agents.RunStore.Leases.{lease_lost}
use code_explorer.Agents.RunStore.Missing.{ensure_jobs_covers}
use code_explorer.Agents.RunStore.Cancel.{cancelled_unclaimed, running_cancel_flagged}
use code_explorer.Execution.Exec.{◌>>=◌}

abbrev first_run : List Run → Option Run
first_run [] = none
first_run (r ∷ rows) = some r

abbrev next : List ℕ → ℕ
next [] = 1
next (k ∷ ks) = let rest = next ks in max (suc k) rest

-- The clock shows 100 and more, and every commit goes through.
abbrev env : Env
env = record { time = λ t. t + 100; commits = λ _. true; oldest = first_run; next_key = next }

abbrev request : AgentRunRequest
request = record { question = "What calls main?"; use_model = true; max_steps = 4; model = none }

abbrev waiting_run : Run
waiting_run = record {
  id = "r1";
  project_id = "p";
  user_id = "u";
  question = "What calls main?";
  status = "queued";
  use_model = true;
  max_steps = 4;
  provider = none;
  model = none;
  answer = none;
  error = none;
  created_at = 1;
  updated_at = 1;
}

abbrev live_run : Run
live_run = record waiting_run { id = "r2"; status = "running" }

abbrev waiting_job : Job
waiting_job = record {
  run_id = "r1";
  strategy = "graph";
  worker_id = none;
  cancel_requested = false;
  attempts = 0;
  created_at = 1;
  updated_at = 1;
}

abbrev live_job : Job
live_job = record waiting_job { run_id = "r2"; worker_id = some "w1"; attempts = 1; updated_at = 5 }

-- A waiting run and a running one, each with its job.
abbrev start : Db String
start = record {
  runs = waiting_run ∷ live_run ∷ [];
  jobs = waiting_job ∷ live_job ∷ [];
  events = [];
  tick = 0;
}

-- The waiting run has no job, as before the queue had a table.
abbrev legacy : Db String
legacy = record start { jobs = live_job ∷ [] }

abbrev claimed : AgentClaim
claimed = record {
  run_id = "r1";
  project_id = "p";
  user_id = "u";
  question = "What calls main?";
  use_model = true;
  max_steps = 4;
  model = none;
  strategy = "graph";
}

abbrev calls : List (Call String)
calls =
    ensure
    ∷ beat "r1" "w1"
    ∷ recover 50
    ∷ set_values "r1" (set_status "completed" ∷ [])
    ∷ claim "w3"
    ∷ []

abbrev live_view : AgentRunView
live_view = view_of live_run

-- A run that is created waits for its claim, and shows to its owner only.
create_test :
    ((get env "r9" "u" (create env "r9" "p" "u" request "graph" start).1).0
      ≡ returned (some (view_of (queued_run "r9" "p" "u" request 100))))
    × ((get env "r9" "v" (create env "r9" "p" "u" request "graph" start).1).0 ≡ returned none)
unfolding create get insert_run commit now view_of queued_run new_job ◌>>=◌
create_test = (refl, refl)

-- A worker that has lost its lease can still write the answer: `update` asks for no lease, and the
-- run that the recovery has failed is completed again.
recovered_run_completes :
    let failed_then = (recover_stale env 50 start).1 in
    ((get env "r2" "u" failed_then).0 ≡ returned (some (view_of (expired 100 live_run))))
    × ((get env "r2" "u" (update env "r2" (set_status "completed" ∷ []) failed_then).1).0
        ≡ returned (
            some
              (view_of (record (expired 100 live_run) { status = "completed"; updated_at = 104 }))))
unfolding recover_stale report_recovered add_event append_event get update update_found view_of
    commit now ◌>>=◌
recovered_run_completes = (refl, refl)

run_claimed_once_example :
    (claim_candidate env "w2" "r1" (run_calls env calls (claim_candidate env "w1" "r1" start).1)).0
    ≢ returned (some claimed)
unfolding claim_candidate claim_if claim_of commit now ◌>>=◌
run_claimed_once_example =
    run_claimed_once env "w1" "w2" "r1" start claimed claimed calls
      (tt, (tt, (tt, ((apart "completed" "queued" refl, tt), (tt, tt))))) refl

lease_lost_example :
    ((heartbeat env "r2" "w1" (recover_stale env 50 start).1).1.jobs
      ≡ (recover_stale env 50 start).1.jobs)
    × ((finish_job env "r2" "w1" (recover_stale env 50 start).1).1.jobs
        ≡ (recover_stale env 50 start).1.jobs)
lease_lost_example = lease_lost env 50 "w1" live_run start refl (inr (inl refl)) refl

ensure_jobs_covers_example :
    (select (lacks_job (ensure_jobs env legacy).1.jobs) (ensure_jobs env legacy).1.runs ≡ [])
    × ((ensure_jobs env legacy).1.runs ≡ legacy.runs)
    × (length (ensure_jobs env legacy).1.jobs ≡ length legacy.jobs + 1)
unfolding ensure_jobs commit now ◌>>=◌
ensure_jobs_covers_example = ensure_jobs_covers env legacy 1 refl

cancelled_unclaimed_example :
    (claim_candidate env "w2" "r1" (run_calls env calls (request_cancel env "r1" "u" start).1)).0
    ≢ returned (some claimed)
unfolding request_cancel cancel_found notify add_event append_event view_of commit now ◌>>=◌
cancelled_unclaimed_example =
    cancelled_unclaimed env "r1" "u" "w2" start
      (view_of (record waiting_run { status = "cancelled"; updated_at = 100 })) claimed calls
      (tt, (tt, (tt, ((apart "completed" "queued" refl, tt), (tt, tt))))) refl

running_cancel_flagged_example :
    (is_cancel_requested env "r2" (request_cancel env "r2" "u" start).1).0 ≡ returned true
unfolding request_cancel cancel_found notify add_event append_event view_of commit now ◌>>=◌
running_cancel_flagged_example = running_cancel_flagged env "r2" "u" start live_view refl refl

-- A result of a tool with its text, which the replay leaves out.
abbrev tool_event : Event String
tool_event = record {
  sequence = 7;
  run_id = "r1";
  event_type = "tool.completed";
  payload = ("name", text "read_file") ∷ ("result", json "source") ∷ [];
  created_at = 1;
}

abbrev shown_event : Event String
shown_event = record tool_event { payload = ("name", text "read_file") ∷ [] }

history_event_shows_example :
    (allowed : List String) × (entry "tool.completed" history_event_fields ≡ some allowed)
    × (shown_event.sequence ≡ tool_event.sequence)
    × (shown_event.event_type ≡ tool_event.event_type)
    × (entry "result" shown_event.payload
        ≡ (if elem "result" allowed then entry "result" tool_event.payload else none))
unfolding history_event history_with
history_event_shows_example = history_event_shows tool_event shown_event "result" refl
