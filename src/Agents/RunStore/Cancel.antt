-- ===== src/Agents/RunStore/Cancel.antt =====
-- `request_cancel` of run_store.py: a queued run is not started, a running one is told.
use code_explorer.Base.{
  ℕ, suc, String, Bool, true, false, ◌&&◌, Option, none, some, List, [], ◌∷◌, ◌==◌, ◌≡◌, ◌≢◌, refl,
  arith, sym, ap, ◌∙◌, inl, inr, All, eq_iff, eq_refl, Bool-cases,
}
use code_explorer.Execution.Contracts.{is_some}
use code_explorer.Execution.Result.{Outcome, returned}
use code_explorer.Execution.Exec.{Preserves, Preserves-bind, returned_of_bind, ◌>>=◌, pure}
use code_explorer.Agents.Store.{Run, Job, Db, Env, update_rows, first_row, now, commit}
use code_explorer.Agents.Records.{
  AgentRunView, AgentClaim, running, read_status, view_of, cancelled_run, cancel_event, requested,
  is_queued_run, flagged, flag_job, with_job, has_job, new_job, is_active,
}
use code_explorer.Agents.RunStore.{
  claim_candidate, cancel_found, request_cancel, is_cancel_requested, notify,
}
use code_explorer.Agents.RunStore.Rows.{All-update_rows, All-trivial, first_row-append}
use code_explorer.Agents.RunStore.Left.{HasLeft, is_some-update_rows, KeepsLeft-cancelled_run}
use code_explorer.Agents.RunStore.Calls.{Call, IsOrdinary, run_calls, HasLeft-run_calls}
use code_explorer.Agents.RunStore.Claims.{claim_candidate-none}
use code_explorer.Agents.RunStore.Leases.{Tables, Tables-add_event}

first_row-some :
    {A : Type 0} (p : A → Bool) (rows : List A) (a : A)
    → first_row p rows ≡ some a
    → (p a ≡ true) × (is_some (first_row p rows) ≡ true)
first_row-some p [] a h = cc
first_row-some p (b ∷ rows) a h = ground (arith, h, first_row-some p rows a)

weaker :
    (p q : Run → Bool) (rows : List Run)
    → ((r : Run) → p r ≡ true → q r ≡ true)
    → is_some (first_row p rows) ≡ true
    → is_some (first_row q rows) ≡ true
weaker p q [] k h = h
weaker p q (r ∷ rows) k h = ground (arith, h, k r, weaker p q rows k)

none_queued :
    (i : String) (t : ℕ) (rows : List Run)
    → All (λ r. is_queued_run i r ≡ false) (update_rows (λ r. r.id == i) (cancelled_run t) rows)
none_queued i t rows =
    All-update_rows (λ _. Unit {0}) _ (λ r. r.id == i) (cancelled_run t) rows
      (λ r _. elim (Bool-cases (r.id == i)) [
        | inl e ↦ elim (Bool-cases (r.status == "queued")) [
          | inl q ↦ rw (e, q) (rw e refl)
          | inr q ↦ rw (e, q) (rw (e, q) refl)
        ]
        | inr e ↦ rw e (rw e refl)
      ])
      (All-trivial _ rows (λ _. tt))

-- The flag that `is_cancel_requested` reads.
abbrev flag_of : String → List Job → Bool
flag_of i jobs = requested (first_row (λ (j : Job). j.run_id == i) jobs)

flag_of-flagged :
    (i : String) (t : ℕ) (jobs : List Job)
    → has_job jobs i ≡ true
    → flag_of i (update_rows (λ j. j.run_id == i) (flagged t) jobs) ≡ true
flag_of-flagged i t [] h = cc
flag_of-flagged i t (j ∷ jobs) h = elim (Bool-cases (j.run_id == i)) [
  | inl e ↦ rw (e, e) refl
  | inr e ↦ rw (e, e) (flag_of-flagged i t jobs (rw e at h))
]

has_job-with_job :
    (i status : String) (t : ℕ) (jobs : List Job)
    → is_active status ≡ true
    → has_job (with_job i status t jobs) i ≡ true
unfolding new_job
has_job-with_job i status t jobs h = elim (Bool-cases (has_job jobs i)) [
  | inl e ↦ rw (h, e) e
  | inr e ↦
      rw
        (
          h,
          e,
          first_row-append (λ j. j.run_id == i) jobs (new_job i "default" t ∷ []),
          eq_refl i,
          e,
        )
        refl
]

same_view : (a b : AgentRunView) → returned (some a) ≡ returned (some b) → a ≡ b
same_view a b h = cc

read_running : (s : String) → read_status s ≡ running → s ≡ "running"
read_running s h = ground (arith, h, eq_iff s "running")

-- A view that shows a running run is of a row that runs.
running_row :
    (t : ℕ) (row : Run)
    → read_status (cancelled_run t row).status ≡ running
    → row.status ≡ "running"
running_row t row h = elim (Bool-cases (row.status == "queued")) [
  | inl e ↦ cc (rw e at h)
  | inr e ↦ read_running row.status (rw e at h)
]

module _ {J : Type 0} (env : Env) where
  Tables-notify :
      (rs : List Run) (js : List Job) (i : String) (o : Option String)
      → Preserves (Tables env rs js) (notify {J = J} env i o)
  unfolding notify
  Tables-notify rs js i none = record { at = λ db h. h }
  Tables-notify rs js i (some e) =
      Preserves-bind (Tables env rs js) _ _ (Tables-add_event env rs js i e [])
        (λ _. record { at = λ db h. h })

  cancel_found_result :
      (o : Option Run) (db : Db J) (v : AgentRunView)
      → (cancel_found env o db).0 ≡ returned (some v)
      → (row : Run) × (o ≡ some row)
        × (v ≡ view_of (cancelled_run (env.time db.tick) row))
        × Tables {J = J} env
            (update_rows (λ r. r.id == row.id) (cancelled_run (env.time db.tick)) db.runs)
            (flag_job row.id row.status (env.time db.tick) db.jobs)
            (cancel_found env o db).1
  unfolding cancel_found now commit ◌>>=◌
  cancel_found_result none db v h = cc
  cancel_found_result (some row) db v h = elim (Bool-cases (env.commits (suc db.tick))) [
    | inr e ↦ cc (rw e at h)
    | inl e ↦
        let t : ℕ = env.time db.tick in
        let rs : List Run = update_rows (λ r. r.id == row.id) (cancelled_run t) db.runs in
        let js : List Job = flag_job row.id row.status t db.jobs in
        let after : Db J = record db { runs = rs; jobs = js; tick = suc (suc db.tick) } in
        let tell = notify {J = J} env row.id (cancel_event row.status) in
        let view : Option AgentRunView = some (view_of (cancelled_run t row)) in
        let h' : ((tell >>= λ _. pure view) after).0 ≡ returned (some v) = rw e at h in
        let (a, _, same) = returned_of_bind tell (λ _. pure view) after (some v) h' in
        (
          row,
          refl,
          sym (
              same_view _ v
                (ap (λ (x : Outcome (Option AgentRunView) × Db J). x.0) (sym same) ∙ h')),
          rw e (
              (Preserves-bind (Tables env rs js) tell (λ _. pure view)
                  (Tables-notify rs js row.id (cancel_event row.status))
                  (λ _. record { at = λ d k. k })).at
                after (refl, refl)),
        )
  ]

  abbrev owned : String → String → Db J → Option Run
  owned i u db = first_row (λ r. r.id == i && r.user_id == u) db.runs

  HasLeft-request_cancel :
      (i u : String) (db : Db J) (v : AgentRunView)
      → (request_cancel env i u db).0 ≡ returned (some v)
      → HasLeft i (request_cancel env i u db).1.runs
  unfolding request_cancel ◌>>=◌
  HasLeft-request_cancel i u db v h =
      let (row, found, _, (runs, _)) = cancel_found_result (owned i u db) db v h in
      let (passes, there) =
        first_row-some (λ (r : Run). r.id == i && r.user_id == u) db.runs row found in
      let key : row.id ≡ i = ground (arith, passes, eq_iff row.id i) in
      let t : ℕ = env.time db.tick in
      rw (runs, key)
        (
          is_some-update_rows i (λ r. r.id == i) (cancelled_run t) db.runs
                (KeepsLeft-cancelled_run t)
              ∙ weaker _ (λ r. r.id == i) db.runs (λ r k. ground (arith, k)) there,
          none_queued i t db.runs,
        )

  -- A run whose cancellation has been accepted is given to no worker afterwards, whatever is called
  -- in between, as long as `update` sets no run back to queued.
  pub cancelled_unclaimed :
      (i u w : String) (db : Db J) (v : AgentRunView) (v' : AgentClaim) (cs : List (Call J))
      → All IsOrdinary cs
      → (request_cancel env i u db).0 ≡ returned (some v)
      → (claim_candidate env w i (run_calls env cs (request_cancel env i u db).1)).0
        ≢ returned (some v')
  cancelled_unclaimed i u w db v v' cs o h =
      claim_candidate-none env i w _ v'
        (HasLeft-run_calls env i cs _ o (HasLeft-request_cancel i u db v h))

  -- When the answer to a cancellation shows a run that is still running, the flag that its worker
  -- asks for is set, also where the run had no job.
  pub running_cancel_flagged :
      (i u : String) (db : Db J) (v : AgentRunView)
      → (request_cancel env i u db).0 ≡ returned (some v)
      → v.status ≡ running
      → (is_cancel_requested env i (request_cancel env i u db).1).0 ≡ returned true
  unfolding request_cancel is_cancel_requested ◌>>=◌ view_of
  running_cancel_flagged i u db v h s =
      let (row, found, view, (_, jobs)) = cancel_found_result (owned i u db) db v h in
      let (passes, _) =
        first_row-some (λ (r : Run). r.id == i && r.user_id == u) db.runs row found in
      let key : row.id ≡ i = ground (arith, passes, eq_iff row.id i) in
      let t : ℕ = env.time db.tick in
      let runs_on = running_row t row (sym (ap (λ (x : AgentRunView). x.status) view) ∙ s) in
      rw (jobs, key, runs_on)
        (ap returned (flag_of-flagged i t _ (has_job-with_job i "running" t db.jobs refl)))
