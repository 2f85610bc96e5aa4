-- ===== src/Agents/RunStore/Calls.antt =====
-- Any sequence of calls of the methods of run_store.py that write, by any workers and users, with
-- any commits failing: a run that has left the queue stays out of it.
use code_explorer.Base.{
  ℕ, suc, String, Bool, true, false, ◌||◌, Option, none, some, List, [], ◌∷◌, ◌==◌, refl, arith,
  inl, inr, All, elem, Bool-cases,
}
use code_explorer.Execution.Contracts.{is_some}
use code_explorer.Execution.Result.{Error}
use code_explorer.Execution.Exec.{Preserves, Preserves-bind, ◌>>=◌, pure, raise, reads}
use code_explorer.Agents.Store.{
  Run, Job, Value, Db, Env, update_rows, first_row, now, commit, append_event,
}
use code_explorer.Agents.Records.{
  AgentRunRequest, taken, expired, cancelled_run, Field, has_job, any_unsupported, strategies,
}
use code_explorer.Agents.RunStore.{
  add_event, insert_run, create, ensure_jobs, claim_if, claim_candidate, claim_found, claim_next,
  cancel_found, notify, request_cancel, heartbeat, report_recovered, recover_stale, finish_job,
  update_found, update, fail_claim,
}
use code_explorer.Agents.RunStore.Left.{
  HasLeft, KeepsLeft, HasLeft-update_rows, HasLeft-append, KeepsStatus, KeepsLeft-set_fields, apart,
  KeepsLeft-taken, KeepsLeft-expired, KeepsLeft-cancelled_run,
}

pub data Call (J : Type 0) : Type 0 where
  create_run : String → String → String → AgentRunRequest → String → Call J
  ensure : Call J
  claim : String → Call J
  -- a `claim_next` whose SELECT read an older state
  claim_older : String → String → Call J
  cancel : String → String → Call J
  beat : String → String → Call J
  recover : ℕ → Call J
  finish : String → String → Call J
  set_values : String → List Field → Call J
  fail : String → String → Call J
  log : String → String → List (String × Value J) → Call J

abbrev pub IsOrdinary : {J : Type 0} → Call J → Type 0
IsOrdinary (set_values _ values) = All KeepsStatus values
IsOrdinary _ = Unit

module _ {J : Type 0} (env : Env) where
  unfoldable pub run_call : Call J → Db J → Db J
  run_call (create_run i p u request strategy) db = (create env i p u request strategy db).1
  run_call ensure db = (ensure_jobs env db).1
  run_call (claim w) db = (claim_next env w db).1
  run_call (claim_older w i) db = (claim_candidate env w i db).1
  run_call (cancel i u) db = (request_cancel env i u db).1
  run_call (beat i w) db = (heartbeat env i w db).1
  run_call (recover n) db = (recover_stale env n db).1
  run_call (finish i w) db = (finish_job env i w db).1
  run_call (set_values i values) db = (update env i values db).1
  run_call (fail i message) db = (fail_claim env i message db).1
  run_call (log i e payload) db = (add_event env i e payload db).1

  unfoldable pub run_calls : List (Call J) → Db J → Db J
  run_calls [] db = db
  run_calls (c ∷ cs) db = run_calls cs (run_call c db)

  module _ (i : String) where
    abbrev pub Left : Db J → Type 0
    Left db = HasLeft i db.runs

    pub Preserves-commit :
        (f : List Run → List Run) (g : List Job → List Job)
        → ((rows : List Run) → HasLeft i rows → HasLeft i (f rows))
        → Preserves Left (commit env f g)
    unfolding commit
    Preserves-commit f g k = record {
      at = λ db h. elim (Bool-cases (env.commits db.tick)) [
        | inl e ↦ rw e (k db.runs h)
        | inr e ↦ rw e h
      ];
    }

    pub Preserves-change :
        (p : Run → Bool) (f : Run → Run) (g : List Job → List Job)
        → KeepsLeft f
        → Preserves Left (commit env (update_rows p f) g)
    Preserves-change p f g k =
        Preserves-commit (update_rows p f) g (λ rows h. HasLeft-update_rows i p f rows k h)

    pub Preserves-jobs : (g : List Job → List Job) → Preserves Left (commit env (λ rs. rs) g)
    Preserves-jobs g = Preserves-commit (λ rs. rs) g (λ rows h. h)

    pub Preserves-now : Preserves Left (now env)
    unfolding now
    Preserves-now = record { at = λ db h. h }

    pub Preserves-add_event :
        (r e : String) (payload : List (String × Value J))
        → Preserves Left (add_event env r e payload)
    unfolding add_event append_event ◌>>=◌ now
    Preserves-add_event r e payload = record {
      at =
          λ db h. elim (Bool-cases (env.commits (suc db.tick))) [ inl c ↦ rw c h | inr c ↦ rw c h ];
    }

    pub Preserves-pure : {A : Type 0} (a : A) → Preserves Left (pure a)
    Preserves-pure a = record { at = λ db h. h }

    pub Preserves-raise : {A : Type 0} (e : Error) → Preserves Left (raise {State = Db J} {A = A} e)
    Preserves-raise e = record { at = λ db h. h }

    pub Preserves-reads : {A : Type 0} (q : Db J → A) → Preserves Left (reads q)
    Preserves-reads q = record { at = λ db h. h }

    pub Preserves-claim_if :
        (w c : String) (t : ℕ) (b : Bool) → Preserves Left (claim_if env w c t b)
    unfolding claim_if
    Preserves-claim_if w c t false = Preserves-pure none
    Preserves-claim_if w c t true =
        Preserves-bind Left _ _ (Preserves-change _ (taken t) _ (KeepsLeft-taken t)) (λ _.
          Preserves-bind Left _ _ (Preserves-reads _)
            (λ _. Preserves-bind Left _ _ (Preserves-reads _) (λ _. Preserves-pure _)))

    pub Preserves-claim_candidate : (w c : String) → Preserves Left (claim_candidate env w c)
    unfolding claim_candidate
    Preserves-claim_candidate w c =
        Preserves-bind Left _ _ Preserves-now
          (λ t. Preserves-bind Left _ _ (Preserves-reads _) (λ n. Preserves-claim_if w c t _))

    pub Preserves-claim_found : (w : String) (o : Option Run) → Preserves Left (claim_found env w o)
    unfolding claim_found
    Preserves-claim_found w none = Preserves-pure none
    Preserves-claim_found w (some row) = Preserves-claim_candidate w row.id

    pub Preserves-claim_next : (w : String) → Preserves Left (claim_next env w)
    unfolding claim_next
    Preserves-claim_next w =
        Preserves-bind Left _ _ (Preserves-reads _) (λ o. Preserves-claim_found w o)

    pub Preserves-insert_run : (r : Run) (j : Job) → Preserves Left (insert_run env r j)
    unfolding insert_run commit
    Preserves-insert_run r j = record {
      at = λ db h.
          elim (Bool-cases
            (is_some (first_row (λ u. u.id == r.id) db.runs) || has_job db.jobs j.run_id)) [
              | inl e ↦ rw e h
              | inr e ↦ elim (Bool-cases (env.commits db.tick)) [
                | inl c ↦ rw (e, c) (HasLeft-append i db.runs r (ground (arith, e)) h)
                | inr c ↦ rw (e, c) h
              ]
            ];
    }

    pub Preserves-create :
        (r p u : String) (request : AgentRunRequest) (strategy : String)
        → Preserves Left (create env r p u request strategy)
    unfolding create
    Preserves-create r p u request strategy = elim (Bool-cases (elem strategy strategies)) [
      | inl e ↦ rw e (
          Preserves-bind Left _ _ Preserves-now
            (λ t. Preserves-bind Left _ _ (Preserves-insert_run _ _) (λ _. Preserves-pure _)))
      | inr e ↦ rw e (Preserves-raise _)
    ]

    pub Preserves-ensure_jobs : Preserves Left (ensure_jobs env)
    unfolding ensure_jobs
    Preserves-ensure_jobs = Preserves-bind Left _ _ (Preserves-reads _) (λ rows.
        Preserves-bind Left _ _ Preserves-now
          (λ t. Preserves-bind Left _ _ (Preserves-jobs _) (λ _. Preserves-pure _)))

    pub Preserves-notify : (r : String) (e : Option String) → Preserves Left (notify env r e)
    unfolding notify
    Preserves-notify r none = Preserves-pure tt
    Preserves-notify r (some e) =
        Preserves-bind Left _ _ (Preserves-add_event r e []) (λ _. Preserves-pure tt)

    pub Preserves-cancel_found : (o : Option Run) → Preserves Left (cancel_found env o)
    unfolding cancel_found
    Preserves-cancel_found none = Preserves-pure none
    Preserves-cancel_found (some row) = Preserves-bind Left _ _ Preserves-now (λ t.
        Preserves-bind Left _ _ (Preserves-change _ (cancelled_run t) _ (KeepsLeft-cancelled_run t))
          (λ _. Preserves-bind Left _ _ (Preserves-notify _ _) (λ _. Preserves-pure _)))

    pub Preserves-request_cancel : (r u : String) → Preserves Left (request_cancel env r u)
    unfolding request_cancel
    Preserves-request_cancel r u =
        Preserves-bind Left _ _ (Preserves-reads _) (λ o. Preserves-cancel_found o)

    pub Preserves-heartbeat : (r w : String) → Preserves Left (heartbeat env r w)
    unfolding heartbeat
    Preserves-heartbeat r w = Preserves-bind Left _ _ Preserves-now (λ t. Preserves-jobs _)

    pub Preserves-finish_job : (r w : String) → Preserves Left (finish_job env r w)
    unfolding finish_job
    Preserves-finish_job r w = Preserves-bind Left _ _ Preserves-now (λ t. Preserves-jobs _)

    pub Preserves-report_recovered : (rows : List Run) → Preserves Left (report_recovered env rows)
    unfolding report_recovered
    Preserves-report_recovered [] = Preserves-pure tt
    Preserves-report_recovered (r ∷ rows) =
        Preserves-bind Left _ _ (Preserves-add_event r.id _ _)
          (λ _. Preserves-report_recovered rows)

    pub Preserves-recover_stale : (n : ℕ) → Preserves Left (recover_stale env n)
    unfolding recover_stale
    Preserves-recover_stale n = Preserves-bind Left _ _ (Preserves-reads _) (λ jobs.
        Preserves-bind Left _ _ (Preserves-reads _) (λ rows.
          Preserves-bind Left _ _ Preserves-now (λ t.
            Preserves-bind Left _ _ (Preserves-change _ (expired t) _ (KeepsLeft-expired t)) (λ _.
              Preserves-bind Left _ _ (Preserves-report_recovered rows) (λ _. Preserves-pure _)))))

    pub Preserves-update_found :
        (values : List Field) (o : Option Run)
        → All KeepsStatus values
        → Preserves Left (update_found env values o)
    unfolding update_found
    Preserves-update_found values none h = Preserves-pure tt
    Preserves-update_found values (some row) h =
        Preserves-bind Left _ _ Preserves-now
          (λ t. Preserves-change _ _ _ (λ r. KeepsLeft-set_fields values h r))

    pub Preserves-update :
        (r : String) (values : List Field)
        → All KeepsStatus values
        → Preserves Left (update env r values)
    unfolding update
    Preserves-update r values h = elim (Bool-cases (any_unsupported values)) [
      | inl e ↦ rw e (Preserves-raise _)
      | inr e ↦
          rw e
            (Preserves-bind Left _ _ (Preserves-reads _) (λ o. Preserves-update_found values o h))
    ]

    pub Preserves-fail_claim : (r message : String) → Preserves Left (fail_claim env r message)
    unfolding fail_claim
    Preserves-fail_claim r message =
        Preserves-bind Left _ _ (Preserves-update r _ (apart "failed" "queued" refl, (tt, tt)))
          (λ _. Preserves-bind Left _ _ (Preserves-add_event r _ _) (λ _. Preserves-pure tt))

    pub HasLeft-run_call :
        (c : Call J) (db : Db J) → IsOrdinary c → HasLeft i db.runs → HasLeft i (run_call c db).runs
    unfolding run_call
    HasLeft-run_call (create_run r p u request strategy) db o h =
        (Preserves-create r p u request strategy).at db h
    HasLeft-run_call ensure db o h = Preserves-ensure_jobs.at db h
    HasLeft-run_call (claim w) db o h = (Preserves-claim_next w).at db h
    HasLeft-run_call (claim_older w r) db o h = (Preserves-claim_candidate w r).at db h
    HasLeft-run_call (cancel r u) db o h = (Preserves-request_cancel r u).at db h
    HasLeft-run_call (beat r w) db o h = (Preserves-heartbeat r w).at db h
    HasLeft-run_call (recover n) db o h = (Preserves-recover_stale n).at db h
    HasLeft-run_call (finish r w) db o h = (Preserves-finish_job r w).at db h
    HasLeft-run_call (set_values r values) db o h = (Preserves-update r values o).at db h
    HasLeft-run_call (fail r message) db o h = (Preserves-fail_claim r message).at db h
    HasLeft-run_call (log r e payload) db o h = (Preserves-add_event r e payload).at db h

    pub HasLeft-run_calls :
        (cs : List (Call J)) (db : Db J)
        → All IsOrdinary cs
        → HasLeft i db.runs
        → HasLeft i (run_calls cs db).runs
    unfolding run_calls
    HasLeft-run_calls [] db o h = h
    HasLeft-run_calls (c ∷ cs) db (o, os) h =
        HasLeft-run_calls cs (run_call c db) os (HasLeft-run_call c db o h)
