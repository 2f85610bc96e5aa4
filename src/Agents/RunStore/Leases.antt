-- ===== src/Agents/RunStore/Leases.antt =====
-- The job rows of run_store.py: leases, their recovery, and cancellation.
use code_explorer.Base.{
  ℕ, suc, String, Bool, true, false, List, [], ◌∷◌, ◌==◌, ◌≡◌, refl, arith, sym, subst, inl, inr,
  All, In, map, select, elem, eq_iff, eq_refl, Bool-cases,
}
use code_explorer.Execution.Exec.{Preserves, Preserves-bind, ◌>>=◌}
use code_explorer.Agents.Store.{Run, Job, Value, Db, Env, update_rows, now, commit, append_event}
use code_explorer.Agents.Records.{is_stale_run, expired, released, belongs, holds}
use code_explorer.Agents.RunStore.{
  add_event, report_recovered, recover_stale, finish_job, heartbeat,
}
use code_explorer.Agents.RunStore.Rows.{All-update_rows, All-trivial, update_rows-none}

module _ {J : Type 0} (env : Env) where
  abbrev pub Tables : List Run → List Job → Db J → Type 0
  Tables rs js db = (db.runs ≡ rs) × (db.jobs ≡ js)

  pub Tables-add_event :
      (rs : List Run) (js : List Job) (r e : String) (payload : List (String × Value J))
      → Preserves (Tables rs js) (add_event env r e payload)
  unfolding add_event append_event ◌>>=◌ now
  Tables-add_event rs js r e payload = record {
    at = λ db h. elim (Bool-cases (env.commits (suc db.tick))) [ inl c ↦ rw c h | inr c ↦ rw c h ];
  }

  Tables-report_recovered :
      (rs : List Run) (js : List Job) (rows : List Run)
      → Preserves (Tables rs js) (report_recovered env rows)
  unfolding report_recovered
  Tables-report_recovered rs js [] = record { at = λ db h. h }
  Tables-report_recovered rs js (r ∷ rows) =
      Preserves-bind (Tables rs js) _ _ (Tables-add_event rs js r.id _ _)
        (λ _. Tables-report_recovered rs js rows)

  abbrev stale_runs : ℕ → Db J → List Run
  stale_runs n db = select (is_stale_run n db.jobs) db.runs

  -- The tables that a recovery writes; the events that follow touch neither.
  Tables-recover_stale :
      (n : ℕ) (db : Db J)
      → env.commits (suc db.tick) ≡ true
      → Tables
          (update_rows (is_stale_run n db.jobs) (expired (env.time db.tick)) db.runs)
          (update_rows (belongs (stale_runs n db)) (released (env.time db.tick)) db.jobs)
          (recover_stale env n db).1
  unfolding recover_stale now commit ◌>>=◌
  Tables-recover_stale n db c =
      let rs : List Run =
        update_rows (is_stale_run n db.jobs) (expired (env.time db.tick)) db.runs in
      let js : List Job =
        update_rows (belongs (stale_runs n db)) (released (env.time db.tick)) db.jobs in
      rw c (
        (Preserves-bind (Tables rs js) (report_recovered env (stale_runs n db)) _
            (Tables-report_recovered rs js (stale_runs n db)) (λ _. record { at = λ d h. h })).at
          _ (refl, refl))

-- The jobs of the recovered runs are held by nobody.
freed :
    (n t : ℕ) (i w : String) (rows : List Run) (jobs : List Job)
    → elem i (map (λ (r : Run). r.id) rows) ≡ true
    → All (λ j. holds i w j ≡ false) (update_rows (belongs rows) (released t) jobs)
freed n t i w rows jobs m =
    All-update_rows (λ _. Unit {0}) _ (belongs rows) (released t) jobs
      (λ j _. elim (Bool-cases (j.run_id == i)) [
        | inl e ↦
            rw
              (
                subst (λ k. elem k (map (λ (r : Run). r.id) rows) ≡ true)
                    (sym ((eq_iff j.run_id i).0 e)) m,
                e,
              )
              refl
        | inr e ↦ elim (Bool-cases (belongs rows j)) [
          | inl b ↦ rw (b, e) refl
          | inr b ↦ rw (b, e) refl
        ]
      ])
      (All-trivial _ jobs (λ _. tt))

pub listed :
    (p : Run → Bool) (r : Run) (rows : List Run)
    → In r rows
    → p r ≡ true
    → elem r.id (map (λ (r : Run). r.id) (select p rows)) ≡ true
listed p r (u ∷ rows) (inl e) h = rw (subst (λ x. p x ≡ true) e h, sym e, eq_refl r.id) refl
listed p r (u ∷ rows) (inr m) h = ground (arith, listed p r rows m h)
listed p r [] m h = absurd m

module _ {J : Type 0} (env : Env) where
  unheld_change :
      (i w : String) (f : Job → Job) (db : Db J)
      → All (λ j. holds i w j ≡ false) db.jobs
      → (commit env (λ rs. rs) (update_rows (holds i w) f) db).1.jobs ≡ db.jobs
  unfolding commit
  unheld_change i w f db h = elim (Bool-cases (env.commits db.tick)) [
    | inl e ↦ rw e (update_rows-none (holds i w) f db.jobs h)
    | inr e ↦ rw e refl
  ]

  unheld_calls :
      (i w : String) (db : Db J)
      → All (λ j. holds i w j ≡ false) db.jobs
      → ((heartbeat env i w db).1.jobs ≡ db.jobs) × ((finish_job env i w db).1.jobs ≡ db.jobs)
  unfolding heartbeat finish_job ◌>>=◌ now
  unheld_calls i w db h = (unheld_change i w _ _ h, unheld_change i w _ _ h)

  -- Once a recovery has taken a run back, no worker's heartbeat renews the lease and no worker's
  -- release touches the job: the worker that held it has lost it.
  pub lease_lost :
      (n : ℕ) (w : String) (r : Run) (db : Db J)
      → env.commits (suc db.tick) ≡ true
      → In r db.runs
      → is_stale_run n db.jobs r ≡ true
      → ((heartbeat env r.id w (recover_stale env n db).1).1.jobs ≡ (recover_stale env n db).1.jobs)
        × ((finish_job env r.id w (recover_stale env n db).1).1.jobs
            ≡ (recover_stale env n db).1.jobs)
  lease_lost n w r db c m stale =
      let (_, jobs) = Tables-recover_stale env n db c in
      let free =
        freed n (env.time db.tick) r.id w (stale_runs env n db) db.jobs
          (listed (is_stale_run n db.jobs) r db.runs m stale) in
      unheld_calls r.id w (recover_stale env n db).1
        (subst (λ js. All (λ j. holds r.id w j ≡ false) js) (sym jobs) free)
