-- ===== src/Agents/RunStore/Missing.antt =====
-- `ensure_jobs` of run_store.py: the active runs that have no job.
use code_explorer.Base.{
  ℕ, suc, ◌+◌, length-append, String, Bool, true, false, not, ◌&&◌, ◌||◌, List, [], ◌∷◌, ◌++◌, ◌==◌,
  ◌≡◌, refl, arith, ap, ◌∙◌, inl, inr, All, All-map, map, select, length, elem, eq_iff, Bool-cases,
}
use code_explorer.Execution.Result.{returned}
use code_explorer.Execution.Exec.{◌>>=◌}
use code_explorer.Agents.Store.{Run, Job, Db, Env, now, commit}
use code_explorer.Agents.Records.{lacks_job, has_job, default_jobs, new_job, is_active}
use code_explorer.Agents.RunStore.{ensure_jobs}
use code_explorer.Agents.RunStore.Rows.{All-trivial, select-none, first_row-append}
use code_explorer.Agents.RunStore.Leases.{listed}

default_jobs-has_job :
    (t : ℕ) (i : String) (rows : List Run)
    → elem i (map (λ (r : Run). r.id) rows) ≡ true
    → has_job (default_jobs t rows) i ≡ true
unfolding new_job
default_jobs-has_job t i [] h = cc
default_jobs-has_job t i (r ∷ rows) h = elim (Bool-cases (r.id == i)) [
  | inl e ↦ rw e refl
  | inr e ↦
      rw e (default_jobs-has_job t i rows (ground (arith, h, e, eq_iff i r.id, eq_iff r.id i)))
]

no_lack : (a b : Bool) → (a && not (b || true)) ≡ false
no_lack a b = ground arith

still_no_lack : (a b c : Bool) → (a && not b) ≡ false → (a && not (b || c)) ≡ false
still_no_lack a b c h = ground arith

length-default_jobs : (t : ℕ) (rows : List Run) → length (default_jobs t rows) ≡ length rows
length-default_jobs t [] = refl
length-default_jobs t (r ∷ rows) = ap suc (length-default_jobs t rows)

covered :
    (t : ℕ) (jobs : List Job) (runs : List Run)
    → All (λ r. lacks_job (jobs ++ default_jobs t (select (lacks_job jobs) runs)) r ≡ false) runs
covered t jobs runs =
    All-map (λ _. Unit {0}) _ runs
      (λ r m _. elim (Bool-cases (lacks_job jobs r)) [
        | inl e ↦
            rw
              (
                first_row-append (λ j. j.run_id == r.id) jobs
                    (default_jobs t (select (lacks_job jobs) runs)),
                default_jobs-has_job t r.id _ (listed (lacks_job jobs) r runs m e),
              )
              (no_lack (is_active r.status) (has_job jobs r.id))
        | inr e ↦
            rw
              (first_row-append (λ j. j.run_id == r.id) jobs
                (default_jobs t (select (lacks_job jobs) runs)))
              (still_no_lack (is_active r.status) (has_job jobs r.id) _ e)
      ])
      (All-trivial _ runs (λ _. tt))

module _ {J : Type 0} (env : Env) where
  -- `ensure_jobs` that returns has given a job to every active run: none is without one behind it,
  -- the runs are as they were, and it returns how many jobs it has made.
  pub ensure_jobs_covers :
      (db : Db J) (n : ℕ)
      → (ensure_jobs env db).0 ≡ returned n
      → (select (lacks_job (ensure_jobs env db).1.jobs) (ensure_jobs env db).1.runs ≡ [])
        × ((ensure_jobs env db).1.runs ≡ db.runs)
        × (length (ensure_jobs env db).1.jobs ≡ length db.jobs + n)
  unfolding ensure_jobs ◌>>=◌ now commit
  ensure_jobs_covers db n h = elim (Bool-cases (env.commits (suc db.tick))) [
    | inl e ↦ rw e (
      select-none _ db.runs (covered (env.time db.tick) db.jobs db.runs),
      refl,
      length-append db.jobs _
          ∙ ap (λ k. length db.jobs + k) (length-default_jobs _ _ ∙ cc (rw e at h)),
    )
    | inr e ↦ cc (rw e at h)
  ]
