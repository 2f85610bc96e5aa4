-- ===== src/Agents/RunStore/Claims.antt =====
-- `claim_next` of run_store.py, with any calls of the other methods around it.
use code_explorer.Base.{
  ℕ, String, Bool, true, false, Option, some, List, ◌==◌, ◌≡◌, ◌≢◌, inl, inr, All, Bool-cases,
}
use code_explorer.Execution.Result.{returned}
use code_explorer.Execution.Exec.{◌>>=◌}
use code_explorer.Agents.Store.{Run, Job, Db, Env, update_rows, first_row, now, commit}
use code_explorer.Agents.Records.{AgentClaim, is_queued_run, taken, leased, claim_rows}
use code_explorer.Agents.RunStore.{claim_if, claim_candidate}
use code_explorer.Agents.RunStore.Rows.{select-none}
use code_explorer.Agents.RunStore.Left.{HasLeft, none_waits, claim_rows-some}
use code_explorer.Agents.RunStore.Calls.{Call, IsOrdinary, run_calls, HasLeft-run_calls}

module _ {J : Type 0} (env : Env) where
  module _ (i : String) where
    HasLeft-claim_if :
        (w : String) (t : ℕ) (b : Bool) (db : Db J) (v : AgentClaim)
        → (claim_if env w i t b db).0 ≡ returned (some v)
        → HasLeft i (claim_if env w i t b db).1.runs
    unfolding claim_if commit ◌>>=◌
    HasLeft-claim_if w t false db v h = cc
    HasLeft-claim_if w t true db v h = elim (Bool-cases (env.commits db.tick)) [
      | inl e ↦
          let rows : List Run = update_rows (is_queued_run i) (taken t) db.runs in
          let jobs : List Job = update_rows (λ j. j.run_id == i) (leased w t) db.jobs in
          let row : Option Run = first_row (λ r. r.id == i) rows in
          let job : Option Job = first_row (λ j. j.run_id == i) jobs in
          let view : claim_rows row job ≡ some v = cc (rw e at h) in
          rw e (claim_rows-some row job v view, none_waits i t db.runs)
      | inr e ↦ cc (rw e at h)
    ]

    HasLeft-claim_candidate :
        (w : String) (db : Db J) (v : AgentClaim)
        → (claim_candidate env w i db).0 ≡ returned (some v)
        → HasLeft i (claim_candidate env w i db).1.runs
    unfolding claim_candidate ◌>>=◌ now
    HasLeft-claim_candidate w db v h = HasLeft-claim_if w _ _ _ v h

    pub claim_candidate-none :
        (w : String) (db : Db J) (v : AgentClaim)
        → HasLeft i db.runs
        → (claim_candidate env w i db).0 ≢ returned (some v)
    unfolding claim_candidate claim_if now ◌>>=◌
    claim_candidate-none w db v (m, h) e = cc (rw (select-none (is_queued_run i) db.runs h) at e)

  -- Once a worker has been given a run, no claim of that run succeeds, whatever the workers, the
  -- users and the recovery of stale leases call in between, as long as `update` sets no run back to
  -- queued, and even where the SELECT of the later claim read the table before the first one.
  pub run_claimed_once :
      (w w' i : String) (db : Db J) (v v' : AgentClaim) (cs : List (Call J))
      → All IsOrdinary cs
      → (claim_candidate env w i db).0 ≡ returned (some v)
      → (claim_candidate env w' i (run_calls env cs (claim_candidate env w i db).1)).0
        ≢ returned (some v')
  run_claimed_once w w' i db v v' cs o h =
      claim_candidate-none i w' _ v'
        (HasLeft-run_calls env i cs _ o (HasLeft-claim_candidate i w db v h))
