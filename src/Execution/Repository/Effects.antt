-- ===== src/Execution/Repository/Effects.antt =====
-- What each method of repository.py leaves in the table of tasks, whatever commits fail.
use code_explorer.Base.{
  ℕ, suc, String, Bool, true, false, not, ◌&&◌, Option, none, some, List, [], ◌∷◌, ◌++◌, ◌==◌, ◌≡◌,
  refl, arith, ◌∙◌, select, if◌then◌else◌, Bool-cases, inl, inr,
}
use code_explorer.Base.Int.{ℤ}
use code_explorer.Execution.Result.{outcome_cases}
use code_explorer.Execution.Exec.{Action, resume, ◌>>=◌}
use code_explorer.Execution.Contracts.{Floats, Status, is_terminal, Plan, is_some}
use code_explorer.Execution.Store.{
  known, Task, Payload, recovered, Env, update_where, first, now, commit, append_event,
}
use code_explorer.Execution.Repository.{
  State, is_queued, is_active, is_stale, claimed_by, expired_at, finished_as, cancel_row, Cancel,
  now_cancelled, queued_row, add_event, create, claim_candidate, claim_result, cancel_with,
  cancel_time, notify, heartbeat, recover_stale, report_recovered, finish, holds, lease_expired,
}

-- The tick at which `request_cancel` reads `updated_at`.
abbrev pub cancel_tick : Cancel → ℕ → ℕ
cancel_tick now_cancelled n = suc n
cancel_tick _ n = n

module _ (fl : Floats) (env : Env) where
  -- What follows a step and leaves the table alone leaves the table of that step.
  tasks-bind :
      {A B : Type 0} (m : Action (State fl env) A) (f : A → Action (State fl env) B)
      (s : State fl env)
      → ((a : A) (s' : State fl env) → (f a s').1.tasks ≡ s'.tasks)
      → ((m >>= f) s).1.tasks ≡ (m s).1.tasks
  unfolding ◌>>=◌
  tasks-bind m f s keep = elim (outcome_cases (m s).0) [
    | inl (a, e) ↦ rw (e, resume) (keep a (m s).1)
    | inr (x, e) ↦ rw (e, resume)
  ]

  pub tasks-add_event :
      (i e : String) (p : Payload fl.Float) (s : State fl env)
      → (add_event fl env i e p s).1.tasks ≡ s.tasks
  unfolding add_event now append_event ◌>>=◌
  tasks-add_event i e p s = ground arith

  tasks-claim_result :
      (w : String) (b : Bool) (o : Option Task) (s : State fl env)
      → (claim_result fl env w b o s).1.tasks ≡ s.tasks
  unfolding claim_result add_event now append_event ◌>>=◌
  tasks-claim_result w false o s = refl
  tasks-claim_result w true none s = refl
  tasks-claim_result w true (some r) s = ground arith

  pub tasks-claim_candidate :
      (w c : String) (s : State fl env)
      → (claim_candidate fl env w c s).1.tasks ≡ (
          if env.commits (suc s.tick)
          then update_where
              (λ r. r.id == c && is_queued r.status)
              (claimed_by w (env.time s.tick))
              s.tasks
          else s.tasks)
  unfolding claim_candidate now commit ◌>>=◌
  tasks-claim_candidate w c s = elim (Bool-cases (env.commits (suc s.tick))) [
    | inl e ↦ rw e (tasks-claim_result w _ _ _)
    | inr e ↦ rw e
  ]

  pub tasks-create :
      (i p u : String) (plan : Plan fl.Float) (s : State fl env)
      → (create fl env i p u plan s).1.tasks ≡ (
          if not (is_some (first (λ t. t.id == i) s.tasks)) && env.commits (suc (suc s.tick))
          then s.tasks
            ++ queued_row fl env i p u plan (env.time s.tick) (env.time (suc s.tick)) ∷ []
          else s.tasks)
  unfolding create queued_row now commit add_event append_event ◌>>=◌
  tasks-create i p u plan s = ground arith

  abbrev pub cancel_finished : Cancel → State fl env → ℕ
  cancel_finished now_cancelled s = env.time s.tick
  cancel_finished _ s = 0

  pub tasks-cancel_with :
      (k : Cancel) (row : Task) (s : State fl env)
      → (cancel_with fl env k row s).1.tasks ≡ (
          if env.commits (suc (cancel_tick k s.tick))
          then update_where
              (λ t. t.id == row.id)
              (cancel_row k (cancel_finished k s) (env.time (cancel_tick k s.tick)))
              s.tasks
          else s.tasks)
  unfolding cancel_with cancel_time notify add_event append_event now commit ◌>>=◌
  tasks-cancel_with now_cancelled row s = ground arith
  tasks-cancel_with _ row s = ground arith

  pub tasks-heartbeat :
      (i w : String) (s : State fl env)
      → (heartbeat fl env i w s).1.tasks ≡ (
          if env.commits (suc s.tick)
          then update_where
              (λ r. r.id == i && holds r.worker_id w && is_active r.status)
              (λ r. record r { updated_at = env.time s.tick })
              s.tasks
          else s.tasks)
  unfolding heartbeat now commit ◌>>=◌
  tasks-heartbeat i w s = ground arith

  tasks-report_recovered :
      (rows : List Task) (s : State fl env) → (report_recovered fl env rows s).1.tasks ≡ s.tasks
  unfolding report_recovered
  tasks-report_recovered [] s = refl
  tasks-report_recovered (r ∷ rows) s =
      tasks-bind (add_event fl env r.id "task.failed" (recovered lease_expired)) _ s
        (λ _. tasks-report_recovered rows)
      ∙ tasks-add_event r.id "task.failed" (recovered lease_expired) s

  pub tasks-recover_stale :
      (n : ℕ) (s : State fl env)
      → (recover_stale fl env n s).1.tasks ≡ (
          if env.commits (suc s.tick)
          then update_where (is_stale n) (expired_at (env.time s.tick)) s.tasks
          else s.tasks)
  unfolding recover_stale now commit ◌>>=◌
  tasks-recover_stale n s = elim (Bool-cases (env.commits (suc s.tick))) [
    | inl e ↦ rw e (
        tasks-bind (report_recovered fl env (select (is_stale n) s.tasks)) _ _ (λ _ _. refl)
        ∙ tasks-report_recovered (select (is_stale n) s.tasks) _)
    | inr e ↦ rw e
  ]

  pub tasks-finish :
      (i : String) (st : Status) (x : Option ℤ) (e : Option String) (b : Bool) (s : State fl env)
      → (finish fl env i (known st) x e b s).1.tasks ≡ (
          if is_terminal st && env.commits (suc s.tick)
          then update_where
              (λ r. r.id == i && is_active r.status)
              (finished_as st x e b (env.time s.tick))
              s.tasks
          else s.tasks)
  unfolding finish now commit add_event append_event ◌>>=◌
  tasks-finish i st x e b s = ground arith
