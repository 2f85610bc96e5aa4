-- ===== src/Execution/Worker/Ends.antt =====
-- `run_once` of worker.py brings every task that it claims to an end.
use code_explorer.Base.{
  ℕ, String, Bool, true, false, Option, none, some, ◌==◌, ◌≡◌, refl, Bool-cases, inl, inr,
}
use code_explorer.Base.Int.{ℤ}
use code_explorer.Execution.Result.{Error, execution_error, returned, outcome_cases}
use code_explorer.Execution.Exec.{
  Action, handled, attempt, ◌>>=◌, resume, Preserves, Preserves-bind, Preserves-still,
  returned_of_bind,
}
use code_explorer.Execution.Contracts.{Floats, Plan, TaskView, failed}
use code_explorer.Execution.Policy.{Settings}
use code_explorer.Execution.Store.{Db, Env, known, StatusText, Payload, text}
use code_explorer.Execution.Repository as Repo
use code_explorer.Execution.Repository.{State}
use code_explorer.Execution.Repository.Life.{IsWellFormed}
use code_explorer.Execution.Repository.Rows.{Advances}
use code_explorer.Execution.Repository.Calls.{
  claim, beat, finish_task, log_event, run_call, run_call-Advances,
}
use code_explorer.Execution.Repository.Claim.{Started, Started-Evolves, Started-claim_next}
use code_explorer.Execution.Repository.Ends.{Ended, Ended-finish, finish-lives}
use code_explorer.Execution.Worker.{
  Run, done, raises, on_heartbeat, on_output, ask_cancelled, validate_workspace, append_output,
  follow, body, on_error, run_claimed, run_once,
}

-- An action after which, if it returns, the task has ended.
record Finishes {F : Type 0} (P : Db F → Type 0) (i : String) (m : Action (Db F) Unit)
    : Type 0 where
  at : (s : Db F) → P s → (m s).0 ≡ returned tt → Ended i (m s).1.tasks

Finishes-bind :
    {F : Type 0} {A : Type 0} (P : Db F → Type 0) (i : String) (m : Action (Db F) A)
    (f : A → Action (Db F) Unit)
    → Preserves P m
    → ((a : A) → Finishes P i (f a))
    → Finishes P i (m >>= f)
Finishes-bind P i m f km kf = record {
  at = λ s h e.
      let (a, _, same) = returned_of_bind m f s tt e in
      rw same ((kf a).at (m s).1 (km.at s h) (rw same at e));
}

module _ (fl : Floats) (env : Env) (settings : Settings fl.Float)
    (workspace_is_sound : String → String → Bool) (execute : String → Plan fl.Float → Run) where
  record Working (i : String) (s : State fl env) : Type 0 where
    formed : IsWellFormed s.tasks
    started : Started i s.tasks

  advance :
      (i : String) (s s' : State fl env) → Advances s.tasks s'.tasks → Working i s → Working i s'
  advance i s s' a w = record {
    formed = a.formed;
    started = Started-Evolves i s.tasks s'.tasks a.history w.started;
  }

  Preserves-heartbeat : (i j w : String) → Preserves (Working i) (Repo.heartbeat fl env j w)
  unfolding run_call
  Preserves-heartbeat i j w = record {
    at = λ s k.
        advance i s (Repo.heartbeat fl env j w s).1 (run_call-Advances fl env (beat j w) s k.formed)
          k;
  }

  Preserves-add_event :
      (i j e : String) (p : Payload fl.Float) → Preserves (Working i) (Repo.add_event fl env j e p)
  unfolding run_call
  Preserves-add_event i j e p = record {
    at = λ s k.
        advance i s (Repo.add_event fl env j e p s).1
          (run_call-Advances fl env (log_event j e p) s k.formed) k;
  }

  Preserves-finish :
      (i j : String) (st : StatusText) (x : Option ℤ) (e : Option String) (b : Bool)
      → Preserves (Working i) (Repo.finish fl env j st x e b)
  unfolding run_call
  Preserves-finish i j st x e b = record {
    at = λ s k.
        advance i s (Repo.finish fl env j st x e b s).1
          (run_call-Advances fl env (finish_task j st x e b) s k.formed) k;
  }

  Preserves-append_output :
      (i j c : String)
      → Preserves (Working i) (append_output fl env settings workspace_is_sound execute j c)
  unfolding append_output
  Preserves-append_output i j c = elim (Bool-cases (c == "")) [
    | inl e ↦ rw e (Preserves-still (Working i) _ (λ _. refl))
    | inr e ↦ rw e (
        Preserves-bind (Working i) _ _ (Preserves-add_event i j "task.output" (text c))
          (λ _. Preserves-still (Working i) _ (λ _. refl)))
  ]

  Preserves-follow :
      (i w j : String) (r : Run)
      → Preserves (Working i) (follow fl env settings workspace_is_sound execute w j r)
  unfolding follow Repo.is_cancel_requested
  Preserves-follow i w j (done result) = Preserves-still (Working i) _ (λ _. refl)
  Preserves-follow i w j (raises e) = Preserves-still (Working i) _ (λ _. refl)
  Preserves-follow i w j (on_heartbeat rest) =
      Preserves-bind (Working i) _ _ (Preserves-heartbeat i j w) (λ _. Preserves-follow i w j rest)
  Preserves-follow i w j (on_output c rest) =
      Preserves-bind (Working i) _ _ (Preserves-append_output i j c)
        (λ _. Preserves-follow i w j rest)
  Preserves-follow i w j (ask_cancelled next) =
      Preserves-bind (Working i) _ _ (Preserves-still (Working i) _ (λ _. refl))
        (λ c. Preserves-follow i w j (next c))

  Preserves-workspace :
      (i : String) (b : Bool)
      → Preserves (Working i) (validate_workspace fl env settings workspace_is_sound execute b)
  unfolding validate_workspace
  Preserves-workspace i true = Preserves-still (Working i) _ (λ _. refl)
  Preserves-workspace i false = Preserves-still (Working i) _ (λ _. refl)

  Preserves-body :
      (i w : String) (t : TaskView fl.Float)
      → Preserves (Working i) (body fl env settings workspace_is_sound execute w t)
  unfolding body
  Preserves-body i w t =
      Preserves-bind (Working i) _ _ (Preserves-still (Working i) _ (λ _. refl)) (λ _.
        Preserves-bind (Working i) _ _ (Preserves-workspace i _) (λ _.
          Preserves-bind (Working i) _ _ (Preserves-follow i w _ _)
            (λ r. Preserves-finish i _ _ _ _ _)))

  Finishes-finish :
      (i : String) (st : StatusText) (x : Option ℤ) (e : Option String) (b : Bool)
      → Finishes (Working i) i (Repo.finish fl env i st x e b)
  Finishes-finish i st x e b = record { at = λ s k h. Ended-finish fl env i st x e b s h k.started }

  -- A `try` block that returns has finished its task.
  Finishes-body :
      (w : String) (t : TaskView fl.Float)
      → Finishes (Working t.id) t.id (body fl env settings workspace_is_sound execute w t)
  unfolding body
  Finishes-body w t =
      Finishes-bind (Working t.id) t.id _ _ (Preserves-still (Working t.id) _ (λ _. refl)) (λ _.
        Finishes-bind (Working t.id) t.id _ _ (Preserves-workspace t.id _) (λ _.
          Finishes-bind (Working t.id) t.id _ _ (Preserves-follow t.id w _ _)
            (λ r. Finishes-finish t.id _ _ _ _)))

  on_error_ends :
      (i : String) (e : Error) (s : State fl env)
      → ((n : ℕ) → env.commits n ≡ true)
      → Working i s
      → ((on_error fl env settings workspace_is_sound execute i e s).0 ≡ returned tt)
        × Ended i (on_error fl env settings workspace_is_sound execute i e s).1.tasks
  unfolding on_error
  on_error_ends i (execution_error m c) s live k =
      let done_well = finish-lives fl env i failed none (some m) false s refl live in
      (done_well, Ended-finish fl env i (known failed) none (some m) false s done_well k.started)
  on_error_ends i _ s live k =
      let note : Option String = some "Execution worker failed before the container completed." in
      let done_well = finish-lives fl env i failed none note false s refl live in
      (done_well, Ended-finish fl env i (known failed) none note false s done_well k.started)

  claimed_ends :
      (w : String) (t : TaskView fl.Float) (s : State fl env)
      → ((n : ℕ) → env.commits n ≡ true)
      → Working t.id s
      → ((run_claimed fl env settings workspace_is_sound execute w (some t) s).0 ≡ returned true)
        × Ended t.id (run_claimed fl env settings workspace_is_sound execute w (some t) s).1.tasks
  unfolding run_claimed attempt ◌>>=◌
  claimed_ends w t s live k = elim (outcome_cases (m s).0) [
    | inl (u, e) ↦ rw (e, handled) (refl, (Finishes-body w t).at s k e)
    | inr (x, e) ↦
        let (good, ended) = on_error_ends t.id x (m s).1 live ((Preserves-body t.id w t).at s k) in
        rw (e, handled) (rw good (refl, ended))
  ]
    where
      m : Action (State fl env) Unit
      m = body fl env settings workspace_is_sound execute w t

  -- As long as commits go through, a task that `run_once` claims has ended when it returns, and it
  -- returns `True`: whatever the policy says of the plan, whatever the workspace is, and whatever
  -- the container run does, a raise or a status that is no terminal one included.
  pub run_once_ends :
      (w : String) (s : State fl env) (t : TaskView fl.Float)
      → IsWellFormed s.tasks
      → ((n : ℕ) → env.commits n ≡ true)
      → (Repo.claim_next fl env w s).0 ≡ returned (some t)
      → ((run_once fl env settings workspace_is_sound execute w s).0 ≡ returned true)
        × Ended t.id (run_once fl env settings workspace_is_sound execute w s).1.tasks
  unfolding run_once run_call ◌>>=◌
  run_once_ends w s t wf live h =
      let a : Advances s.tasks (Repo.claim_next fl env w s).1.tasks =
        run_call-Advances fl env (claim w) s wf in
      rw (h, resume)
        (claimed_ends w t (Repo.claim_next fl env w s).1 live
          (record { formed = a.formed; started = Started-claim_next fl env w s t h }))
