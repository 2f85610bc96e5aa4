-- ===== src/Execution/Repository/Calls.antt =====
-- Any sequence of calls of the methods of repository.py that write, by any workers and users, with
-- any commits failing.
use code_explorer.Base.{
  ℕ, suc, String, Bool, true, false, Option, none, some, List, [], ◌∷◌, ◌++◌, ◌==◌, ◌≡◌, refl,
  arith, sym, subst, eq_iff, All, In, All-of, All-map, All-In, if◌then◌else◌, Bool-cases, inl, inr,
}
use code_explorer.Base.Int.{ℤ}
use code_explorer.Execution.Contracts.{Floats, Plan, failed, is_terminal, is_some}
use code_explorer.Execution.Exec.{◌>>=◌}
use code_explorer.Execution.Store.{
  StatusText, known, other, Task, Payload, update_where, first, Env,
}
use code_explorer.Execution.Repository.{
  State, expired_at, finished_as, cancel_kind, cancel_row, queued_row, add_event, create,
  claim_candidate, claim_found, claim_next, request_cancel, cancel_found, heartbeat, recover_stale,
  finish,
}
use code_explorer.Execution.Repository.Life.{
  Evolves-refl, Evolves-trans, Evolves-append, IsSound, UniqueIds, IsWellFormed,
}
use code_explorer.Execution.Repository.Rows.{
  MayBecome, Advances, Fits, Advances-update_where, MayBecome-claimed_by, MayBecome-ended,
  MayBecome-touched, MayBecome-cancel_row,
}
use code_explorer.Execution.Repository.Effects.{
  tasks-claim_candidate, tasks-create, tasks-cancel_with, tasks-heartbeat, tasks-recover_stale,
  tasks-finish, tasks-add_event, cancel_finished, cancel_tick,
}

pub data Call (F : Type 0) : Type 0 where
  create_task : String → String → String → Plan F → Call F
  claim : String → Call F
  -- a `claim_next` whose SELECT read an older state
  claim_stale : String → String → Call F
  cancel : String → String → Call F
  beat : String → String → Call F
  recover : ℕ → Call F
  finish_task : String → StatusText → Option ℤ → Option String → Bool → Call F
  log_event : String → String → Payload F → Call F

Advances-refl : (ts : List Task) → IsWellFormed ts → Advances ts ts
Advances-refl ts w = record { history = Evolves-refl ts; formed = w }

pub first-In : (p : Task → Bool) (ts : List Task) (r : Task) → first p ts ≡ some r → In r ts
first-In p [] r h = cc
first-In p (t ∷ ts) r h = ground (arith, first-In p ts r)

pub only_row :
    (ts : List Task) (row : Task)
    → UniqueIds ts
    → In row ts
    → All (λ t. (t.id == row.id) ≡ true → t ≡ row) ts
only_row (t ∷ ts) row (u, us) (inl e) = (
  λ _. sym e,
  All-map _ _ ts
      (λ a _ ne q.
        absurd (ne (subst (λ (r : Task). r.id ≡ a.id) e (sym ((eq_iff a.id row.id).0 q)))))
      u,
)
only_row (t ∷ ts) row (u, us) (inr m) =
    (λ q. absurd (All-In _ ts row u m ((eq_iff t.id row.id).0 q)), only_row ts row us m)
only_row [] row u m = absurd m

All-append-one :
    (P : Task → Type 0) (ts : List Task) (r : Task) → All P ts → P r → All P (ts ++ r ∷ [])
All-append-one P [] r h p = (p, tt)
All-append-one P (t ∷ ts) r (h, hs) p = (h, All-append-one P ts r hs p)

fresh-UniqueIds :
    (r : Task) (ts : List Task)
    → is_some (first (λ t. t.id == r.id) ts) ≡ false
    → UniqueIds ts
    → UniqueIds (ts ++ r ∷ [])
fresh-UniqueIds r [] n u = (tt, tt)
fresh-UniqueIds r (t ∷ ts) n (u, us) = (
  All-append-one _ ts r u (λ e. ground (arith, eq_iff t.id r.id)),
  fresh-UniqueIds r ts (ground arith) us,
)

module _ (fl : Floats) (env : Env) where
  unfoldable pub run_call : Call fl.Float → State fl env → State fl env
  run_call (create_task i p u plan) s = (create fl env i p u plan s).1
  run_call (claim w) s = (claim_next fl env w s).1
  run_call (claim_stale w i) s = (claim_candidate fl env w i s).1
  run_call (cancel i u) s = (request_cancel fl env i u s).1
  run_call (beat i w) s = (heartbeat fl env i w s).1
  run_call (recover n) s = (recover_stale fl env n s).1
  run_call (finish_task i st x e b) s = (finish fl env i st x e b s).1
  run_call (log_event i e p) s = (add_event fl env i e p s).1

  unfoldable pub run_calls : List (Call fl.Float) → State fl env → State fl env
  run_calls [] s = s
  run_calls (c ∷ cs) s = run_calls cs (run_call c s)

  -- A transaction that fails leaves the table, one that commits advances it.
  commit-Advances :
      (b : Bool) (p : Task → Bool) (f : Task → Task) (ts : List Task)
      → All (Fits p f) ts
      → IsWellFormed ts
      → Advances ts (if b then update_where p f ts else ts)
  commit-Advances true p f ts h w = Advances-update_where p f ts h w
  commit-Advances false p f ts h w = Advances-refl ts w

  pub claim_candidate-Advances :
      (w i : String) (s : State fl env)
      → IsWellFormed s.tasks
      → Advances s.tasks (claim_candidate fl env w i s).1.tasks
  claim_candidate-Advances w i s h = rw (tasks-claim_candidate fl env w i s) (
      commit-Advances (env.commits (suc s.tick)) _ _ s.tasks
        (All-of _ (λ t e. MayBecome-claimed_by w (env.time s.tick) t (ground arith)) s.tasks) h)

  claim_found-Advances :
      (w : String) (o : Option Task) (s : State fl env)
      → IsWellFormed s.tasks
      → Advances s.tasks (claim_found fl env w o s).1.tasks
  unfolding claim_found
  claim_found-Advances w none s h = Advances-refl s.tasks h
  claim_found-Advances w (some c) s h = claim_candidate-Advances w c.id s h

  cancel_found-Advances :
      (o : Option Task) (s : State fl env)
      → ((r : Task) → o ≡ some r → In r s.tasks)
      → IsWellFormed s.tasks
      → Advances s.tasks (cancel_found fl env o s).1.tasks
  unfolding cancel_found
  cancel_found-Advances none s m h = Advances-refl s.tasks h
  cancel_found-Advances (some row) s m h =
      let k = cancel_kind row.status in
      let finished = cancel_finished fl env k s in
      let updated = env.time (cancel_tick k s.tick) in
      rw (tasks-cancel_with fl env k row s) (
        commit-Advances _ _ _ s.tasks
          (All-map _ _ s.tasks
            (λ t _ same e.
              subst (λ r. MayBecome r (cancel_row k finished updated r)) (sym (same e))
                (MayBecome-cancel_row row finished updated))
            (only_row s.tasks row h.unique (m row refl)))
          h)

  finish-Advances :
      (i : String) (st : StatusText) (x : Option ℤ) (e : Option String) (b : Bool)
      (s : State fl env)
      → IsWellFormed s.tasks
      → Advances s.tasks (finish fl env i st x e b s).1.tasks
  finish-Advances i (other _) x e b s h = unfold finish in Advances-refl s.tasks h
  finish-Advances i (known st) x e b s h = elim (Bool-cases (is_terminal st)) [
    | inl t ↦ rw (tasks-finish fl env i st x e b s) (
        rw t (
          commit-Advances _ _ _ s.tasks
            (All-of _
              (λ r a.
                MayBecome-ended r (finished_as st x e b (env.time s.tick) r) st (ground arith) t
                  refl refl refl refl refl)
              s.tasks)
            h))
    | inr n ↦ rw (tasks-finish fl env i st x e b s) (rw n (Advances-refl s.tasks h))
  ]

  append-Advances :
      (b : Bool) (row : Task) (ts : List Task)
      → IsWellFormed ts
      → is_some (first (λ t. t.id == row.id) ts) ≡ false
      → IsSound row
      → Advances ts (if b then ts ++ row ∷ [] else ts)
  append-Advances false row ts w n k = Advances-refl ts w
  append-Advances true row ts w n k = record {
    history = Evolves-append ts (row ∷ []);
    formed = record {
      unique = fresh-UniqueIds row ts n w.unique;
      sound = All-append-one IsSound ts row w.sound k;
    };
  }

  create-Advances :
      (i p u : String) (plan : Plan fl.Float) (s : State fl env)
      → IsWellFormed s.tasks
      → Advances s.tasks (create fl env i p u plan s).1.tasks
  unfolding queued_row
  create-Advances i p u plan s h =
      let row = queued_row fl env i p u plan (env.time s.tick) (env.time (suc s.tick)) in
      rw (tasks-create fl env i p u plan s)
        (elim (Bool-cases (is_some (first (λ t. t.id == i) s.tasks))) [
          | inl old ↦ rw old (Advances-refl s.tasks h)
          | inr new ↦ rw new (
              append-Advances (env.commits (suc (suc s.tick))) row s.tasks h new
                (refl, refl, refl, refl))
        ])

  pub run_call-Advances :
      (c : Call fl.Float) (s : State fl env)
      → IsWellFormed s.tasks
      → Advances s.tasks (run_call c s).tasks
  unfolding run_call claim_next request_cancel ◌>>=◌
  run_call-Advances (create_task i p u plan) s h = create-Advances i p u plan s h
  run_call-Advances (claim w) s h = claim_found-Advances w _ s h
  run_call-Advances (claim_stale w i) s h = claim_candidate-Advances w i s h
  run_call-Advances (cancel i u) s h = cancel_found-Advances _ s (first-In _ s.tasks) h
  run_call-Advances (beat i w) s h = rw (tasks-heartbeat fl env i w s) (
      commit-Advances _ _ _ s.tasks
        (All-of _ (λ t _. MayBecome-touched t (env.time s.tick)) s.tasks) h)
  run_call-Advances (recover n) s h = rw (tasks-recover_stale fl env n s) (
      commit-Advances _ _ _ s.tasks
        (All-of _
          (λ t e.
            MayBecome-ended t (expired_at (env.time s.tick) t) failed (ground arith) refl refl refl
              refl refl refl)
          s.tasks)
        h)
  run_call-Advances (finish_task i st x e b) s h = finish-Advances i st x e b s h
  run_call-Advances (log_event i e p) s h =
      rw (tasks-add_event fl env i e p s) (Advances-refl s.tasks h)

  -- Whatever is called, and whichever commits fail, a well-formed table stays well formed, its rows
  -- stay in place and each becomes only what its life allows.
  pub run_calls-Advances :
      (cs : List (Call fl.Float)) (s : State fl env)
      → IsWellFormed s.tasks
      → Advances s.tasks (run_calls cs s).tasks
  unfolding run_calls
  run_calls-Advances [] s h = Advances-refl s.tasks h
  run_calls-Advances (c ∷ cs) s h =
      let first_step = run_call-Advances c s h in
      let rest = run_calls-Advances cs (run_call c s) first_step.formed in
      record { history = Evolves-trans _ _ _ first_step.history rest.history; formed = rest.formed }
