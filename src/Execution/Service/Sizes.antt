-- ===== src/Execution/Service/Sizes.antt =====
-- How many open tasks of a user each method of repository.py leaves.
use code_explorer.Base.{
  ℕ, suc, ◌+◌, ◌≤◌, String, Bool, true, false, not, ◌&&◌, Option, none, some, List, [], ◌∷◌, ◌++◌,
  ◌==◌, ◌≡◌, refl, arith, ap, select, length, inl, inr, Bool-cases, if◌then◌else◌,
}
use code_explorer.Base.Int.{ℤ}
use code_explorer.Execution.Contracts.{Floats, Plan}
use code_explorer.Execution.Exec.{◌>>=◌}
use code_explorer.Execution.Store.{StatusText, known, other, Task, Env, update_where}
use code_explorer.Execution.Repository as Repo
use code_explorer.Execution.Repository.{
  State, is_open, queued_row, claim_next, claim_found, request_cancel, cancel_found, finish,
}
use code_explorer.Execution.Repository.Life.{Follows, Evolves, Life-ended, IsWellFormed}
use code_explorer.Execution.Repository.Effects.{
  tasks-create, tasks-claim_candidate, tasks-cancel_with, tasks-heartbeat, tasks-recover_stale,
  tasks-finish, tasks-add_event,
}
use code_explorer.Execution.Repository.Calls.{
  Call, create_task, claim, claim_stale, cancel, beat, recover, finish_task, log_event, run_call,
  run_calls, run_call-Advances,
}

-- The open tasks of a user.
abbrev pub open_tasks : String → List Task → ℕ
open_tasks u ts = length (select (λ t. t.user_id == u && is_open t.status) ts)

-- The calls that create a task for the user.
abbrev pub creations : {F : Type 0} → String → List (Call F) → ℕ
creations u [] = 0
creations u (create_task i p owner plan ∷ cs) =
    let rest = creations u cs in if owner == u then suc rest else rest
creations u (_ ∷ cs) = creations u cs

open_tasks-append :
    (u : String) (r : Task) (ts : List Task)
    → open_tasks u (ts ++ r ∷ []) ≤ open_tasks u ts + (if r.user_id == u then 1 else 0)
open_tasks-append u r [] = ground arith
open_tasks-append u r (t ∷ ts) = ground (arith, open_tasks-append u r ts)

owner_fixed : {r r' : Task} → Follows r r' → r'.user_id ≡ r.user_id
owner_fixed f = ap (λ (t : Task). t.user_id) f.fixed

open_before : {r r' : Task} → Follows r r' → is_open r'.status ≡ true → is_open r.status ≡ true
open_before {r} {r'} f h = elim (Bool-cases (is_open r.status)) [
  | inl e ↦ e
  | inr e ↦ ground (arith, Life-ended f.life (ap not e))
]

-- Rows that only go through their lives, none added, are open at most as often.
open_tasks-Evolves :
    (u : String) (ts ts' : List Task)
    → Evolves ts ts'
    → length ts' ≡ length ts
    → open_tasks u ts' ≤ open_tasks u ts
open_tasks-Evolves u [] [] h e = omega arith
open_tasks-Evolves u [] (t' ∷ ts') h e = ground (arith, e)
open_tasks-Evolves u (t ∷ ts) [] h e = absurd h
open_tasks-Evolves u (t ∷ ts) (t' ∷ ts') (f, h) e =
    let rest = open_tasks-Evolves u ts ts' h (omega arith) in
    rw (owner_fixed f) (elim (Bool-cases (is_open t'.status)) [
      | inl o ↦ rw (o, open_before f o) (ground (arith, rest))
      | inr o ↦ rw o (ground (arith, rest))
    ])

length-update_where :
    (p : Task → Bool) (f : Task → Task) (ts : List Task) → length (update_where p f ts) ≡ length ts
length-update_where p f [] = refl
length-update_where p f (t ∷ ts) = ap suc (length-update_where p f ts)

length-commit :
    (b : Bool) (p : Task → Bool) (f : Task → Task) (ts : List Task)
    → length (if b then update_where p f ts else ts) ≡ length ts
length-commit true p f ts = length-update_where p f ts
length-commit false p f ts = refl

open_tasks-if :
    (u : String) (n : ℕ) (b : Bool) (ts us : List Task)
    → open_tasks u ts ≤ open_tasks u us + n
    → open_tasks u (if b then ts else us) ≤ open_tasks u us + n
open_tasks-if u n true ts us h = h
open_tasks-if u n false ts us h = omega arith

module _ (fl : Floats) (env : Env) where
  pub open_tasks-create :
      (u i p owner : String) (plan : Plan fl.Float) (s : State fl env)
      → open_tasks u (Repo.create fl env i p owner plan s).1.tasks
        ≤ open_tasks u s.tasks + (if owner == u then 1 else 0)
  unfolding queued_row
  open_tasks-create u i p owner plan s = rw (tasks-create fl env i p owner plan s) (
      open_tasks-if u _ _ _ s.tasks (
        open_tasks-append u
          (queued_row fl env i p owner plan (env.time s.tick) (env.time (suc s.tick))) s.tasks))

  length-claim_found :
      (w : String) (o : Option Task) (s : State fl env)
      → length (claim_found fl env w o s).1.tasks ≡ length s.tasks
  unfolding claim_found
  length-claim_found w none s = refl
  length-claim_found w (some c) s = rw (tasks-claim_candidate fl env w c.id s, length-commit)

  length-cancel_found :
      (o : Option Task) (s : State fl env)
      → length (cancel_found fl env o s).1.tasks ≡ length s.tasks
  unfolding cancel_found
  length-cancel_found none s = refl
  length-cancel_found (some row) s = rw (tasks-cancel_with fl env _ row s, length-commit)

  length-finish :
      (i : String) (st : StatusText) (x : Option ℤ) (e : Option String) (b : Bool)
      (s : State fl env)
      → length (finish fl env i st x e b s).1.tasks ≡ length s.tasks
  length-finish i (other _) x e b s = unfold finish in refl
  length-finish i (known st) x e b s = rw (tasks-finish fl env i st x e b s, length-commit)

  not_longer :
      (u : String) (c : Call fl.Float) (s : State fl env)
      → IsWellFormed s.tasks
      → length (run_call fl env c s).tasks ≡ length s.tasks
      → open_tasks u (run_call fl env c s).tasks ≤ open_tasks u s.tasks
  not_longer u c s h e = open_tasks-Evolves u s.tasks _ (run_call-Advances fl env c s h).history e

  open_tasks-run_call :
      (u : String) (c : Call fl.Float) (s : State fl env)
      → IsWellFormed s.tasks
      → open_tasks u (run_call fl env c s).tasks ≤ open_tasks u s.tasks + creations u (c ∷ [])
  unfolding run_call claim_next request_cancel ◌>>=◌
  open_tasks-run_call u (create_task i p owner plan) s h = open_tasks-create u i p owner plan s
  open_tasks-run_call u (claim w) s h =
      ground (arith, not_longer u (claim w) s h (length-claim_found w _ s))
  open_tasks-run_call u (claim_stale w i) s h = ground (
    arith,
    not_longer u (claim_stale w i) s h (rw (tasks-claim_candidate fl env w i s, length-commit)),
  )
  open_tasks-run_call u (cancel i owner) s h =
      ground (arith, not_longer u (cancel i owner) s h (length-cancel_found _ s))
  open_tasks-run_call u (beat i w) s h =
      ground (arith, not_longer u (beat i w) s h (rw (tasks-heartbeat fl env i w s, length-commit)))
  open_tasks-run_call u (recover n) s h =
      ground
        (arith, not_longer u (recover n) s h (rw (tasks-recover_stale fl env n s, length-commit)))
  open_tasks-run_call u (finish_task i st x e b) s h =
      ground (arith, not_longer u (finish_task i st x e b) s h (length-finish i st x e b s))
  open_tasks-run_call u (log_event i e p) s h =
      ground
        (arith, not_longer u (log_event i e p) s h (ap length (tasks-add_event fl env i e p s)))

  creations-cons :
      (u : String) (c : Call fl.Float) (cs : List (Call fl.Float))
      → creations u (c ∷ cs) ≡ creations u (c ∷ []) + creations u cs
  creations-cons u (create_task i p owner plan) cs = ground arith
  creations-cons u _ cs = omega arith

  pub open_tasks-run_calls :
      (u : String) (cs : List (Call fl.Float)) (s : State fl env)
      → IsWellFormed s.tasks
      → open_tasks u (run_calls fl env cs s).tasks ≤ open_tasks u s.tasks + creations u cs
  unfolding run_calls
  open_tasks-run_calls u [] s h = omega arith
  open_tasks-run_calls u (c ∷ cs) s h =
      let step = open_tasks-run_call u c s h in
      let rest =
        open_tasks-run_calls u cs (run_call fl env c s) (run_call-Advances fl env c s h).formed in
      rw (creations-cons u c cs) (omega (arith, step, rest))
