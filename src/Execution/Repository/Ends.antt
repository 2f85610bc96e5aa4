-- ===== src/Execution/Repository/Ends.antt =====
-- `finish`, `request_cancel` and `recover_stale` of repository.py: how tasks end.
use code_explorer.Base.{
  ℕ, suc, String, Bool, true, false, ◌&&◌, Option, none, List, [], ◌∷◌, ◌++◌, ◌==◌, ◌≡◌, ◌≢◌, refl,
  arith, sym, ap, eq_iff, All, In, All-map, if◌then◌else◌, Bool-cases, inl, inr,
}
use code_explorer.Base.Int.{ℤ}
use code_explorer.Execution.Result.{returned}
use code_explorer.Execution.Contracts.{Status, Floats, is_terminal}
use code_explorer.Execution.Exec.{◌>>=◌}
use code_explorer.Execution.Store.{
  StatusText, known, other, Task, Event, outcome, update_where, first, Env, now, commit,
  append_event, event_row,
}
use code_explorer.Execution.Repository.{
  State, is_active, is_stale, expired_at, finished_as, event_name, add_event, finish, finish_as,
  request_cancel, cancel_found, recover_stale,
}
use code_explorer.Execution.Repository.Life.{UniqueIds, IsWellFormed, is_ended}
use code_explorer.Execution.Repository.Calls.{only_row}
use code_explorer.Execution.Repository.Claim.{Started}
use code_explorer.Execution.Repository.Effects.{tasks-finish, tasks-recover_stale}

-- A row with this key has come to its end.
abbrev pub Ended : String → List Task → Type 0
Ended i ts = (r : Task) × In r ts × (r.id ≡ i) × (is_ended r.status ≡ true)

In-update_where :
    (p : Task → Bool) (f : Task → Task) (r : Task) (ts : List Task)
    → In r ts
    → In (if p r then f r else r) (update_where p f ts)
In-update_where p f r (t ∷ ts) (inl e) = inl (ap (λ x. if p x then f x else x) e)
In-update_where p f r (t ∷ ts) (inr m) = inr (In-update_where p f r ts m)
In-update_where p f r [] m = absurd m

update_where-none :
    (p : Task → Bool) (f : Task → Task) (ts : List Task)
    → All (λ t. p t ≡ false) ts
    → update_where p f ts ≡ ts
update_where-none p f [] h = refl
update_where-none p f (t ∷ ts) (h, hs) = ground (arith, update_where-none p f ts hs)

Ended-finished :
    (i : String) (st : Status) (x : Option ℤ) (e : Option String) (b : Bool) (n : ℕ)
    (ts : List Task)
    → is_terminal st ≡ true
    → Started i ts
    → Ended i (update_where (λ r. r.id == i && is_active r.status) (finished_as st x e b n) ts)
Ended-finished i st x e b n ts t (r, m, k, q) =
    let p = λ (u : Task). u.id == i && is_active u.status in
    (
      (if p r then finished_as st x e b n r else r),
      In-update_where p (finished_as st x e b n) r ts m,
      ground (arith, k),
      ground (arith, t, q, k, eq_iff r.id i),
    )

first-none : (p : Task → Bool) (ts : List Task) → All (λ t. p t ≡ false) ts → first p ts ≡ none
first-none p [] h = refl
first-none p (t ∷ ts) (h, hs) = ground (arith, first-none p ts hs)

module _ (fl : Floats) (env : Env) where
  finish-returned :
      (i : String) (st : Status) (x : Option ℤ) (e : Option String) (b : Bool) (s : State fl env)
      → (finish fl env i (known st) x e b s).0 ≡ returned tt
      → (is_terminal st ≡ true) × (env.commits (suc s.tick) ≡ true)
  unfolding finish finish_as now commit ◌>>=◌
  finish-returned i st x e b s h = (ground arith, ground arith)

  -- When `finish` returns, a task that had been claimed has ended, by this call or an earlier one.
  pub Ended-finish :
      (i : String) (st : StatusText) (x : Option ℤ) (e : Option String) (b : Bool)
      (s : State fl env)
      → (finish fl env i st x e b s).0 ≡ returned tt
      → Started i s.tasks
      → Ended i (finish fl env i st x e b s).1.tasks
  Ended-finish i (other _) x e b s h g = unfold finish in cc
  Ended-finish i (known st) x e b s h g =
      let (t, c) = finish-returned i st x e b s h in
      rw (tasks-finish fl env i st x e b s)
        (rw (t, c) (Ended-finished i st x e b (env.time s.tick) s.tasks t g))

  not_active_here :
      (i : String) (r : Task) (ts : List Task)
      → UniqueIds ts
      → In r ts
      → r.id ≡ i
      → is_active r.status ≡ false
      → All (λ t. (t.id == i && is_active t.status) ≡ false) ts
  not_active_here i r ts u m k q =
      All-map _ _ ts
        (λ t _ same. elim (Bool-cases (t.id == i)) [
          | inl e ↦ rw e (rw (same (rw (sym k) at e)) q)
          | inr e ↦ rw e
        ])
        (only_row ts r u m)

  events-finish :
      (i : String) (st : Status) (x : Option ℤ) (e : Option String) (b : Bool) (s : State fl env)
      → is_terminal st ≡ true
      → ((n : ℕ) → env.commits n ≡ true)
      → (finish fl env i (known st) x e b s).1.events
        ≡ s.events
          ++ event_row env i (event_name st) (outcome x e b) (env.time (suc (suc s.tick))) s ∷ []
  unfolding finish finish_as now commit add_event append_event ◌>>=◌
  events-finish i st x e b s t live =
      ground (arith, live (suc s.tick), live (suc (suc (suc s.tick))))

  -- `finish` on a task that is not active, one that `recover_stale` has ended for example, leaves
  -- every row as it is, and yet appends an event that names the refused status.
  pub late_finish_is_logged :
      (i : String) (st : Status) (x : Option ℤ) (e : Option String) (b : Bool) (s : State fl env)
      (r : Task)
      → IsWellFormed s.tasks
      → In r s.tasks
      → r.id ≡ i
      → is_active r.status ≡ false
      → is_terminal st ≡ true
      → ((n : ℕ) → env.commits n ≡ true)
      → ((finish fl env i (known st) x e b s).1.tasks ≡ s.tasks)
        × (ev : Event fl.Float) × ((finish fl env i (known st) x e b s).1.events
            ≡ s.events ++ ev ∷ [])
        × (ev.task_id ≡ i)
        × (ev.event_type ≡ event_name st)
  late_finish_is_logged i st x e b s r w m k q t live = (
    rw (tasks-finish fl env i st x e b s) (
        rw (t, live (suc s.tick))
          (update_where-none _ (finished_as st x e b (env.time s.tick)) s.tasks
            (not_active_here i r s.tasks w.unique m k q))),
    event_row env i (event_name st) (outcome x e b) (env.time (suc (suc s.tick))) s,
    events-finish i st x e b s t live,
    refl,
    refl,
  )

  -- A cancellation by a user who does not own the task is answered like one of an unknown task, and
  -- the database stays as it is.
  pub cancel_by_stranger :
      (i u : String) (s : State fl env) (r : Task)
      → IsWellFormed s.tasks
      → In r s.tasks
      → r.id ≡ i
      → r.user_id ≢ u
      → request_cancel fl env i u s ≡ (returned none, s)
  unfolding request_cancel cancel_found ◌>>=◌
  cancel_by_stranger i u s r w m k ne = rw (
      first-none (λ t. t.id == i && t.user_id == u) s.tasks
        (All-map _ _ s.tasks
          (λ t _ same. elim (Bool-cases (t.id == i)) [
            | inl e ↦ rw e (rw (same (rw (sym k) at e)) (ground (arith, eq_iff r.user_id u)))
            | inr e ↦ rw e
          ])
          (only_row s.tasks r w.unique m)))

  -- When the commit of `recover_stale` goes through, no active row with an older heartbeat is left,
  -- and every row that was not stale is still there as it was.
  pub recover_stale_clears :
      (n : ℕ) (s : State fl env)
      → env.commits (suc s.tick) ≡ true
      → All (λ r. is_stale n r ≡ false) (recover_stale fl env n s).1.tasks
        × ((r : Task)
            → In r s.tasks
            → is_stale n r ≡ false
            → In r (recover_stale fl env n s).1.tasks)
  recover_stale_clears n s c =
      rw (tasks-recover_stale fl env n s) (rw c (cleared s.tasks, kept s.tasks))
    where
      cleared :
          (ts : List Task)
          → All
              (λ r. is_stale n r ≡ false)
              (update_where (is_stale n) (expired_at (env.time s.tick)) ts)
      cleared [] = tt
      cleared (t ∷ ts) = (ground arith, cleared ts)

      kept :
          (ts : List Task) (r : Task)
          → In r ts
          → is_stale n r ≡ false
          → In r (update_where (is_stale n) (expired_at (env.time s.tick)) ts)
      kept ts r m h = rw h at (In-update_where (is_stale n) (expired_at (env.time s.tick)) r ts m)

  pub finish-lives :
      (i : String) (st : Status) (x : Option ℤ) (e : Option String) (b : Bool) (s : State fl env)
      → is_terminal st ≡ true
      → ((n : ℕ) → env.commits n ≡ true)
      → (finish fl env i (known st) x e b s).0 ≡ returned tt
  unfolding finish finish_as now commit add_event append_event ◌>>=◌
  finish-lives i st x e b s t live =
      ground (arith, live (suc s.tick), live (suc (suc (suc s.tick))))
