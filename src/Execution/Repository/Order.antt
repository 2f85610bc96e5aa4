-- ===== src/Execution/Repository/Order.antt =====
-- `claim_next` of repository.py takes the oldest queued task, and takes one whenever there is one.
use code_explorer.Base.{
  ℕ, suc, ◌≤◌, String, Bool, true, ◌&&◌, Option, some, List, [], ◌∷◌, ◌==◌, ◌≡◌, ◌≢◌, refl, arith,
  ◌∙◌, sym, ap, subst, eq_iff, eq_refl, In, All, All-map, All-In, select, length, Bool-cases,
  Option-cases, inl, inr,
}
use mathlib.Core.Option.{some-injective}
use code_explorer.Execution.Result.{Outcome, returned}
use code_explorer.Execution.Contracts.{Floats, TaskView, running}
use code_explorer.Execution.Exec.{◌>>=◌}
use code_explorer.Execution.Store.{
  Task, known, update_where, first, Env, IsSqlite, now, append_event,
}
use code_explorer.Execution.Repository.{
  State, is_queued, claimed_by, add_event, claim_candidate, claim_found, claim_next, claim_result,
  view_of,
}
use code_explorer.Execution.Repository.Life.{UniqueIds, IsWellFormed}
use code_explorer.Execution.Repository.Calls.{only_row}
use code_explorer.Execution.Repository.Claim.{
  claim_runs, claim_candidate_result, claim_found_result, select-none,
}

pub In-select :
    {A : Type 0} (p : A → Bool) (a : A) (xs : List A) → In a (select p xs) → In a xs × (p a ≡ true)
In-select p a [] m = absurd m
In-select p a (x ∷ xs) m = ground (arith, In-select p a xs)

first_claimed :
    (w : String) (n : ℕ) (c : Task) (ts : List Task)
    → UniqueIds ts
    → In c ts
    → is_queued c.status ≡ true
    → first
        (λ r. r.id == c.id)
        (update_where (λ r. r.id == c.id && is_queued r.status) (claimed_by w n) ts)
      ≡ some (claimed_by w n c)
first_claimed w n c [] u m q = absurd m
first_claimed w n c (t ∷ ts) (u, us) (inl e) q =
    ground (arith, eq_iff t.id c.id, ap (λ (r : Task). r.id) e)
first_claimed w n c (t ∷ ts) (u, us) (inr m) q =
    ground
      (arith, eq_iff t.id c.id, All-In (λ r. t.id ≢ r.id) ts c u m, first_claimed w n c ts us m q)

one_candidate :
    (c : Task) (ts : List Task)
    → UniqueIds ts
    → In c ts
    → is_queued c.status ≡ true
    → length (select (λ r. r.id == c.id && is_queued r.status) ts) ≡ 1
one_candidate c [] u m q = absurd m
one_candidate c (t ∷ ts) (u, us) (inl e) q =
    ground (arith, eq_iff t.id c.id, ap (λ (r : Task). r.id) e, others_out)
  where
    others_out : select (λ r. r.id == c.id && is_queued r.status) ts ≡ []
    others_out =
        select-none (λ r. r.id == c.id && is_queued r.status) ts
          (All-map _ _ ts (λ r _ ne. ground (arith, eq_iff r.id c.id, ap (λ (r : Task). r.id) e)) u)
one_candidate c (t ∷ ts) (u, us) (inr m) q =
    ground (arith, eq_iff t.id c.id, All-In (λ r. t.id ≢ r.id) ts c u m, one_candidate c ts us m q)

-- The rows of a table, in order, where each one with the key has become the given row.
pub Replaced : String → Task → List Task → List Task → Type 0
Replaced i row [] [] = Unit
Replaced i row (t ∷ ts) (t' ∷ ts') =
    (t.id ≡ i → t' ≡ row) × (t.id ≢ i → t' ≡ t) × Replaced i row ts ts'
Replaced i row _ _ = ⊥

Replaced-claimed :
    (w : String) (n : ℕ) (c : Task) (ts : List Task)
    → is_queued c.status ≡ true
    → All (λ t. (t.id == c.id) ≡ true → t ≡ c) ts
    → Replaced c.id
        (claimed_by w n c)
        ts
        (update_where (λ r. r.id == c.id && is_queued r.status) (claimed_by w n) ts)
unfolding Replaced
Replaced-claimed w n c [] q same = tt
Replaced-claimed w n c (t ∷ ts) q (same, sames) = (
  λ e. rw (same ((eq_iff t.id c.id).1 e), eq_refl c.id, q) refl,
  λ ne. elim (Bool-cases (t.id == c.id)) [
    | inl e ↦ absurd (ne ((eq_iff t.id c.id).0 e))
    | inr e ↦ rw e refl
  ],
  Replaced-claimed w n c ts q sames,
)

module _ (fl : Floats) (env : Env) where
  -- What a claim that gives out `v` has found and done.
  pub record TakesOldest (w : String) (s s' : State fl env) (v : TaskView fl.Float) : Type 0 where
    pub task : Task
    pub there : In task s.tasks
    pub waiting : is_queued task.status ≡ true
    pub oldest :
        (u : Task) → In u s.tasks → is_queued u.status ≡ true → task.created_at ≤ u.created_at
    pub row : Task
    pub runs : row ≡ record task {
      status = known running;
      worker_id = some w;
      started_at = some (env.time s.tick);
      updated_at = env.time s.tick;
    }
    pub replaced : Replaced task.id row s.tasks s'.tasks
    pub shown : (v ≡ view_of fl env row) × (v.id ≡ task.id) × (v.status ≡ running)

  In-select-In :
      (p : Task → Bool) (a : Task) (ts : List Task) → In a ts → p a ≡ true → In a (select p ts)
  In-select-In p a [] m h = absurd m
  In-select-In p a (t ∷ ts) (inl e) h = rw (← e) (rw h (inl refl))
  In-select-In p a (t ∷ ts) (inr m) h = elim (Bool-cases (p t)) [
    | inl k ↦ rw k (inr (In-select-In p a ts m h))
    | inr k ↦ rw k (In-select-In p a ts m h)
  ]

  -- The worker is given the oldest queued task, as its row is after the claim: the row is running
  -- under that worker's name since the time of the claim, with its other columns as they were, and no
  -- row with another key has changed.
  pub claim_next-TakesOldest :
      (w : String) (s : State fl env) (v : TaskView fl.Float)
      → IsSqlite env
      → IsWellFormed s.tasks
      → (claim_next fl env w s).0 ≡ returned (some v)
      → TakesOldest w s (claim_next fl env w s).1 v
  unfolding claim_next ◌>>=◌ view_of
  claim_next-TakesOldest w s v db wf h =
      let ready = select (λ (t : Task). is_queued t.status) s.tasks in
      let (c, chosen, claim, same) = claim_found_result fl env w (env.oldest ready) s v h in
      let (row, found, view, one, table) = claim_candidate_result fl env w c.id s v claim in
      let (there, waiting) = In-select _ c s.tasks (db.oldest_in ready c chosen) in
      record {
        task = c;
        there = there;
        waiting = waiting;
        oldest = λ u m q.
            All-In _ ready u (db.oldest_first ready c chosen)
              (In-select-In (λ t. is_queued t.status) u s.tasks m q);
        row = claimed_by w (env.time s.tick) c;
        runs = refl;
        replaced =
            subst (Replaced c.id (claimed_by w (env.time s.tick) c) s.tasks)
              (sym (
                ap (λ (x : Outcome (Option (TaskView fl.Float)) × State fl env). x.1.tasks) same
                ∙ table))
              (Replaced-claimed w (env.time s.tick) c s.tasks waiting
                (only_row s.tasks c wf.unique there));
        shown =
            let seen =
              view
              ∙ ap (view_of fl env) (
                  some-injective row (claimed_by w (env.time s.tick) c) (
                    sym found
                    ∙ first_claimed w (env.time s.tick) c s.tasks wf.unique there waiting)) in
            (
              seen,
              ap (λ (x : TaskView fl.Float). x.id) seen,
              ap (λ (x : TaskView fl.Float). x.status) seen,
            );
      }

  claim_result_succeeds :
      (w : String) (row : Task) (s : State fl env)
      → ((n : ℕ) → env.commits n ≡ true)
      → (claim_result fl env w true (some row) s).0 ≡ returned (some (view_of fl env row))
  unfolding claim_result add_event now append_event ◌>>=◌
  claim_result_succeeds w row s live = ground (arith, live (suc s.tick))

  claim_succeeds :
      (w : String) (c : Task) (s : State fl env)
      → IsWellFormed s.tasks
      → ((n : ℕ) → env.commits n ≡ true)
      → In c s.tasks
      → is_queued c.status ≡ true
      → (claim_candidate fl env w c.id s).0
        ≡ returned (some (view_of fl env (claimed_by w (env.time s.tick) c)))
  claim_succeeds w c s wf live m q = rw (claim_runs fl env w c.id s (live (suc s.tick))) (
      rw
        (
          one_candidate c s.tasks wf.unique m q,
          first_claimed w (env.time s.tick) c s.tasks wf.unique m q,
        )
        (claim_result_succeeds w (claimed_by w (env.time s.tick) c) _ live))

  -- As long as commits go through, a claim gives out a task whenever one is queued.
  pub claim_next_progress :
      (w : String) (s : State fl env) (u : Task)
      → IsSqlite env
      → IsWellFormed s.tasks
      → ((n : ℕ) → env.commits n ≡ true)
      → In u s.tasks
      → is_queued u.status ≡ true
      → (v : TaskView fl.Float) × ((claim_next fl env w s).0 ≡ returned (some v))
  unfolding claim_next ◌>>=◌
  claim_next_progress w s u db wf live m q = elim (Option-cases (env.oldest ready)) [
    | inl none_left ↦ absurd (
        rw (db.oldest_none ready none_left) at
          (In-select-In (λ t. is_queued t.status) u s.tasks m q))
    | inr (c, chosen) ↦
        let (there, waiting) =
          In-select (λ (t : Task). is_queued t.status) c s.tasks (db.oldest_in ready c chosen) in
        (
          view_of fl env (claimed_by w (env.time s.tick) c),
          rw chosen (unfold claim_found in claim_succeeds w c s wf live there waiting),
        )
  ]
    where
      ready : List Task
      ready = select (λ t. is_queued t.status) s.tasks
