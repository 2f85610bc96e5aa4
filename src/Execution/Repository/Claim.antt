-- ===== src/Execution/Repository/Claim.antt =====
-- `claim_next` of repository.py: which task it takes, and that no task is taken twice.
use code_explorer.Base.{
  ℕ, suc, String, Bool, true, false, ◌&&◌, Option, none, some, List, [], ◌∷◌, ◌==◌, ◌≡◌, ◌≢◌, refl,
  arith, ◌∙◌, sym, ap, subst, eq_iff, All, In, All-map, select, length, leb, Bool-cases, inl, inr,
}
use code_explorer.Execution.Result.{Outcome, returned}
use code_explorer.Execution.Contracts.{Floats, TaskView}
use code_explorer.Execution.Exec.{◌>>=◌}
use code_explorer.Execution.Store.{Task, update_where, first, Env, now, commit, append_event}
use code_explorer.Execution.Repository.{
  State, is_queued, claimed_by, add_event, claim_candidate, claim_found, claim_next, claim_result,
  view_of,
}
use code_explorer.Execution.Repository.Life.{Life-started, Follows, Evolves, IsWellFormed}
use code_explorer.Execution.Repository.Calls.{
  Call, run_calls, run_calls-Advances, only_row, first-In, claim_candidate-Advances,
}
use code_explorer.Execution.Repository.Effects.{tasks-claim_candidate}

-- A row with this key has left the queue.
abbrev pub Started : String → List Task → Type 0
Started i ts = (r : Task) × In r ts × (r.id ≡ i) × (is_queued r.status ≡ false)

evolved_row :
    (r : Task) (ts ts' : List Task)
    → In r ts
    → Evolves ts ts'
    → (r' : Task) × In r' ts' × Follows r r'
evolved_row r (t ∷ ts) (t' ∷ ts') (inl e) (f, fs) =
    (t', inl refl, subst (λ x. Follows x t') (sym e) f)
evolved_row r (t ∷ ts) (t' ∷ ts') (inr m) (f, fs) =
    let (r', m', f') = evolved_row r ts ts' m fs in (r', inr m', f')
evolved_row r (t ∷ ts) [] m f = absurd f
evolved_row r [] ts' m f = absurd m

pub Started-Evolves :
    (i : String) (ts ts' : List Task) → Evolves ts ts' → Started i ts → Started i ts'
Started-Evolves i ts ts' ev (r, m, e, q) =
    let (r', m', f) = evolved_row r ts ts' m ev in
    (r', m', ap (λ (t : Task). t.id) f.fixed ∙ e, Life-started f.life q)

pub select-none : (p : Task → Bool) (ts : List Task) → All (λ t. p t ≡ false) ts → select p ts ≡ []
select-none p [] h = refl
select-none p (t ∷ ts) (h, hs) = ground (arith, select-none p ts hs)

-- No queued row has the key of a started one.
Started-not_queued :
    (i : String) (ts : List Task)
    → IsWellFormed ts
    → Started i ts
    → select (λ r. r.id == i && is_queued r.status) ts ≡ []
Started-not_queued i ts w (r, m, e, q) = select-none _ ts (
    All-map _ _ ts
      (λ t _ same. elim (Bool-cases (t.id == i)) [
        | inl k ↦ rw k (rw (same (rw e k)) q)
        | inr k ↦ rw k
      ])
      (only_row ts r w.unique m))

first-passes : (p : Task → Bool) (ts : List Task) (r : Task) → first p ts ≡ some r → p r ≡ true
first-passes p [] r h = cc
first-passes p (t ∷ ts) r h = ground (arith, first-passes p ts r)

-- The row of a key, behind the UPDATE of a claim, is not queued.
left_queue :
    (w i : String) (n : ℕ) (ts : List Task) (row : Task)
    → first
        (λ r. r.id == i)
        (update_where (λ r. r.id == i && is_queued r.status) (claimed_by w n) ts)
      ≡ some row
    → is_queued row.status ≡ false
left_queue w i n [] row h = cc
left_queue w i n (t ∷ ts) row h = ground (arith, left_queue w i n ts row)

module _ (fl : Floats) (env : Env) where
  claim_result-some :
      (w : String) (b : Bool) (o : Option Task) (s : State fl env) (v : TaskView fl.Float)
      → (claim_result fl env w b o s).0 ≡ returned (some v)
      → (row : Task) × (b ≡ true) × (o ≡ some row) × (v ≡ view_of fl env row)
  unfolding claim_result now add_event append_event ◌>>=◌
  claim_result-some w false o s v h = cc
  claim_result-some w true none s v h = cc
  claim_result-some w true (some row) s v h = (row, refl, refl, ground arith)

  -- The table that the UPDATE of a claim writes.
  abbrev pub claimed_table : String → String → State fl env → List Task
  claimed_table w i s =
      update_where (λ r. r.id == i && is_queued r.status) (claimed_by w (env.time s.tick)) s.tasks

  abbrev pub candidates : String → State fl env → ℕ
  candidates i s = length (select (λ r. r.id == i && is_queued r.status) s.tasks)

  claim_fails :
      (w i : String) (s : State fl env) (v : TaskView fl.Float)
      → env.commits (suc s.tick) ≡ false
      → (claim_candidate fl env w i s).0 ≢ returned (some v)
  unfolding claim_candidate now commit ◌>>=◌
  claim_fails w i s v e h = ground arith

  abbrev pub after_update : String → String → State fl env → State fl env
  after_update w i s = record s { tasks = claimed_table w i s; tick = suc (suc s.tick) }

  pub claim_runs :
      (w i : String) (s : State fl env)
      → env.commits (suc s.tick) ≡ true
      → claim_candidate fl env w i s
        ≡ claim_result fl env w
            (leb (candidates i s) 1 && leb 1 (candidates i s))
            (first (λ r. r.id == i) (claimed_table w i s))
            (after_update w i s)
  unfolding claim_candidate now commit ◌>>=◌
  claim_runs w i s e = rw e

  pub claim_candidate_result :
      (w i : String) (s : State fl env) (v : TaskView fl.Float)
      → (claim_candidate fl env w i s).0 ≡ returned (some v)
      → (row : Task) × (first (λ r. r.id == i) (claimed_table w i s) ≡ some row)
        × (v ≡ view_of fl env row)
        × (candidates i s ≡ 1)
        × ((claim_candidate fl env w i s).1.tasks ≡ claimed_table w i s)
  claim_candidate_result w i s v h = elim (Bool-cases (env.commits (suc s.tick))) [
    | inl e ↦
        let (row, one, found, view) =
          claim_result-some w (leb (candidates i s) 1 && leb 1 (candidates i s))
            (first (λ r. r.id == i) (claimed_table w i s)) (after_update w i s) v
            (ap (λ (x : Outcome (Option (TaskView fl.Float)) × State fl env). x.0)
                (sym (claim_runs w i s e))
              ∙ h) in
        (row, found, view, ground arith, rw (tasks-claim_candidate fl env w i s) (rw e))
    | inr e ↦ absurd (claim_fails w i s v e h)
  ]

  -- After a successful claim the row of the key is out of the queue.
  Started-claim :
      (w i : String) (s : State fl env) (v : TaskView fl.Float)
      → (claim_candidate fl env w i s).0 ≡ returned (some v)
      → Started i (claim_candidate fl env w i s).1.tasks
  Started-claim w i s v h =
      let (row, found, view, one, table) = claim_candidate_result w i s v h in
      (
        row,
        rw table (first-In (λ r. r.id == i) (claimed_table w i s) row found),
        (eq_iff row.id i).0 (first-passes (λ r. r.id == i) (claimed_table w i s) row found),
        left_queue w i (env.time s.tick) s.tasks row found,
      )

  -- Once a worker has been given a task, no claim of that task succeeds, whatever is called in
  -- between, even one whose SELECT read the table before the first claim.
  pub claimed_once :
      (w w' i : String) (s : State fl env) (v v' : TaskView fl.Float) (cs : List (Call fl.Float))
      → IsWellFormed s.tasks
      → (claim_candidate fl env w i s).0 ≡ returned (some v)
      → (claim_candidate fl env w' i (run_calls fl env cs (claim_candidate fl env w i s).1)).0
        ≢ returned (some v')
  claimed_once w w' i s v v' cs wf h h' =
      let s1 = (claim_candidate fl env w i s).1 in
      let s2 = run_calls fl env cs s1 in
      let a1 = claim_candidate-Advances fl env w i s wf in
      let a2 = run_calls-Advances fl env cs s1 a1.formed in
      let (_, _, _, one, _) = claim_candidate_result w' i s2 v' h' in
      let empty =
        Started-not_queued i s2.tasks a2.formed
          (Started-Evolves i s1.tasks s2.tasks a2.history (Started-claim w i s v h)) in
      absurd (omega (arith, one, ap length empty))

  pub claim_found_result :
      (w : String) (o : Option Task) (s : State fl env) (v : TaskView fl.Float)
      → (claim_found fl env w o s).0 ≡ returned (some v)
      → (c : Task) × (o ≡ some c)
        × ((claim_candidate fl env w c.id s).0 ≡ returned (some v))
        × (claim_found fl env w o s ≡ claim_candidate fl env w c.id s)
  unfolding claim_found
  claim_found_result w none s v h = cc
  claim_found_result w (some c) s v h = (c, refl, h, refl)

  pub Started-claim_next :
      (w : String) (s : State fl env) (v : TaskView fl.Float)
      → (claim_next fl env w s).0 ≡ returned (some v)
      → Started v.id (claim_next fl env w s).1.tasks
  unfolding claim_next view_of ◌>>=◌
  Started-claim_next w s v h =
      let ready = select (λ (t : Task). is_queued t.status) s.tasks in
      let (c, chosen, claim, same) = claim_found_result w (env.oldest ready) s v h in
      let (row, found, view, _, _) = claim_candidate_result w c.id s v claim in
      let key =
        (eq_iff row.id c.id).0
          (first-passes (λ r. r.id == c.id) (claimed_table w c.id s) row found) in
      let name = ap (λ (t : TaskView fl.Float). t.id) view ∙ key in
      subst (λ i. Started i (claim_found fl env w (env.oldest ready) s).1.tasks) (sym name)
        (subst (λ (x : Outcome (Option (TaskView fl.Float)) × State fl env). Started c.id x.1.tasks)
          (sym same) (Started-claim w c.id s v claim))
