-- ===== src/Execution/Repository/Log.antt =====
-- `execution_events` under the methods of repository.py: how the table goes on. Its rows go when a
-- project is deleted, by code of another module, which is not among the calls here.
pub mod Resume
use code_explorer.Base.{
  ℕ, ◌<◌, String, Bool, true, false, Option, none, some, List, [], ◌∷◌, ◌++◌, ◌==◌, ◌≡◌, refl, ◌∙◌,
  sym, ap, subst, arith, eq_iff, ◌≤◌, ◌&&◌, ltb, select, In, All, Bool-cases, inl, inr,
}
use mathlib.Core.List.{append-nil, append_assoc}
use code_explorer.Base.Int.{ℤ}
use code_explorer.Execution.Result.{returned}
use code_explorer.Execution.Contracts.{Status, Floats, Plan, is_terminal, is_some}
use code_explorer.Execution.Exec.{Preserves, Preserves-bind, Preserves-still}
use code_explorer.Execution.Store.{
  StatusText, known, other, Task, Event, Db, Payload, nothing, first, Env, IsSqlite, now, commit,
  append_event, event_row, sequences,
}
use code_explorer.Execution.Repository.{
  State, add_event, create, insert_row, claim_candidate, claim_found, claim_next, claim_result,
  Cancel, now_cancelled, cancel_with, cancel_found, cancel_time, notify, request_cancel, heartbeat,
  recover_stale, report_recovered, finish, finish_as, events_after, in_order, insert_event,
}
use code_explorer.Execution.Repository.Calls.{
  Call, create_task, claim, claim_stale, cancel, beat, recover, finish_task, log_event, run_call,
  run_calls,
}

abbrev pub IsIncreasing : List ℕ → Type 0
IsIncreasing [] = Unit
IsIncreasing (k ∷ ks) = All (λ j. k < j) ks × IsIncreasing ks

IsIncreasing-append :
    (ks : List ℕ) (n : ℕ) → IsIncreasing ks → All (λ k. k < n) ks → IsIncreasing (ks ++ n ∷ [])
IsIncreasing-append [] n h b = (tt, tt)
IsIncreasing-append (k ∷ ks) n (h, hs) (b, bs) = (over ks h, IsIncreasing-append ks n hs bs)
  where
    over : (js : List ℕ) → All (λ j. k < j) js → All (λ j. k < j) (js ++ n ∷ [])
    over [] h = (b, tt)
    over (j ∷ js) (h, hs) = (h, over js hs)

sequences-append :
    {F : Type 0} (es fs : List (Event F)) → sequences (es ++ fs) ≡ sequences es ++ sequences fs
sequences-append [] fs = refl
sequences-append (e ∷ es) fs = ap (λ ks. e.sequence ∷ ks) (sequences-append es fs)

-- A state whose log goes on from `old`.
pub record GoesOn {F : Type 0} (old : List (Event F)) (s : Db F) : Type 0 where
  pub more : List (Event F)
  pub events : s.events ≡ old ++ more
  pub increasing : IsIncreasing (sequences s.events)

module _ (fl : Floats) (env : Env) (db : IsSqlite env) (old : List (Event fl.Float)) where
  abbrev Grows : State fl env → Type 0
  Grows = GoesOn old

  Preserves-now : Preserves Grows (now env)
  unfolding now
  Preserves-now = record {
    at = λ s h. record { more = h.more; events = h.events; increasing = h.increasing };
  }

  Preserves-commit : (f : List Task → List Task) → Preserves Grows (commit env f)
  unfolding commit
  Preserves-commit f = record {
    at = λ s h. elim (Bool-cases (env.commits s.tick)) [
      | inl e ↦ rw e (record { more = h.more; events = h.events; increasing = h.increasing })
      | inr e ↦ rw e (record { more = h.more; events = h.events; increasing = h.increasing })
    ];
  }

  Preserves-append :
      (i e : String) (p : Payload fl.Float) (t : ℕ) → Preserves Grows (append_event env i e p t)
  unfolding append_event
  Preserves-append i e p t = record {
    at = λ s h. elim (Bool-cases (env.commits s.tick)) [
      | inl c ↦ rw c (record {
        more = h.more ++ event_row env i e p t s ∷ [];
        events =
            ap (λ es. es ++ event_row env i e p t s ∷ []) h.events
            ∙ (append_assoc old h.more (event_row env i e p t s ∷ []));
        increasing = rw sequences-append (
            IsIncreasing-append (sequences s.events) (env.next_key (sequences s.events))
              h.increasing (db.next_key_above (sequences s.events)));
      })
      | inr c ↦ rw c (record { more = h.more; events = h.events; increasing = h.increasing })
    ];
  }

  Preserves-add_event :
      (i e : String) (p : Payload fl.Float) → Preserves Grows (add_event fl env i e p)
  unfolding add_event
  Preserves-add_event i e p = Preserves-bind Grows _ _ Preserves-now (λ t. Preserves-append i e p t)

  Preserves-insert : (row : Task) → Preserves Grows (insert_row fl env row)
  unfolding insert_row
  Preserves-insert row = record {
    at = λ s h. elim (Bool-cases (is_some (first (λ t. t.id == row.id) s.tasks))) [
      | inl e ↦ rw e h
      | inr e ↦ rw e ((Preserves-commit (λ ts. ts ++ row ∷ [])).at s h)
    ];
  }

  Preserves-create :
      (i p u : String) (plan : Plan fl.Float) → Preserves Grows (create fl env i p u plan)
  unfolding create
  Preserves-create i p u plan = Preserves-bind Grows _ _ Preserves-now (λ c.
      Preserves-bind Grows _ _ Preserves-now (λ t.
        Preserves-bind Grows _ _ (Preserves-insert _) (λ _.
          Preserves-bind Grows _ _ (Preserves-add_event _ _ _)
            (λ _. Preserves-still Grows _ (λ _. refl)))))

  Preserves-claim_result :
      (w : String) (b : Bool) (o : Option Task) → Preserves Grows (claim_result fl env w b o)
  unfolding claim_result
  Preserves-claim_result w false o = Preserves-still Grows _ (λ _. refl)
  Preserves-claim_result w true none = Preserves-still Grows _ (λ _. refl)
  Preserves-claim_result w true (some r) =
      Preserves-bind Grows _ _ (Preserves-add_event _ _ _)
        (λ _. Preserves-still Grows _ (λ _. refl))

  Preserves-claim_candidate : (w i : String) → Preserves Grows (claim_candidate fl env w i)
  unfolding claim_candidate
  Preserves-claim_candidate w i = Preserves-bind Grows _ _ Preserves-now (λ t.
      Preserves-bind Grows _ _ (Preserves-still Grows _ (λ _. refl)) (λ n.
        Preserves-bind Grows _ _ (Preserves-commit _) (λ _.
          Preserves-bind Grows _ _ (Preserves-still Grows _ (λ _. refl))
            (λ o. Preserves-claim_result _ _ _))))

  Preserves-claim_found : (w : String) (o : Option Task) → Preserves Grows (claim_found fl env w o)
  unfolding claim_found
  Preserves-claim_found w none = Preserves-still Grows _ (λ _. refl)
  Preserves-claim_found w (some c) = Preserves-claim_candidate w c.id

  Preserves-claim_next : (w : String) → Preserves Grows (claim_next fl env w)
  unfolding claim_next
  Preserves-claim_next w =
      Preserves-bind Grows _ _ (Preserves-still Grows _ (λ _. refl))
        (λ o. Preserves-claim_found w o)

  Preserves-cancel_time : (k : Cancel) → Preserves Grows (cancel_time fl env k)
  unfolding cancel_time
  Preserves-cancel_time now_cancelled = Preserves-now
  Preserves-cancel_time _ = Preserves-still Grows _ (λ _. refl)

  Preserves-notify : (i : String) (o : Option String) → Preserves Grows (notify fl env i o)
  unfolding notify
  Preserves-notify i none = Preserves-still Grows _ (λ _. refl)
  Preserves-notify i (some e) =
      Preserves-bind Grows _ _ (Preserves-add_event i e nothing)
        (λ _. Preserves-still Grows _ (λ _. refl))

  Preserves-cancel_with : (k : Cancel) (row : Task) → Preserves Grows (cancel_with fl env k row)
  unfolding cancel_with
  Preserves-cancel_with k row = Preserves-bind Grows _ _ (Preserves-cancel_time k) (λ a.
      Preserves-bind Grows _ _ Preserves-now (λ b.
        Preserves-bind Grows _ _ (Preserves-commit _) (λ _.
          Preserves-bind Grows _ _ (Preserves-notify _ _)
            (λ _. Preserves-still Grows _ (λ _. refl)))))

  Preserves-cancel_found : (o : Option Task) → Preserves Grows (cancel_found fl env o)
  unfolding cancel_found
  Preserves-cancel_found none = Preserves-still Grows _ (λ _. refl)
  Preserves-cancel_found (some row) = Preserves-cancel_with _ row

  Preserves-request_cancel : (i u : String) → Preserves Grows (request_cancel fl env i u)
  unfolding request_cancel
  Preserves-request_cancel i u =
      Preserves-bind Grows _ _ (Preserves-still Grows _ (λ _. refl)) (λ o. Preserves-cancel_found o)

  Preserves-heartbeat : (i w : String) → Preserves Grows (heartbeat fl env i w)
  unfolding heartbeat
  Preserves-heartbeat i w = Preserves-bind Grows _ _ Preserves-now (λ t. Preserves-commit _)

  Preserves-report : (rows : List Task) → Preserves Grows (report_recovered fl env rows)
  unfolding report_recovered
  Preserves-report [] = Preserves-still Grows _ (λ _. refl)
  Preserves-report (row ∷ rows) =
      Preserves-bind Grows _ _ (Preserves-add_event _ _ _) (λ _. Preserves-report rows)

  Preserves-recover_stale : (n : ℕ) → Preserves Grows (recover_stale fl env n)
  unfolding recover_stale
  Preserves-recover_stale n =
      Preserves-bind Grows _ _ (Preserves-still Grows _ (λ _. refl)) (λ rows.
        Preserves-bind Grows _ _ Preserves-now (λ t.
          Preserves-bind Grows _ _ (Preserves-commit _) (λ _.
            Preserves-bind Grows _ _ (Preserves-report rows)
              (λ _. Preserves-still Grows _ (λ _. refl)))))

  Preserves-finish_as :
      (i : String) (st : Status) (x : Option ℤ) (e : Option String) (b : Bool)
      → Preserves Grows (finish_as fl env i st x e b)
  unfolding finish_as
  Preserves-finish_as i st x e b = Preserves-bind Grows _ _ Preserves-now (λ t.
      Preserves-bind Grows _ _ (Preserves-commit _) (λ _.
        Preserves-bind Grows _ _ (Preserves-add_event _ _ _)
          (λ _. Preserves-still Grows _ (λ _. refl))))

  Preserves-finish :
      (i : String) (st : StatusText) (x : Option ℤ) (e : Option String) (b : Bool)
      → Preserves Grows (finish fl env i st x e b)
  unfolding finish
  Preserves-finish i (other _) x e b = Preserves-still Grows _ (λ _. refl)
  Preserves-finish i (known st) x e b = elim (Bool-cases (is_terminal st)) [
    | inl t ↦ rw t (Preserves-finish_as i st x e b)
    | inr n ↦ rw n (Preserves-still Grows _ (λ _. refl))
  ]

  Preserves-call : (c : Call fl.Float) (s : State fl env) → Grows s → Grows (run_call fl env c s)
  unfolding run_call
  Preserves-call (create_task i p u plan) s h = (Preserves-create i p u plan).at s h
  Preserves-call (claim w) s h = (Preserves-claim_next w).at s h
  Preserves-call (claim_stale w i) s h = (Preserves-claim_candidate w i).at s h
  Preserves-call (cancel i u) s h = (Preserves-request_cancel i u).at s h
  Preserves-call (beat i w) s h = (Preserves-heartbeat i w).at s h
  Preserves-call (recover n) s h = (Preserves-recover_stale n).at s h
  Preserves-call (finish_task i st x e b) s h = (Preserves-finish i st x e b).at s h
  Preserves-call (log_event i e p) s h = (Preserves-add_event i e p).at s h

  Preserves-calls :
      (cs : List (Call fl.Float)) (s : State fl env) → Grows s → Grows (run_calls fl env cs s)
  unfolding run_calls
  Preserves-calls [] s h = h
  Preserves-calls (c ∷ cs) s h = Preserves-calls cs (run_call fl env c s) (Preserves-call c s h)
