-- ===== src/Execution/Repository/Log/Resume.antt =====
-- `events_after` of repository.py, for a reader who asks for what comes after the last number, as the
-- stream of api/sse.py does.
use code_explorer.Base.{
  ℕ, ◌<◌, String, Bool, List, [], ◌∷◌, ◌++◌, ◌==◌, ◌≡◌, refl, ◌∙◌, sym, ap, subst, arith, eq_iff,
  ◌≤◌, ◌&&◌, ltb, select, In, All, Bool-cases, inl, inr,
}
use mathlib.Core.List.{append-nil}
use code_explorer.Execution.Result.{returned}
use code_explorer.Execution.Contracts.{Floats}
use code_explorer.Execution.Store.{Event, Env, IsSqlite, sequences}
use code_explorer.Execution.Repository.{State, events_after, in_order, insert_event}
use code_explorer.Execution.Repository.Calls.{Call, run_calls}
use code_explorer.Execution.Repository.Log.{IsIncreasing, GoesOn, sequences-append, Preserves-calls}

below_later : (c : ℕ) (ks js : List ℕ) → IsIncreasing (ks ++ js) → In c ks → All (λ j. c < j) js
below_later c [] js h m = absurd m
below_later c (k ∷ ks) js (h, hs) (inl e) = rw e (tail ks h)
  where
    tail : (ls : List ℕ) → All (λ j. k < j) (ls ++ js) → All (λ j. k < j) js
    tail [] h = h
    tail (l ∷ ls) (_, h) = tail ls h
below_later c (k ∷ ks) js (h, hs) (inr m) = below_later c ks js hs m

module _ {F : Type 0} (i : String) (c : ℕ) where
  -- The test of `events_after`.
  abbrev is_new : Event F → Bool
  is_new e = e.task_id == i && ltb c e.sequence

  select-old :
      (es fs : List (Event F))
      → All (λ e. (e.task_id ≡ i) → e.sequence ≤ c) es
      → select is_new (es ++ fs) ≡ select is_new fs
  select-old [] fs h = refl
  select-old (e ∷ es) fs (h, hs) = elim (Bool-cases (e.task_id == i)) [
    | inl q ↦ ground (arith, select-old es fs hs, h ((eq_iff e.task_id i).0 q))
    | inr q ↦ ground (arith, select-old es fs hs)
  ]

  select-later :
      (fs : List (Event F))
      → All (λ j. c < j) (sequences fs)
      → select is_new fs ≡ select (λ e. e.task_id == i) fs
  select-later [] h = refl
  select-later (f ∷ fs) (h, hs) = ground (arith, select-later fs hs, h)

module _ {F : Type 0} (p : Event F → Bool) where
  All-sequences-select :
      (n : ℕ) (es : List (Event F))
      → All (λ k. n < k) (sequences es)
      → All (λ k. n < k) (sequences (select p es))
  All-sequences-select n [] h = tt
  All-sequences-select n (e ∷ es) (h, hs) = elim (Bool-cases (p e)) [
    | inl q ↦ rw q (h, All-sequences-select n es hs)
    | inr q ↦ rw q (All-sequences-select n es hs)
  ]

  IsIncreasing-select :
      (es : List (Event F)) → IsIncreasing (sequences es) → IsIncreasing (sequences (select p es))
  IsIncreasing-select [] h = tt
  IsIncreasing-select (e ∷ es) (h, hs) = elim (Bool-cases (p e)) [
    | inl q ↦ rw q (All-sequences-select e.sequence es h, IsIncreasing-select es hs)
    | inr q ↦ rw q (IsIncreasing-select es hs)
  ]

IsIncreasing-later : (ks js : List ℕ) → IsIncreasing (ks ++ js) → IsIncreasing js
IsIncreasing-later [] js h = h
IsIncreasing-later (k ∷ ks) js (_, hs) = IsIncreasing-later ks js hs

module _ (fl : Floats) (env : Env) where
  in_order-IsIncreasing :
      (es : List (Event fl.Float)) → IsIncreasing (sequences es) → in_order fl env es ≡ es
  unfolding in_order insert_event
  in_order-IsIncreasing [] h = refl
  in_order-IsIncreasing (e ∷ []) h = refl
  in_order-IsIncreasing (e ∷ f ∷ es) ((h, _), hs) =
      rw (in_order-IsIncreasing (f ∷ es) hs) (ground (arith, h))

  -- Where SQLite gives each new event a number above all others, and the numbers in the table increase:
  -- a reader who has all the events of a task up to the number of one in the table, and asks for those
  -- after it when any methods of the repository have been called, gets exactly the events of the task
  -- that the calls have appended, in their order: none is left out and none comes twice.
  pub events_after_resumes :
      (cs : List (Call fl.Float)) (s : State fl env) (i : String) (c : ℕ)
      → IsSqlite env
      → IsIncreasing (sequences s.events)
      → In c (sequences s.events)
      → All (λ e. (e.task_id ≡ i) → e.sequence ≤ c) s.events
      → (more : List (Event fl.Float)) × ((run_calls fl env cs s).events ≡ s.events ++ more)
        × ((events_after fl env i c (run_calls fl env cs s)).0
            ≡ returned (select (λ e. e.task_id == i) more))
  unfolding events_after
  events_after_resumes cs s i c db h at seen =
      let g : GoesOn s.events (run_calls fl env cs s) =
        Preserves-calls fl env db s.events cs s
          (record { more = []; events = sym (append-nil s.events); increasing = h }) in
      let all : IsIncreasing (sequences s.events ++ sequences g.more) =
        subst IsIncreasing (ap sequences g.events ∙ sequences-append s.events g.more)
          g.increasing in
      let later = below_later c (sequences s.events) (sequences g.more) all at in
      let found : select (is_new i c) (run_calls fl env cs s).events
          ≡ select (λ e. e.task_id == i) g.more =
        ap (select (is_new i c)) g.events
        ∙ select-old i c s.events g.more seen
        ∙ select-later i c g.more later in
      let sorted = in_order-IsIncreasing (select (λ e. e.task_id == i) g.more) (
        IsIncreasing-select (λ e. e.task_id == i) g.more
          (IsIncreasing-later (sequences s.events) (sequences g.more) all)) in
      (g.more, g.events, ap (λ es. returned (in_order fl env es)) found ∙ ap returned sorted)
