-- ===== src/Execution/Samples.antt =====
-- A clock, a store and settings on which the code of backend/app/execution can be run.
use Prim.Native.String.{count}
use code_explorer.Base.{
  ℕ, zero, suc, ◌+◌, ◌≤◌, max, String, true, Option, none, some, List, [], ◌∷◌, ◌≡◌, refl, arith,
  All, In, All-map, inl, inr, leb, ltb, if◌then◌else◌, Option-cases,
}
use text.Mathlib.TextLemmas.{length-cons}
use code_explorer.Execution.Contracts.{Floats}
use code_explorer.Execution.Store.{Task, Env, IsSqlite}

unfoldable pub unary : ℕ → String
unary zero = ""
unary (suc n) = String.◌∷◌ "1" (unary n)

pub count-unary : (n : ℕ) → count (unary n) ≡ n
unfolding unary
count-unary zero = refl
count-unary (suc n) = omega (arith, length-cons "1" (unary n), count-unary n)

abbrev pub floats : Floats
floats = record {
  Float = ℕ;
  of_ℕ = λ n. n;
  gt = λ a b. ltb b a;
  le = leb;
  str = unary;
  parse = count;
  parse-str = count-unary;
}

unfoldable pub older : Task → Option Task → Task
older t none = t
older t (some u) = if leb t.created_at u.created_at then t else u

unfoldable pub oldest : List Task → Option Task
oldest [] = none
oldest (t ∷ ts) = some (older t (oldest ts))

unfoldable pub next_key : List ℕ → ℕ
next_key [] = 1
next_key (k ∷ ks) = max (suc k) (next_key ks)

oldest-In : (ts : List Task) (t : Task) → oldest ts ≡ some t → In t ts
unfolding oldest older
oldest-In [] t h = cc
oldest-In (u ∷ ts) t h = elim (Option-cases (oldest ts)) [
  | inl e ↦ ground (arith, e)
  | inr (v, e) ↦ ground (arith, e, oldest-In ts v e)
]

oldest-none : (ts : List Task) → oldest ts ≡ none → ts ≡ []
unfolding oldest
oldest-none [] h = refl
oldest-none (t ∷ ts) h = cc

oldest-first :
    (ts : List Task) (t : Task) → oldest ts ≡ some t → All (λ u. t.created_at ≤ u.created_at) ts
unfolding oldest older
oldest-first [] t h = tt
oldest-first (u ∷ ts) t h = elim (Option-cases (oldest ts)) [
  | inl e ↦ (ground (arith, e), rw (oldest-none ts e) tt)
  | inr (v, e) ↦
      (t-le-u v e, All-map _ _ ts (λ x _ q. omega (arith, q, t-le-v v e)) (oldest-first ts v e))
]
  where
    t-le-u : (v : Task) → oldest ts ≡ some v → t.created_at ≤ u.created_at
    t-le-u v e = ground (arith, e)

    t-le-v : (v : Task) → oldest ts ≡ some v → t.created_at ≤ v.created_at
    t-le-v v e = ground (arith, e)

next_key_above : (ks : List ℕ) → All (λ k. suc k ≤ next_key ks) ks
unfolding next_key
next_key_above [] = tt
next_key_above (k ∷ ks) = (omega arith, All-map _ _ ks (λ j _ h. omega arith) (next_key_above ks))

abbrev pub steady : Env
steady = record {
  time = λ n. 100 + n;
  commits = λ _. true;
  oldest = oldest;
  newest_first = λ ts. ts;
  next_key = next_key;
}

pub steady-IsSqlite : IsSqlite steady
steady-IsSqlite = record {
  oldest_in = oldest-In;
  oldest_first = oldest-first;
  oldest_none = oldest-none;
  next_key_above = next_key_above;
}
