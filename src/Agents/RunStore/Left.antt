-- ===== src/Agents/RunStore/Left.antt =====
-- Runs that do not wait, under the changes of rows that run_store.py makes.
use code_explorer.Base.{
  ℕ, String, Bool, true, false, ◌&&◌, Option, none, some, List, [], ◌∷◌, ◌++◌, ◌==◌, ◌≡◌, ◌≢◌, refl,
  arith, subst, ◌∙◌, inl, inr, All, eq_iff, Bool-cases,
}
use code_explorer.Execution.Contracts.{is_some}
use code_explorer.Agents.Store.{Run, Job, update_rows, first_row}
use code_explorer.Agents.Records.{
  AgentClaim, is_queued_run, taken, expired, cancelled_run, Field, set_status, set_provider,
  set_model, set_answer, set_error, unsupported, set_fields, set_field, claim_rows,
}
use code_explorer.Agents.RunStore.Rows.{All-update_rows, All-append, first_row-append}

-- The run is there, and it does not wait.
abbrev pub HasLeft : String → List Run → Type 0
HasLeft i rows =
    (is_some (first_row (λ r. r.id == i) rows) ≡ true) × All (λ u. is_queued_run i u ≡ false) rows

-- A change of rows that keeps identifiers and makes no run wait again.
abbrev pub KeepsLeft : (Run → Run) → Type 0
KeepsLeft f = (r : Run) → ((f r).id ≡ r.id) × ((f r).status ≡ "queued" → r.status ≡ "queued")

pub is_some-update_rows :
    (i : String) (p : Run → Bool) (f : Run → Run) (rows : List Run)
    → KeepsLeft f
    → is_some (first_row (λ r. r.id == i) (update_rows p f rows))
      ≡ is_some (first_row (λ r. r.id == i) rows)
is_some-update_rows i p f [] k = refl
is_some-update_rows i p f (r ∷ rows) k = ground (arith, k r, is_some-update_rows i p f rows k)

pub still_left :
    (i : String) (f : Run → Run) (u : Run)
    → KeepsLeft f
    → is_queued_run i u ≡ false
    → is_queued_run i (f u) ≡ false
still_left i f u k q = ground (arith, k u, eq_iff (f u).status "queued", eq_iff u.status "queued")

pub HasLeft-update_rows :
    (i : String) (p : Run → Bool) (f : Run → Run) (rows : List Run)
    → KeepsLeft f
    → HasLeft i rows
    → HasLeft i (update_rows p f rows)
HasLeft-update_rows i p f rows k (m, h) = (
  is_some-update_rows i p f rows k ∙ m,
  All-update_rows _ _ p f rows
      (λ u q. elim (Bool-cases (p u)) [ inl e ↦ rw e (still_left i f u k q) | inr e ↦ rw e q ]) h,
)

-- The row of a key that is there has another key than the new one.
pub other_key :
    (i : String) (rows : List Run) (r : Run)
    → is_some (first_row (λ u. u.id == r.id) rows) ≡ false
    → is_some (first_row (λ u. u.id == i) rows) ≡ true
    → (r.id == i) ≡ false
other_key i rows r n m = elim (Bool-cases (r.id == i)) [
  | inl e ↦ absurd (
      cc
        (subst (λ k. is_some (first_row (λ u. u.id == k) rows) ≡ false) ((eq_iff r.id i).0 e) n, m))
  | inr e ↦ e
]

pub HasLeft-append :
    (i : String) (rows : List Run) (r : Run)
    → is_some (first_row (λ u. u.id == r.id) rows) ≡ false
    → HasLeft i rows
    → HasLeft i (rows ++ r ∷ [])
HasLeft-append i rows r n (m, h) = (
  rw (first_row-append (λ u. u.id == i) rows (r ∷ []), m) refl,
  All-append _ rows (r ∷ []) h (rw (other_key i rows r n m) refl, tt),
)

-- `update` of run_store.py takes any status; the callers never set one back to queued.
abbrev pub KeepsStatus : Field → Type 0
KeepsStatus (set_status s) = s ≢ "queued"
KeepsStatus _ = Unit

pub KeepsLeft-set_field : (v : Field) → KeepsStatus v → KeepsLeft (set_field v)
KeepsLeft-set_field (set_status s) h r = (refl, λ e. absurd (h e))
KeepsLeft-set_field (set_provider p) h r = (refl, λ e. e)
KeepsLeft-set_field (set_model p) h r = (refl, λ e. e)
KeepsLeft-set_field (set_answer p) h r = (refl, λ e. e)
KeepsLeft-set_field (set_error p) h r = (refl, λ e. e)
KeepsLeft-set_field (unsupported p) h r = (refl, λ e. e)

pub KeepsLeft-set_fields :
    (values : List Field) → All KeepsStatus values → KeepsLeft (set_fields values)
KeepsLeft-set_fields [] h r = (refl, λ e. e)
KeepsLeft-set_fields (v ∷ vs) (h, hs) r =
    let one = KeepsLeft-set_field v h r in
    let more = KeepsLeft-set_fields vs hs (set_field v r) in (more.0 ∙ one.0, λ e. one.1 (more.1 e))

pub apart : (a b : String) → (a == b) ≡ false → a ≢ b
apart a b h e = cc ((eq_iff a b).1 e, h)

pub KeepsLeft-taken : (t : ℕ) → KeepsLeft (taken t)
KeepsLeft-taken t r = (refl, λ e. absurd (apart "running" "queued" refl e))

pub KeepsLeft-expired : (t : ℕ) → KeepsLeft (expired t)
KeepsLeft-expired t r = (refl, λ e. absurd (apart "failed" "queued" refl e))

pub KeepsLeft-cancelled_run : (t : ℕ) → KeepsLeft (cancelled_run t)
KeepsLeft-cancelled_run t r = elim (Bool-cases (r.status == "queued")) [
  | inl e ↦ (rw e refl, λ q. (eq_iff r.status "queued").0 e)
  | inr e ↦ rw e (refl, λ q. q)
]

pub not_running : (a i : String) → (a == i && "running" == "queued") ≡ false
not_running a i = elim (Bool-cases (a == i)) [ inl e ↦ rw e refl | inr e ↦ rw e refl ]

-- The table that the UPDATE of a claim writes has no waiting row of the key.
pub none_waits :
    (i : String) (t : ℕ) (rows : List Run)
    → All (λ u. is_queued_run i u ≡ false) (update_rows (is_queued_run i) (taken t) rows)
none_waits i t [] = tt
none_waits i t (r ∷ rows) = (
  elim (Bool-cases (is_queued_run i r)) [ inl e ↦ rw e (not_running r.id i) | inr e ↦ rw e e ],
  none_waits i t rows,
)

pub claim_rows-some :
    (o : Option Run) (p : Option Job) (v : AgentClaim) → claim_rows o p ≡ some v → is_some o ≡ true
claim_rows-some none p v h = cc
claim_rows-some (some r) p v h = refl
