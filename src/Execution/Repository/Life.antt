-- ===== src/Execution/Repository/Life.antt =====
-- The life of a row of `execution_tasks`: the status changes that are allowed, what may change with
-- them, and the same for whole tables.
use code_explorer.Base.{
  Bool, true, false, not, none, List, [], ◌∷◌, ◌++◌, ◌≡◌, ◌≢◌, refl, arith, ◌∙◌, ap, All,
  Bool-cases, inl, inr,
}
use code_explorer.Execution.Contracts.{
  Status, queued, running, cancel_requested, cancelled, is_terminal, is_some,
}
use code_explorer.Execution.Store.{StatusText, known, other, Task, update_where}
use code_explorer.Execution.Repository.{is_queued, is_active, is_open}

-- One change of status.
pub data Step : StatusText → StatusText → Type 0 where
  claim : Step (known queued) (known running)
  cancel_early : Step (known queued) (known cancelled)
  ask : Step (known running) (known cancel_requested)
  end : (s : StatusText) (e : Status) → is_active s ≡ true → is_terminal e ≡ true → Step s (known e)

pub data Life (s : StatusText) : StatusText → Type 0 where
  stay : Life s s
  next : {t u : StatusText} → Life s t → Step t u → Life s u

pub Life-trans : {s t u : StatusText} → Life s t → Life t u → Life s u
Life-trans l stay = l
Life-trans l (next m st) = next (Life-trans l m) st

abbrev pub is_ended : StatusText → Bool
is_ended s = not (is_open s)

Step-ended : {t u : StatusText} → Step t u → is_ended t ≡ false
Step-ended claim = refl
Step-ended cancel_early = refl
Step-ended ask = refl
Step-ended (end s e a b) = ground arith

Step-started : {t u : StatusText} → Step t u → is_queued u ≡ false
Step-started claim = refl
Step-started cancel_early = refl
Step-started ask = refl
Step-started (end s e a b) = ground arith

-- A status with no way on stays.
pub Life-ended : {s t : StatusText} → Life s t → is_ended s ≡ true → t ≡ s
Life-ended stay h = refl
Life-ended (next l st) h = ground (arith, Life-ended l h, Step-ended st)

-- No way leads back to `queued`.
pub Life-started : {s t : StatusText} → Life s t → is_queued s ≡ false → is_queued t ≡ false
Life-started stay h = h
Life-started (next l st) h = Step-started st

-- A row without the columns that methods write.
abbrev pub frozen : Task → Task
frozen r = record r {
  status = known queued;
  worker_id = none;
  exit_code = none;
  error = none;
  output_truncated = false;
  updated_at = 0;
  started_at = none;
  finished_at = none;
}

-- `r'` is what `r` may become.
pub record Follows (r r' : Task) : Type 0 where
  pub fixed : frozen r' ≡ frozen r
  pub life : Life r.status r'.status
  pub owner :
      is_queued r.status ≡ false → (r'.worker_id ≡ r.worker_id) × (r'.started_at ≡ r.started_at)
  pub settled : is_ended r.status ≡ true → r' ≡ record r { updated_at = r'.updated_at }

pub Follows-refl : (r : Task) → Follows r r
Follows-refl r = record {
  fixed = refl;
  life = stay;
  owner = λ _. (refl, refl);
  settled = λ _. refl;
}

pub Follows-trans : {r s t : Task} → Follows r s → Follows s t → Follows r t
Follows-trans {r} {s} {t} f g = record {
  fixed = g.fixed ∙ f.fixed;
  life = Life-trans f.life g.life;
  owner = λ h.
      let (w, b) = f.owner h in let (w', b') = g.owner (Life-started f.life h) in (w' ∙ w, b' ∙ b);
  settled = λ h.
      g.settled (rw (Life-ended f.life h) h)
      ∙ ap (λ (u : Task). record u { updated_at = t.updated_at }) (f.settled h);
}

-- The rows of the first table, in order, become those of the second, which may have more.
abbrev pub Evolves : List Task → List Task → Type 0
Evolves [] ts' = Unit
Evolves (t ∷ ts) [] = ⊥
Evolves (t ∷ ts) (t' ∷ ts') = Follows t t' × Evolves ts ts'

pub Evolves-refl : (ts : List Task) → Evolves ts ts
Evolves-refl [] = tt
Evolves-refl (t ∷ ts) = (Follows-refl t, Evolves-refl ts)

pub Evolves-trans : (ts us vs : List Task) → Evolves ts us → Evolves us vs → Evolves ts vs
Evolves-trans [] us vs h k = tt
Evolves-trans (t ∷ ts) [] vs h k = absurd h
Evolves-trans (t ∷ ts) (u ∷ us) [] h k = absurd k
Evolves-trans (t ∷ ts) (u ∷ us) (v ∷ vs) (h, hs) (k, ks) =
    (Follows-trans h k, Evolves-trans ts us vs hs ks)

pub Evolves-append : (ts us : List Task) → Evolves ts (ts ++ us)
Evolves-append [] us = tt
Evolves-append (t ∷ ts) us = (Follows-refl t, Evolves-append ts us)

pub Evolves-update_where :
    (p : Task → Bool) (f : Task → Task) (ts : List Task)
    → All (λ t. p t ≡ true → Follows t (f t)) ts
    → Evolves ts (update_where p f ts)
Evolves-update_where p f [] h = tt
Evolves-update_where p f (t ∷ ts) (h, hs) = (
  elim (Bool-cases (p t)) [ inl e ↦ rw e (h e) | inr e ↦ rw e (Follows-refl t) ],
  Evolves-update_where p f ts hs,
)

-- What the status says of the other columns.
abbrev pub Shape : StatusText → Task → Type 0
Shape (known queued) r =
    (r.worker_id ≡ none) × (r.started_at ≡ none) × (r.finished_at ≡ none) × (r.exit_code ≡ none)
Shape (known running) r =
    (is_some r.worker_id ≡ true) × (is_some r.started_at ≡ true) × (r.finished_at ≡ none)
Shape (known cancel_requested) r =
    (is_some r.worker_id ≡ true) × (is_some r.started_at ≡ true) × (r.finished_at ≡ none)
Shape (known cancelled) r = is_some r.finished_at ≡ true
Shape (known _) r =
    (is_some r.worker_id ≡ true) × (is_some r.started_at ≡ true) × (is_some r.finished_at ≡ true)
Shape (other _) r = ⊥

abbrev pub IsSound : Task → Type 0
IsSound r = Shape r.status r

abbrev pub UniqueIds : List Task → Type 0
UniqueIds [] = Unit
UniqueIds (t ∷ ts) = All (λ u. t.id ≢ u.id) ts × UniqueIds ts

pub record IsWellFormed (ts : List Task) : Type 0 where
  pub unique : UniqueIds ts
  pub sound : All IsSound ts
