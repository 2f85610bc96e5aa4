-- ===== src/Execution/Repository/Rows.antt =====
-- The updates that the methods of repository.py write, row by row and over a table.
use code_explorer.Base.{
  ℕ, String, Bool, true, List, [], ◌∷◌, ◌≡◌, ◌≢◌, refl, arith, sym, ap, subst, All, if◌then◌else◌,
  Bool-cases, inl, inr,
}
use code_explorer.Execution.Contracts.{
  Status, queued, running, cancel_requested, completed, cancelled, is_terminal, is_some,
}
use code_explorer.Execution.Store.{StatusText, known, other, Task, update_where}
use code_explorer.Execution.Repository.{is_queued, is_active, claimed_by, cancel_kind, cancel_row}
use code_explorer.Execution.Repository.Life.{
  stay, next, claim, cancel_early, ask, end, frozen, Follows, Evolves, Evolves-update_where, Shape,
  IsSound, UniqueIds, IsWellFormed,
}

-- A row may become another one, which is as sound.
pub record MayBecome (r r' : Task) : Type 0 where
  pub follows : Follows r r'
  pub keeps : IsSound r → IsSound r'

pub MayBecome-claimed_by :
    (w : String) (t : ℕ) (r : Task) → is_queued r.status ≡ true → MayBecome r (claimed_by w t r)
MayBecome-claimed_by w t r h = by_status r.status refl
  where
    by_status : (s : StatusText) → r.status ≡ s → MayBecome r (claimed_by w t r)
    by_status (known queued) e = record {
      follows = record {
        fixed = refl;
        life = rw e (next stay claim);
        owner = λ k. ground arith;
        settled = λ k. ground arith;
      };
      keeps = λ k. let q = subst (λ s. Shape s r) e k in (refl, refl, q.2);
    }
    by_status _ e = ground arith

-- An active row that is given a terminal status and an end.
pub MayBecome-ended :
    (r r' : Task) (e : Status)
    → is_active r.status ≡ true
    → is_terminal e ≡ true
    → r'.status ≡ known e
    → frozen r' ≡ frozen r
    → r'.worker_id ≡ r.worker_id
    → r'.started_at ≡ r.started_at
    → is_some r'.finished_at ≡ true
    → MayBecome r r'
MayBecome-ended r r' e act term st fr wk sa fin = record {
  follows = record {
    fixed = fr;
    life = rw st (next stay (end r.status e act term));
    owner = λ _. (wk, sa);
    settled = λ k. ground arith;
  };
  keeps = λ k. subst (λ s. Shape s r') (sym st) (shape r.status refl k e term);
}
  where
    ran :
        (s : StatusText)
        → r.status ≡ s
        → Shape s r
        → (is_some r.worker_id ≡ true) × (is_some r.started_at ≡ true)
    ran (known running) q k = (k.0, k.1)
    ran (known cancel_requested) q k = (k.0, k.1)
    ran _ q k = ground arith

    shape :
        (s : StatusText)
        → r.status ≡ s
        → Shape s r
        → (e : Status) → is_terminal e ≡ true
        → Shape (known e) r'
    shape s q k queued h = cc
    shape s q k running h = cc
    shape s q k cancel_requested h = cc
    shape s q k cancelled h = fin
    shape s q k _ h = let (a, b) = ran s q k in (rw wk a, rw sa b, fin)

pub MayBecome-touched : (r : Task) (t : ℕ) → MayBecome r (record r { updated_at = t })
MayBecome-touched r t = record {
  follows = record { fixed = refl; life = stay; owner = λ _. (refl, refl); settled = λ _. refl };
  keeps = λ k. touched_shape r.status k;
}
  where
    touched_shape : (s : StatusText) → Shape s r → Shape s (record r { updated_at = t })
    touched_shape (known queued) k = k
    touched_shape (known running) k = k
    touched_shape (known cancel_requested) k = k
    touched_shape (known cancelled) k = k
    touched_shape (known completed) k = k
    touched_shape (known _) k = k
    touched_shape (other _) k = k

pub MayBecome-cancel_row :
    (r : Task) (finished updated : ℕ)
    → MayBecome r (cancel_row (cancel_kind r.status) finished updated r)
MayBecome-cancel_row r finished updated = by_status r.status refl
  where
    by_status :
        (s : StatusText)
        → r.status ≡ s
        → MayBecome r (cancel_row (cancel_kind s) finished updated r)
    by_status (known queued) e = record {
      follows = record {
        fixed = refl;
        life = rw e (next stay cancel_early);
        owner = λ k. (refl, refl);
        settled = λ k. ground arith;
      };
      keeps = λ k. refl;
    }
    by_status (known running) e = record {
      follows = record {
        fixed = refl;
        life = rw e (next stay ask);
        owner = λ k. (refl, refl);
        settled = λ k. ground arith;
      };
      keeps = λ k. subst (λ s. Shape s r) e k;
    }
    by_status _ e = MayBecome-touched r updated

-- A table goes on to another one.
pub record Advances (ts ts' : List Task) : Type 0 where
  pub history : Evolves ts ts'
  pub formed : IsWellFormed ts'

module _ (p : Task → Bool) (f : Task → Task) where
  abbrev pub Fits : Task → Type 0
  Fits t = p t ≡ true → MayBecome t (f t)

  id-update : (t : Task) → Fits t → (if p t then f t else t).id ≡ t.id
  id-update t h = elim (Bool-cases (p t)) [
    | inl e ↦ rw e (ap (λ (r : Task). r.id) (h e).follows.fixed)
    | inr e ↦ rw e
  ]

  ids-update_where :
      (r : Task) (ts : List Task)
      → All Fits ts
      → All (λ u. r.id ≢ u.id) ts
      → All (λ u. r.id ≢ u.id) (update_where p f ts)
  ids-update_where r [] h u = tt
  ids-update_where r (t ∷ ts) (h, hs) (u, us) = (rw (id-update t h) u, ids-update_where r ts hs us)

  UniqueIds-update_where :
      (ts : List Task) → All Fits ts → UniqueIds ts → UniqueIds (update_where p f ts)
  UniqueIds-update_where [] h u = tt
  UniqueIds-update_where (t ∷ ts) (h, hs) (u, us) =
      (rw (id-update t h) (ids-update_where t ts hs u), UniqueIds-update_where ts hs us)

  IsSound-update_where :
      (ts : List Task) → All Fits ts → All IsSound ts → All IsSound (update_where p f ts)
  IsSound-update_where [] h s = tt
  IsSound-update_where (t ∷ ts) (h, hs) (s, ss) = (
    elim (Bool-cases (p t)) [ inl e ↦ rw e ((h e).keeps s) | inr e ↦ rw e s ],
    IsSound-update_where ts hs ss,
  )

  follows-update_where : (ts : List Task) → All Fits ts → Evolves ts (update_where p f ts)
  follows-update_where ts h = Evolves-update_where p f ts (weaken ts h)
    where
      weaken : (us : List Task) → All Fits us → All (λ t. p t ≡ true → Follows t (f t)) us
      weaken [] h = tt
      weaken (u ∷ us) (h, hs) = (λ e. (h e).follows, weaken us hs)

  pub Advances-update_where :
      (ts : List Task) → All Fits ts → IsWellFormed ts → Advances ts (update_where p f ts)
  Advances-update_where ts h w = record {
    history = follows-update_where ts h;
    formed = record {
      unique = UniqueIds-update_where ts h w.unique;
      sound = IsSound-update_where ts h w.sound;
    };
  }
