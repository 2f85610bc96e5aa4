-- ===== src/Projects/Crash/Triple.antt =====
-- What holds after a process: of its answer, when it raises, and when it is killed.
use code_explorer.Base.{ℕ, ◌≡◌, refl, inl, inr, ◌⊎◌}
use code_explorer.Projects.Crash.{
  Failure, Reply, answer, exception, killed, Fate, goes_through, raises, killed_before,
  killed_after, Site, Process, ◌>>=◌, try, look, pure, throw, effect, follow, caught, befall,
}

-- `Alive` holds of the files that a killed process leaves.
module _ {F : Type 0} (Alive : F → Type 0) where
  abbrev pub Holds : {A : Type 0} → (A → F → Type 0) → (F → Type 0) → Reply A → F → Type 0
  Holds Then Raised (answer value) files = Then value files
  Holds Then Raised (exception e) files = Raised files
  Holds Then Raised killed files = Alive files

  pub record Triple {A : Type 0} (Before : F → Type 0) (step : Process F A) (Then : A → F → Type 0)
      (Raised : F → Type 0) : Type 0 where
    pub at :
        (site : Site F) → Before site.files → Holds Then Raised (step site).0 (step site).1.files

  pub Triple-bind :
      {A B : Type 0} {Before : F → Type 0} {Raised : F → Type 0} {Middle : A → F → Type 0}
      {Then : B → F → Type 0} (step : Process F A) (rest : A → Process F B)
      → Triple Before step Middle Raised
      → ((a : A) → Triple (Middle a) (rest a) Then Raised)
      → Triple Before (step >>= rest) Then Raised
  unfolding ◌>>=◌
  Triple-bind {A} {B} {Before} {Raised} {Middle} {Then} step rest first second = record {
    at = λ site before. on (step site).0 (step site).1 (first.at site before);
  }
    where
      on :
          (r : Reply A) (s : Site F)
          → Holds Middle Raised r s.files
          → Holds Then Raised (follow r rest s).0 (follow r rest s).1.files
      on (answer value) s h = (second value).at s h
      on (exception e) s h = h
      on killed s h = h

  pub Triple-try :
      {A B : Type 0} {Before : F → Type 0} {Inner Raised : F → Type 0} {Middle : A → F → Type 0}
      {Then : B → F → Type 0} (step : Process F A) (handler : Process F B) (rest : A → Process F B)
      → Triple Before step Middle Inner
      → Triple Inner handler Then Raised
      → ((a : A) → Triple (Middle a) (rest a) Then Raised)
      → Triple Before (try step handler rest) Then Raised
  unfolding try
  Triple-try {A} {B} {Before} {Inner} {Raised} {Middle} {Then} step handler rest first second
        third =
      record { at = λ site before. on (step site).0 (step site).1 (first.at site before) }
    where
      on :
          (r : Reply A) (s : Site F)
          → Holds Middle Inner r s.files
          → Holds Then Raised (caught handler rest r s).0 (caught handler rest r s).1.files
      on (answer value) s h = (third value).at s h
      on (exception e) s h = second.at s h
      on killed s h = h

  -- Where nothing goes wrong, only what follows a change that goes through has to be shown.
  pub Triple-effect :
      {Before Raised : F → Type 0} {Then : Unit → F → Type 0} (fate : ℕ → Fate) (Faulty : Type 0)
      (mode : (t : ℕ) → (fate t ≡ goes_through) ⊎ Faulty) (change : F → F)
      → ((f : F) → Before f → Then tt (change f) × (Faulty → Raised f × Alive f × Alive (change f)))
      → Triple Before (effect fate change) Then Raised
  unfolding effect
  Triple-effect {Before} {Raised} {Then} fate Faulty mode change h = record {
    at = λ site before. elim (mode site.tick) [
      | inl e ↦ rw e (h site.files before).0
      | inr bad ↦ on (fate site.tick) site (h site.files before).0 ((h site.files before).1 bad)
    ];
  }
    where
      on :
          (d : Fate) (s : Site F)
          → Then tt (change s.files)
          → Raised s.files × Alive s.files × Alive (change s.files)
          → Holds Then Raised (befall d change s).0 (befall d change s).1.files
      on goes_through s t k = t
      on raises s t k = k.0
      on killed_before s t k = k.1
      on killed_after s t k = k.2

  pub Triple-look :
      {A : Type 0} {Before Raised : F → Type 0} (query : F → A)
      → Triple Before (look query) (λ a f. Before f × (query f ≡ a)) Raised
  Triple-look query = record { at = λ site before. (before, refl) }

  pub Triple-pure :
      {A : Type 0} {Raised : F → Type 0} (Then : A → F → Type 0) (value : A)
      → Triple (Then value) (pure value) Then Raised
  Triple-pure Then value = record { at = λ site before. before }

  pub Triple-throw :
      {A : Type 0} {Raised : F → Type 0} {Then : A → F → Type 0} (e : Failure)
      → Triple Raised (throw e) Then Raised
  Triple-throw e = record { at = λ site before. before }

  pub Triple-weaken :
      {A : Type 0} {Before Before' Raised Raised' : F → Type 0} {Then Then' : A → F → Type 0}
      (step : Process F A)
      → ((f : F) → Before' f → Before f)
      → ((a : A) (f : F) → Then a f → Then' a f)
      → ((f : F) → Raised f → Raised' f)
      → Triple Before step Then Raised
      → Triple Before' step Then' Raised'
  Triple-weaken {A} {Raised} {Raised'} {Then} {Then'} step b t r h = record {
    at = λ site before. on (step site).0 (step site).1.files (h.at site (b site.files before));
  }
    where
      on : (q : Reply A) (f : F) → Holds Then Raised q f → Holds Then' Raised' q f
      on (answer value) f k = t value f k
      on (exception e) f k = r f k
      on killed f k = k
