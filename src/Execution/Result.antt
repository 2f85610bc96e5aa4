-- ===== src/Execution/Result.antt =====
-- What a call gives back: a value, or the exception that it raised.
use code_explorer.Base.{ℕ, String, ◌≡◌, refl, ◌⊎◌, inl, inr}

pub data Error : Type 0 where
  -- `ValueError(message)`
  value_error : String → Error
  -- `ExecutionError(message, status_code)`
  execution_error : String → ℕ → Error
  -- any other exception: SQLite, the file system, Docker
  fault : Error

pub data Outcome (A : Type 0) : Type 0 where
  returned : A → Outcome A
  raised : Error → Outcome A

infixl 10 ◌>>=◌ ◌>>◌
abbrev pub ◌>>=◌ : {A B : Type 0} → Outcome A → (A → Outcome B) → Outcome B
returned value >>= rest = rest value
raised error >>= rest = raised error

abbrev pub ◌>>◌ : {B : Type 0} → Outcome Unit → Outcome B → Outcome B
check >> rest = check >>= λ _. rest

pub outcome_cases :
    {A : Type 0} (o : Outcome A)
    → ((value : A) × (o ≡ returned value)) ⊎ ((error : Error) × (o ≡ raised error))
outcome_cases (returned value) = inl (value, refl)
outcome_cases (raised error) = inr (error, refl)

-- A chain that returns has returned from its first part.
pub chain_returned :
    {A B : Type 0} (first_part : Outcome A) (rest : A → Outcome B) {b : B}
    → (first_part >>= rest) ≡ returned b
    → (value : A) × (first_part ≡ returned value) × (rest value ≡ returned b)
chain_returned (raised error) rest e = cc
chain_returned (returned value) rest e = (value, refl, e)
