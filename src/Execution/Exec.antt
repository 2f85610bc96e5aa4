-- ===== src/Execution/Exec.antt =====
-- Code that reads and writes the database and may raise. What was committed before a raise stays,
-- so the state comes back beside the error too.
use code_explorer.Base.{◌≡◌, inl, inr}
use code_explorer.Execution.Result.{Error, Outcome, returned, raised, outcome_cases}

abbrev pub Action : Type 0 → Type 0 → Type 0
Action State Value = State → Outcome Value × State

-- What follows a step: its value goes on, an error passes by.
abbrev pub resume : {State A B : Type 0} → Outcome A → (A → Action State B) → Action State B
resume (returned value) rest state = rest value state
resume (raised error) rest state = (raised error, state)

infixl 10 ◌>>=◌ ◌>>◌
unfoldable pub ◌>>=◌ : {State A B : Type 0} → Action State A → (A → Action State B) → Action State B
◌>>=◌ step rest state = resume (step state).0 rest (step state).1

abbrev pub ◌>>◌ : {State A B : Type 0} → Action State A → Action State B → Action State B
step >> rest = step >>= λ _. rest

abbrev pub raise : {State A : Type 0} → Error → Action State A
raise error state = (raised error, state)

abbrev pub from_result : {State A : Type 0} → Outcome A → Action State A
from_result outcome state = (outcome, state)

abbrev pub pure : {State A : Type 0} → A → Action State A
pure value state = (returned value, state)

abbrev pub reads : {State A : Type 0} → (State → A) → Action State A
reads query state = (returned (query state), state)

abbrev pub handled : {State A : Type 0} → (Error → Action State A) → Outcome A → Action State A
handled handler (raised error) state = handler error state
handled handler (returned value) state = (returned value, state)

-- `try` with one handler for every exception
unfoldable pub attempt :
    {State A : Type 0} → Action State A → (Error → Action State A) → Action State A
attempt step handler state = handled handler (step state).0 (step state).1

-- What holds before the action holds after it, also when it raises.
pub record Preserves {State A : Type 0} (Inv : State → Type 0) (step : Action State A)
    : Type 0 where
  pub at : (state : State) → Inv state → Inv (step state).1

-- A sequence that returns has returned from its first part, and goes on from there.
pub returned_of_bind :
    {State A B : Type 0} (step : Action State A) (rest : A → Action State B) (state : State) (b : B)
    → ((step >>= rest) state).0 ≡ returned b
    → (a : A) × ((step state).0 ≡ returned a) × ((step >>= rest) state ≡ rest a (step state).1)
unfolding ◌>>=◌
returned_of_bind step rest state b h = elim (outcome_cases (step state).0) [
  | inl (a, e) ↦ (a, e, rw (e, resume))
  | inr (x, e) ↦ absurd (cc (rw (e, resume) at h))
]

module _ {State A : Type 0} (Inv : State → Type 0) (step : Action State A) where
  -- An action that only reads, returns or raises.
  pub Preserves-still : ((state : State) → (step state).1 ≡ state) → Preserves Inv step
  Preserves-still same = record { at = λ state inv. rw (same state) inv }

  pub Preserves-bind :
      {B : Type 0} (rest : A → Action State B)
      → Preserves Inv step
      → ((a : A) → Preserves Inv (rest a))
      → Preserves Inv (step >>= rest)
  unfolding ◌>>=◌
  Preserves-bind rest before after = record {
    at = λ state inv.
        let inv' = before.at state inv in
        elim (outcome_cases (step state).0) [
          | inr (_, error) ↦ rw (error, resume) inv'
          | inl (a, value) ↦ rw (value, resume) ((after a).at (step state).1 inv')
        ];
  }
