-- ===== src/Projects/Crash.antt =====
-- Code that changes files and rows in a process that may be killed. Each change goes through, or
-- raises and changes nothing, or is the last thing that the process does.
pub mod Triple
use code_explorer.Base.{ℕ, suc, String}

pub data Failure : Type 0 where
  -- `ProjectDeletionError(message, status_code)`
  deletion_error : String → ℕ → Failure
  -- any other exception
  fault : Failure

pub data Reply (A : Type 0) : Type 0 where
  answer : A → Reply A
  exception : Failure → Reply A
  killed : Reply A

-- What becomes of a change.
pub data Fate : Type 0 where
  goes_through raises killed_before killed_after : Fate

-- `tick` counts the changes.
pub record Site (F : Type 0) : Type 0 where
  pub files : F
  pub tick : ℕ

abbrev pub Process : Type 0 → Type 0 → Type 0
Process F A = Site F → Reply A × Site F

abbrev pub follow : {F A B : Type 0} → Reply A → (A → Process F B) → Process F B
follow (answer value) rest site = rest value site
follow (exception e) rest site = (exception e, site)
follow killed rest site = (killed, site)

infixl 10 ◌>>=◌ ◌>>◌
unfoldable pub ◌>>=◌ : {F A B : Type 0} → Process F A → (A → Process F B) → Process F B
◌>>=◌ step rest site = follow (step site).0 rest (step site).1

abbrev pub ◌>>◌ : {F A B : Type 0} → Process F A → Process F B → Process F B
step >> rest = step >>= λ _. rest

abbrev pub pure : {F A : Type 0} → A → Process F A
pure value site = (answer value, site)

abbrev pub throw : {F A : Type 0} → Failure → Process F A
throw e site = (exception e, site)

abbrev pub look : {F A : Type 0} → (F → A) → Process F A
look query site = (answer (query site.files), site)

abbrev pub caught : {F A B : Type 0} → Process F B → (A → Process F B) → Reply A → Process F B
caught handler rest (answer value) site = rest value site
caught handler rest (exception _) site = handler site
caught handler rest killed site = (killed, site)

-- A statement of a `try` block whose handler is `except Exception`, and what follows it.
unfoldable pub try : {F A B : Type 0} → Process F A → Process F B → (A → Process F B) → Process F B
try step handler rest site = caught handler rest (step site).0 (step site).1

abbrev pub befall : {F : Type 0} → Fate → (F → F) → Process F Unit
befall goes_through change site =
    (answer tt, record { files = change site.files; tick = suc site.tick })
befall raises change site = (exception fault, record { files = site.files; tick = suc site.tick })
befall killed_before change site = (killed, record { files = site.files; tick = suc site.tick })
befall killed_after change site =
    (killed, record { files = change site.files; tick = suc site.tick })

unfoldable pub effect : {F : Type 0} → (ℕ → Fate) → (F → F) → Process F Unit
effect fate change site = befall (fate site.tick) change site
