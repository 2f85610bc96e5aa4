-- ===== src/Agents/RunStore/Rows.antt =====
-- Rows under the updates that run_store.py writes.
use code_explorer.Base.{
  Bool, false, ◌||◌, List, [], ◌∷◌, ◌++◌, ◌≡◌, refl, arith, All, select, if◌then◌else◌,
}
use code_explorer.Execution.Contracts.{is_some}
use code_explorer.Agents.Store.{update_rows, first_row}

module _ {A : Type 0} where
  -- A property that the changed rows and the others have.
  pub All-update_rows :
      (P Q : A → Type 0) (p : A → Bool) (f : A → A) (rows : List A)
      → ((a : A) → P a → Q (if p a then f a else a))
      → All P rows
      → All Q (update_rows p f rows)
  All-update_rows P Q p f [] h k = tt
  All-update_rows P Q p f (a ∷ rows) h (k, ks) = (h a k, All-update_rows P Q p f rows h ks)

  pub All-trivial : (Q : A → Type 0) (rows : List A) → ((a : A) → Q a) → All Q rows
  All-trivial Q [] h = tt
  All-trivial Q (a ∷ rows) h = (h a, All-trivial Q rows h)

  pub All-append : (P : A → Type 0) (xs ys : List A) → All P xs → All P ys → All P (xs ++ ys)
  All-append P [] ys h k = k
  All-append P (x ∷ xs) ys (h, hs) k = (h, All-append P xs ys hs k)

  pub update_rows-none :
      (p : A → Bool) (f : A → A) (rows : List A)
      → All (λ a. p a ≡ false) rows
      → update_rows p f rows ≡ rows
  update_rows-none p f [] h = refl
  update_rows-none p f (a ∷ rows) (h, hs) = ground (arith, update_rows-none p f rows hs)

  pub select-none :
      (p : A → Bool) (rows : List A) → All (λ a. p a ≡ false) rows → select p rows ≡ []
  select-none p [] h = refl
  select-none p (a ∷ rows) (h, hs) = ground (arith, select-none p rows hs)

  -- Whether some row passes a test.
  pub first_row-none :
      (p : A → Bool) (rows : List A)
      → is_some (first_row p rows) ≡ false
      → All (λ a. p a ≡ false) rows
  first_row-none p [] h = tt
  first_row-none p (a ∷ rows) h = (ground (arith, h), first_row-none p rows (ground (arith, h)))

  pub none-first_row :
      (p : A → Bool) (rows : List A)
      → All (λ a. p a ≡ false) rows
      → is_some (first_row p rows) ≡ false
  none-first_row p [] h = refl
  none-first_row p (a ∷ rows) (h, hs) = ground (arith, none-first_row p rows hs)

  pub first_row-append :
      (p : A → Bool) (xs ys : List A)
      → is_some (first_row p (xs ++ ys)) ≡ is_some (first_row p xs) || is_some (first_row p ys)
  first_row-append p [] ys = refl
  first_row-append p (x ∷ xs) ys = ground (arith, first_row-append p xs ys)
