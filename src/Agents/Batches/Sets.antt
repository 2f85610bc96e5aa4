-- ===== src/Agents/Batches/Sets.antt =====
-- Lists as sets of texts, under the operations of batching.py.
use Prim.Native.String.{compare}
use text.Mathlib.Text.{is_le}
use code_explorer.Base.{
  suc, ◌≤◌, String, true, false, ◌||◌, List, [], ◌∷◌, ◌++◌, ◌==◌, ◌≡◌, refl, arith, ◌∙◌, inl, inr,
  All, All-In, All-map, All-of, elem, elem_iff, eq_iff, length, Bool-cases,
}
use code_explorer.Agents.Batches.{add, add_all, insert_name, sorted, is_subset}

pub elem-add : (i n : String) (ns : List String) → elem i (add n ns) ≡ (i == n) || elem i ns
elem-add i n ns = elim (Bool-cases (elem n ns)) [
  | inl e ↦
      rw e (elim (Bool-cases (i == n)) [ inl q ↦ rw (q, (eq_iff i n).0 q) e | inr q ↦ rw q refl ])
  | inr e ↦ rw e refl
]

pub elem-add_all :
    (i : String) (xs ns : List String) → elem i (add_all xs ns) ≡ elem i xs || elem i ns
elem-add_all i [] ns = refl
elem-add_all i (x ∷ xs) ns = elem-add i x (add_all xs ns) ∙ ground (arith, elem-add_all i xs ns)

module _ (P : String → Type 0) where
  pub All-elem : (xs : List String) (i : String) → All P xs → elem i xs ≡ true → P i
  All-elem xs i h m = All-In P xs i h ((elem_iff i xs).0 m)

  pub All-subset : (xs ys : List String) → is_subset xs ys ≡ true → All P ys → All P xs
  All-subset [] ys s h = tt
  All-subset (x ∷ xs) ys s h =
      (All-elem ys x h (ground (arith, s)), All-subset xs ys (ground (arith, s)) h)

  pub All-add : (n : String) (ns : List String) → P n → All P ns → All P (add n ns)
  All-add n ns p h = elim (Bool-cases (elem n ns)) [ inl e ↦ rw e h | inr e ↦ rw e (p, h) ]

  pub All-add_all : (xs ns : List String) → All P xs → All P ns → All P (add_all xs ns)
  All-add_all [] ns h k = k
  All-add_all (x ∷ xs) ns (p, h) k = All-add x (add_all xs ns) p (All-add_all xs ns h k)

  pub All-insert_name : (n : String) (ns : List String) → P n → All P ns → All P (insert_name n ns)
  All-insert_name n [] p h = (p, tt)
  All-insert_name n (m ∷ ns) p (q, h) = elim (Bool-cases (is_le (compare n m))) [
    | inl e ↦ rw e (p, (q, h))
    | inr e ↦ rw e (q, All-insert_name n ns p h)
  ]

  pub All-sorted : (ns : List String) → All P ns → All P (sorted ns)
  All-sorted [] h = tt
  All-sorted (n ∷ ns) (p, h) = All-insert_name n (sorted ns) p (All-sorted ns h)

pub All-self : (xs : List String) → All (λ i. elem i xs ≡ true) xs
All-self xs = All-map (λ _. Unit {0}) _ xs (λ i m _. (elem_iff i xs).1 m) (All-of _ (λ _. tt) xs)

pub length-add : (n : String) (ns : List String) → length (add n ns) ≤ suc (length ns)
length-add n ns = elim (Bool-cases (elem n ns)) [
  | inl e ↦ rw e (omega arith)
  | inr e ↦ rw e (omega arith)
]

-- Lists of which no two share a text.
unfoldable pub Apart : List (List String) → Type 0
Apart [] = Unit
Apart (xs ∷ xss) = All (λ ys. All (λ i. elem i xs ≡ false) ys) xss × Apart xss

-- All texts of the lists are among those that are done.
abbrev pub Done : List String → List (List String) → Type 0
Done done xss = All (λ xs. All (λ i. elem i done ≡ true) xs) xss

All-append-one :
    (P : List String → Type 0) (xss : List (List String)) (xs : List String)
    → All P xss
    → P xs
    → All P (xss ++ xs ∷ [])
All-append-one P [] xs h p = (p, tt)
All-append-one P (ys ∷ xss) xs (q, h) p = (q, All-append-one P xss xs h p)

not_done :
    (done ys : List String) (i : String)
    → All (λ j. elem j done ≡ true) ys
    → elem i done ≡ false
    → elem i ys ≡ false
not_done done ys i d n = elim (Bool-cases (elem i ys)) [
  | inl e ↦ cc (All-elem (λ j. elem j done ≡ true) ys i d e, n)
  | inr e ↦ e
]

-- A list of new texts stands apart from the lists that are done.
pub Apart-append :
    (done xs : List String) (xss : List (List String))
    → Apart xss
    → Done done xss
    → All (λ i. elem i done ≡ false) xs
    → Apart (xss ++ xs ∷ [])
unfolding Apart
Apart-append done xs [] a d f = (tt, tt)
Apart-append done xs (ys ∷ xss) (a, as') (d, ds) f = (
  All-append-one _ xss xs a (All-map _ _ xs (λ i m n. not_done done ys i d n) f),
  Apart-append done xs xss as' ds f,
)

pub Done-append :
    (done xs : List String) (xss : List (List String))
    → Done done xss
    → All (λ i. elem i done ≡ true) xs
    → Done done (xss ++ xs ∷ [])
Done-append done xs xss d h = All-append-one _ xss xs d h

pub Done-more :
    (done more : List String) (xss : List (List String))
    → Done done xss
    → ((i : String) → elem i done ≡ true → elem i more ≡ true)
    → Done more xss
Done-more done more xss d k = All-map _ _ xss (λ xs _ h. All-map _ _ xs (λ i _ e. k i e) h) d
