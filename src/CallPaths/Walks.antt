-- ===== src/CallPaths/Walks.antt =====
-- Walks along call edges, described without the search of path_finder.py, and the lists it keeps.
use code_explorer.Base.{
  String, Bool, true, List, [], ◌∷◌, ◌++◌, map, ◌==◌, ◌≡◌, refl, arith, sym, ap, ◌∙◌, ◌⊎◌, inl, inr,
  In, select, eq_iff,
}
use code_explorer.CallPaths.{Edge, StructuralPath, last, step, insert, sort, adjacent}

-- `es` leads from `u` to `v` along edges of the graph.
abbrev pub Walk : List Edge → String → List Edge → String → Type 0
Walk calls u [] v = u ≡ v
Walk calls u (e ∷ es) v = In e calls × (e.source ≡ u) × Walk calls e.target es v

abbrev pub Distinct : List String → Type 0
Distinct [] = Unit
Distinct (x ∷ xs) = (In x xs → ⊥) × Distinct xs

abbrev pub targets_of : List Edge → List String
targets_of es = map (λ (e : Edge). e.target) es

-- A path that goes on along the edges.
abbrev pub grow : StructuralPath → List Edge → StructuralPath
grow p [] = p
grow p (e ∷ es) = grow (step p e) es

pub last-append : (x y : String) (xs : List String) → last x (xs ++ y ∷ []) ≡ y
last-append x y [] = refl
last-append x y (z ∷ xs) = last-append z y xs

pub Walk-snoc :
    (calls : List Edge) (u : String) (es : List Edge) (v : String) (e : Edge)
    → Walk calls u es v
    → In e calls
    → e.source ≡ v
    → Walk calls u (es ++ e ∷ []) e.target
Walk-snoc calls u [] v e w m s = (m, s ∙ sym w, refl)
Walk-snoc calls u (f ∷ es) v e (m', s', w) m s = (m', s', Walk-snoc calls f.target es v e w m s)

pub In-append-left : {A : Type 0} (a : A) (xs ys : List A) → In a xs → In a (xs ++ ys)
In-append-left a [] ys m = absurd m
In-append-left a (x ∷ xs) ys (inl e) = inl e
In-append-left a (x ∷ xs) ys (inr m) = inr (In-append-left a xs ys m)

pub In-append-last : {A : Type 0} (a : A) (xs : List A) → In a (xs ++ a ∷ [])
In-append-last a [] = inl refl
In-append-last a (x ∷ xs) = inr (In-append-last a xs)

pub In-append-split : {A : Type 0} (a b : A) (xs : List A) → In a (xs ++ b ∷ []) → In a xs ⊎ (a ≡ b)
In-append-split a b [] (inl e) = inr e
In-append-split a b [] (inr m) = absurd m
In-append-split a b (x ∷ xs) (inl e) = inl (inl e)
In-append-split a b (x ∷ xs) (inr m) = elim (In-append-split a b xs m) [
  | inl m' ↦ inl (inr m')
  | inr e ↦ inr e
]

pub Distinct-snoc :
    (xs : List String) (y : String) → Distinct xs → (In y xs → ⊥) → Distinct (xs ++ y ∷ [])
Distinct-snoc [] y d n = (λ m. m, tt)
Distinct-snoc (x ∷ xs) y (n', d) n = (
  λ m. elim (In-append-split x y xs m) [ inl m' ↦ n' m' | inr e ↦ n (inl (sym e)) ],
  Distinct-snoc xs y d (λ m. n (inr m)),
)

pub In-select :
    {A : Type 0} (p : A → Bool) (a : A) (xs : List A) → In a (select p xs) → In a xs × (p a ≡ true)
In-select p a [] m = absurd m
In-select p a (x ∷ xs) m = ground (arith, In-select p a xs, λ (e : a ≡ x). ap p e)

pub select-In :
    {A : Type 0} (p : A → Bool) (a : A) (xs : List A) → In a xs → p a ≡ true → In a (select p xs)
select-In p a [] m h = absurd m
select-In p a (x ∷ xs) (inl e) h = ground (arith, ap p e)
select-In p a (x ∷ xs) (inr m) h = ground (arith, select-In p a xs m h)

pub In-insert : (a e : Edge) (es : List Edge) → In a (insert e es) → In a (e ∷ es)
unfolding insert
In-insert a e [] m = m
In-insert a e (f ∷ es) m = ground (arith, In-insert a e es)

pub insert-In : (a e : Edge) (es : List Edge) → In a (e ∷ es) → In a (insert e es)
unfolding insert
insert-In a e [] m = m
insert-In a e (f ∷ es) m = ground (arith, insert-In a e es)

pub In-sort : (a : Edge) (es : List Edge) → In a (sort es) → In a es
unfolding sort
In-sort a [] m = m
In-sort a (e ∷ es) m = elim (In-insert a e (sort es) m) [
  | inl q ↦ inl q
  | inr m' ↦ inr (In-sort a es m')
]

pub sort-In : (a : Edge) (es : List Edge) → In a es → In a (sort es)
unfolding sort
sort-In a [] m = m
sort-In a (e ∷ es) (inl q) = insert-In a e (sort es) (inl q)
sort-In a (e ∷ es) (inr m) = insert-In a e (sort es) (inr (sort-In a es m))

-- The edges that the search follows from a node are those of the graph that leave it.
pub In-adjacent :
    (calls : List Edge) (u : String) (e : Edge)
    → In e (adjacent calls u)
    → In e calls × (e.source ≡ u)
unfolding adjacent
In-adjacent calls u e m =
    let k = In-select (λ (f : Edge). f.source == u) e calls (In-sort e _ m) in
    (k.0, (eq_iff e.source u).0 k.1)

pub adjacent-In :
    (calls : List Edge) (u : String) (e : Edge)
    → In e calls
    → e.source ≡ u
    → In e (adjacent calls u)
unfolding adjacent
adjacent-In calls u e m s =
    sort-In e _ (select-In (λ (f : Edge). f.source == u) e calls m ((eq_iff e.source u).1 s))

pub targets_of-append :
    (es : List Edge) (e : Edge) → targets_of (es ++ e ∷ []) ≡ targets_of es ++ e.target ∷ []
targets_of-append [] e = refl
targets_of-append (f ∷ es) e = ap (λ xs. f.target ∷ xs) (targets_of-append es e)

append_nil : {A : Type 0} (xs : List A) → xs ++ [] ≡ xs
append_nil [] = refl
append_nil (x ∷ xs) = ap (λ l. x ∷ l) (append_nil xs)

append_assoc : {A : Type 0} (xs ys zs : List A) → (xs ++ ys) ++ zs ≡ xs ++ (ys ++ zs)
append_assoc [] ys zs = refl
append_assoc (x ∷ xs) ys zs = ap (λ l. x ∷ l) (append_assoc xs ys zs)

pub edges-grow : (p : StructuralPath) (es : List Edge) → (grow p es).edges ≡ p.edges ++ es
edges-grow p [] = sym (append_nil p.edges)
edges-grow p (e ∷ es) = edges-grow (step p e) es ∙ append_assoc p.edges (e ∷ []) es
