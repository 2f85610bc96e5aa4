-- ===== src/CallPaths/Answers.antt =====
-- `find_variants` of path_finder.py as a whole: which paths an answer holds.
use code_explorer.Base.{
  ℕ, suc, ◌≤◌, String, Bool, ◌||◌, false, Option, some, List, [], ◌∷◌, map, ◌==◌, ◌≡◌, refl, arith,
  sym, ap, subst, ◌∙◌, ◌⊎◌, inl, inr, In, In-map, map-In, length, ltb, elem, Bool-cases, min,
}
use code_explorer.Execution.Contracts.{is_empty}
use code_explorer.Execution.Result.{returned}
use code_explorer.CallPaths.Walks.{Walk, grow, edges-grow}
use code_explorer.CallPaths.Closure.{IsClosure-relevant_to}
use code_explorer.CallPaths.Expand.{IsFull}
use code_explorer.CallPaths.Complete.{Owed, Owed-search}
use code_explorer.CallPaths.Sound.{IsFine, IsFine-start, IsSearch, Ends-search}
use code_explorer.CallPaths.{
  Edge, StructuralPath, Search, current, start, relevant_to, paths_to, search, mark, marked,
  answer_of, find_variants,
}

paths_to-marked :
    (b : Bool) (t : String) (m : List (String × List StructuralPath))
    → paths_to t (marked b m) ≡ map (mark b) (paths_to t m)
unfolding paths_to marked
paths_to-marked b t [] = refl
paths_to-marked b t ((u, ps) ∷ m) = ground (arith, paths_to-marked b t m)

IsFull-marked :
    (b : Bool) (m : List (String × List StructuralPath)) → IsFull m → IsFull (marked b m)
unfolding marked
IsFull-marked b [] f = tt
IsFull-marked b ((t, []) ∷ m) f = absurd f
IsFull-marked b ((t, p ∷ ps) ∷ m) f = IsFull-marked b m f

length-map : {A B : Type 0} (f : A → B) (xs : List A) → length (map f xs) ≡ length xs
length-map f [] = refl
length-map f (x ∷ xs) = ap suc (length-map f xs)

IsFine-mark :
    {cs : List Edge} {d : ℕ} {source : String} (b : Bool) (p : StructuralPath)
    → IsFine cs d source p
    → IsFine cs d source (mark b p)
unfolding mark
IsFine-mark b p f = record {
  starts = f.starts;
  visits = f.visits;
  walks = f.walks;
  distinct = f.distinct;
  bounded = f.bounded;
}

-- The paths of an answer are those found, each marked as the search is.
truncated-marked :
    (b : Bool) (t : String) (p : StructuralPath) (m : List (String × List StructuralPath))
    → In p (paths_to t (marked b m))
    → p.truncated ≡ b
unfolding mark
truncated-marked b t p m i =
    let k = In-map (mark b) p _ (subst (λ ps. In p ps) (paths_to-marked b t m) i) in
    ap (λ (q : StructuralPath). q.truncated) (sym k.2)

In-marked :
    (b : Bool) (t : String) (p : StructuralPath) (m : List (String × List StructuralPath))
    → In p (paths_to t m)
    → In (mark b p) (paths_to t (marked b m))
In-marked b t p m i = rw (paths_to-marked b t m) (map-In (mark b) p _ i)

edges-mark : (b : Bool) (p : StructuralPath) → (mark b p).edges ≡ p.edges
unfolding mark
edges-mark b p = refl

module _ (calls : List Edge) (max_depth : ℕ) (source : String) (targets : List String)
    (max_variants : ℕ) (max_states : ℕ) where
  Answer : Type 0
  Answer = List (String × List StructuralPath)

  -- Every path of an answer is fine and ends where the answer says, no target has too
  -- many, and only targets with a path are entered.
  pub record IsAnswer (answer : List (String × List StructuralPath)) : Type 0 where
    pub fine :
        (t : String) (p : StructuralPath)
        → In p (paths_to t answer)
        → IsFine calls max_depth source p × (current p ≡ t) × In t targets
    pub few : (t : String) → length (paths_to t answer) ≤ max_variants
    pub full : IsFull answer

  IsAnswer-empty : IsAnswer []
  unfolding paths_to
  IsAnswer-empty = record { fine = λ t p m. absurd m; few = λ t. omega arith; full = tt }

  IsAnswer-marked :
      (s : Search)
      → IsSearch calls max_depth source
          (relevant_to calls targets)
          targets
          max_variants
          max_states
          s
      → IsAnswer (marked s.truncated s.results)
  unfolding mark
  IsAnswer-marked s g = record {
    fine = λ t p m.
        let k =
          In-map (mark s.truncated) p _
            (subst (λ ps. In p ps) (paths_to-marked s.truncated t s.results) m) in
        let f = g.found t k.0 k.1 in
        subst (λ q. IsFine calls max_depth source q × (current q ≡ t) × In t targets) k.2
          (IsFine-mark s.truncated k.0 f.0, f.1, f.2);
    few = λ t.
        rw (paths_to-marked s.truncated t s.results)
          (rw (length-map (mark s.truncated) (paths_to t s.results)) (g.few t));
    full = IsFull-marked s.truncated s.results g.full;
  }

  abbrev first_state : Search
  first_state = record { queue = start source ∷ []; explored = 0; truncated = false; results = [] }

  IsSearch-first :
      1 ≤ max_states
      → IsSearch calls max_depth source
          (relevant_to calls targets)
          targets
          max_variants
          max_states
          first_state
  unfolding paths_to
  IsSearch-first b = record {
    queued = λ p m. elim m [
      | inl e ↦ subst (IsFine calls max_depth source) (sym e) (IsFine-start _ _ source)
      | inr n ↦ absurd n
    ];
    found = λ t p m. absurd m;
    few = λ t. omega arith;
    full = tt;
    budget = omega (arith, b);
  }

  abbrev whole_search : Option Search
  whole_search =
      search calls (relevant_to calls targets) targets max_depth max_variants max_states
        (suc max_states) first_state

  find_variants-cases :
      1 ≤ max_variants
      → 1 ≤ max_states
      → (find_variants calls max_depth source targets max_variants max_states ≡ returned (some []))
        ⊎ (find_variants calls max_depth source targets max_variants max_states
            ≡ returned (answer_of whole_search))
  unfolding find_variants
  find_variants-cases v b = elim (Bool-cases (ltb (min max_variants max_states) 1)) [
    | inl h ↦ absurd (ground (arith, h, v, b))
    | inr h ↦ elim (Bool-cases (source == "" || is_empty targets)) [
      | inl k ↦ inl (rw (h, k, find_variants) refl)
      | inr k ↦ elim (Bool-cases (elem source (relevant_to calls targets))) [
        | inl l ↦ inr (rw (h, k, l, find_variants) refl)
        | inr l ↦ inl (rw (h, k, l, find_variants) refl)
      ]
    ]
  ]

  -- With positive budgets, find_variants answers: each path is a walk along call edges from the
  -- source to its target, with no node twice, no longer than max_depth, and no target
  -- has more than max_variants paths.
  pub find_variants-IsAnswer :
      1 ≤ max_variants
      → 1 ≤ max_states
      → (answer : List (String × List StructuralPath)) × (find_variants calls max_depth source
            targets max_variants max_states
          ≡ returned (some answer))
        × IsAnswer answer
  unfolding answer_of
  find_variants-IsAnswer v b = elim (find_variants-cases v b) [
    | inl e ↦ ([], e, IsAnswer-empty)
    | inr e ↦
        let r =
          Ends-search _ _ source _ targets max_variants max_states (suc max_states) first_state
            (IsSearch-first b) (omega arith) in
        (
          marked r.0.truncated r.0.results,
          e ∙ ap (λ o. returned (answer_of o)) r.1,
          IsAnswer-marked r.0 r.2,
        )
  ]

  same_answer :
      (a b : List (String × List StructuralPath)) → returned (some a) ≡ returned (some b) → a ≡ b
  same_answer a b e = cc

  -- A returned path comes from the whole search.
  found_by_search :
      (answer : List (String × List StructuralPath)) (u : String) (p : StructuralPath)
      → 1 ≤ max_variants
      → 1 ≤ max_states
      → find_variants calls max_depth source targets max_variants max_states
        ≡ returned (some answer)
      → In p (paths_to u answer)
      → (s : Search) × (whole_search ≡ some s) × (answer ≡ marked s.truncated s.results)
  unfolding answer_of paths_to
  found_by_search answer u p v b e m = elim (find_variants-cases v b) [
    | inl n ↦ absurd (subst (λ a. In p (paths_to u a)) (same_answer answer [] (sym e ∙ n)) m)
    | inr n ↦
        let r =
          Ends-search _ _ source _ targets max_variants max_states (suc max_states) first_state
            (IsSearch-first b) (omega arith) in
        (r.0, r.1, same_answer answer _ (sym e ∙ n ∙ ap (λ o. returned (answer_of o)) r.1))
  ]

  -- If one path of an answer is not marked as truncated, the answer has every walk along call
  -- edges from the source to every target, with positive budgets.
  pub find_variants_complete :
      (answer : List (String × List StructuralPath)) (u : String) (p : StructuralPath) (v : String)
      (es : List Edge)
      → 1 ≤ max_variants
      → 1 ≤ max_states
      → find_variants calls max_depth source targets max_variants max_states
        ≡ returned (some answer)
      → In p (paths_to u answer)
      → p.truncated ≡ false
      → In v targets
      → Walk calls source es v
      → (q : StructuralPath) × In q (paths_to v answer) × (q.edges ≡ es)
  find_variants_complete answer u p v es mv ms e m c i w =
      let (s, ran, a) = found_by_search answer u p mv ms e m in
      let k = IsClosure-relevant_to calls targets in
      let goal = grow (start source) es in
      let owed =
        Owed-search calls (relevant_to calls targets) targets max_depth max_variants max_states
          k.is_closed goal v i (k.still_in v i) (suc max_states) first_state
          (inr (inr (start source, inl refl, (es, w, refl)))) in
      elim (subst
        (Owed calls (relevant_to calls targets) targets max_depth max_variants max_states
          k.is_closed goal v i (k.still_in v i))
        ran owed) [
          | inl t ↦
              let d =
                truncated-marked s.truncated u p s.results (subst (λ x. In p (paths_to u x)) a m) in
              absurd (ground (arith, t, d, c))
          | inr f ↦ (
            mark s.truncated goal,
            subst (λ x. In (mark s.truncated goal) (paths_to v x)) (sym a)
                (In-marked s.truncated v goal s.results f),
            edges-mark s.truncated goal ∙ edges-grow (start source) es,
          )
        ]
