-- ===== src/CallPaths/Expand.antt =====
-- One iteration of the search of path_finder.py: what it keeps, and what it adds.
use code_explorer.Base.{
  ℕ, ◌+◌, String, true, List, [], ◌∷◌, ◌++◌, ◌==◌, ◌≡◌, ◌≢◌, refl, arith, sym, ap, subst, ◌∙◌, ◌⊎◌,
  inl, inr, In, length, elem, elem_iff, eq_iff, eq_refl, leb, ltb, Bool-cases,
}
use code_explorer.CallPaths.Walks.{In-append-left, In-append-last, adjacent-In}
use code_explorer.CallPaths.{
  Edge, StructuralPath, Search, nodes, current, step, paths_to, add_path, cut, keep_path, extend,
  expand, leads_on,
}

pub paths_to-add_path :
    (t : String) (p : StructuralPath) (m : List (String × List StructuralPath))
    → paths_to t (add_path t p m) ≡ paths_to t m ++ p ∷ []
unfolding paths_to add_path
paths_to-add_path t p [] = ground (arith, eq_refl t)
paths_to-add_path t p ((u, ps) ∷ m) = ground (arith, paths_to-add_path t p m)

pub paths_to-add_other :
    (t u : String) (p : StructuralPath) (m : List (String × List StructuralPath))
    → t ≢ u
    → paths_to t (add_path u p m) ≡ paths_to t m
unfolding paths_to add_path
paths_to-add_other t u p [] n = ground (arith, eq_iff u t)
paths_to-add_other t u p ((v, ps) ∷ m) n =
    ground (arith, paths_to-add_other t u p m n, eq_iff v t, eq_iff v u)

pub add_path-cases :
    (t u : String) (p : StructuralPath) (m : List (String × List StructuralPath))
    → ((t ≡ u) × (paths_to t (add_path u p m) ≡ paths_to u m ++ p ∷ []))
      ⊎ (paths_to t (add_path u p m) ≡ paths_to t m)
add_path-cases t u p m = elim (Bool-cases (t == u)) [
  | inl h ↦
      let e = (eq_iff t u).0 h in
      inl (e, ap (λ x. paths_to x (add_path u p m)) e ∙ paths_to-add_path u p m)
  | inr h ↦ inr (paths_to-add_other t u p m (λ e. ground (arith, (eq_iff t u).1 e)))
]

-- No target is entered without a path.
abbrev pub IsFull : List (String × List StructuralPath) → Type 0
IsFull [] = Unit
IsFull ((t, []) ∷ m) = ⊥
IsFull ((t, p ∷ ps) ∷ m) = IsFull m

pub IsFull-add_path :
    (t : String) (p : StructuralPath) (m : List (String × List StructuralPath))
    → IsFull m
    → IsFull (add_path t p m)
unfolding add_path
IsFull-add_path t p [] f = tt
IsFull-add_path t p ((u, []) ∷ m) f = absurd f
IsFull-add_path t p ((u, q ∷ ps) ∷ m) f = elim (Bool-cases (u == t)) [
  | inl h ↦ rw (h, add_path) f
  | inr h ↦ rw (h, add_path) (IsFull-add_path t p m f)
]

-- A later state of a search has lost nothing.
pub record Later (s s' : Search) : Type 0 where
  pub still_cut : s.truncated ≡ true → s'.truncated ≡ true
  pub still_found :
      (t : String) (p : StructuralPath) → In p (paths_to t s.results) → In p (paths_to t s'.results)
  pub still_queued : (p : StructuralPath) → In p s.queue → In p s'.queue

pub Later-refl : (s : Search) → Later s s
Later-refl s = record { still_cut = λ h. h; still_found = λ t p m. m; still_queued = λ p m. m }

pub Later-trans : (a b c : Search) → Later a b → Later b c → Later a c
Later-trans a b c f g = record {
  still_cut = λ h. g.still_cut (f.still_cut h);
  still_found = λ t p m. g.still_found t p (f.still_found t p m);
  still_queued = λ p m. g.still_queued p (f.still_queued p m);
}

Later-cut : (s : Search) → Later s (cut s)
Later-cut s = record { still_cut = λ h. refl; still_found = λ t p m. m; still_queued = λ p m. m }

Later-queue : (s : Search) (p : StructuralPath) → Later s (record s { queue = s.queue ++ p ∷ [] })
Later-queue s p = record {
  still_cut = λ h. h;
  still_found = λ t q m. m;
  still_queued = λ q m. In-append-left q s.queue _ m;
}

In-add_path :
    (t u : String) (p q : StructuralPath) (m : List (String × List StructuralPath))
    → In q (paths_to t m)
    → In q (paths_to t (add_path u p m))
In-add_path t u p q m i = elim (Bool-cases (u == t)) [
  | inl h ↦
      subst (λ x. In q (paths_to t (add_path x p m))) (sym ((eq_iff u t).0 h))
        (rw (paths_to-add_path t p m) (In-append-left q _ _ i))
  | inr h ↦ rw (paths_to-add_other t u p m (λ e. ground (arith, eq_iff u t, sym e))) i
]

module _ (calls : List Edge) (relevant : List String) (targets : List String) (max_depth : ℕ)
    (max_variants : ℕ) (max_states : ℕ) where
  abbrev keep : StructuralPath → Search → Search
  keep = keep_path calls relevant targets max_depth max_variants max_states

  abbrev go_on : StructuralPath → List Edge → Search → Search
  go_on = extend calls relevant targets max_depth max_variants max_states

  pub Later-keep_path : (p : StructuralPath) (s : Search) → Later s (keep p s)
  unfolding keep_path
  Later-keep_path p s = elim (Bool-cases (elem (current p) targets)) [
    | inr h ↦ rw (h, keep_path) (Later-refl s)
    | inl h ↦ elim (Bool-cases (ltb (length (paths_to (current p) s.results)) max_variants)) [
      | inr k ↦ rw (h, k, keep_path) (Later-cut s)
      | inl k ↦
          rw (h, k, keep_path)
            (record {
              still_cut = λ c. c;
              still_found = λ t q i. In-add_path t (current p) p q s.results i;
              still_queued = λ q i. i;
            })
    ]
  ]

  -- A path that ends at a target is kept, or the search is marked as cut.
  pub keep_path_keeps :
      (p : StructuralPath) (s : Search)
      → In (current p) targets
      → ((keep p s).truncated ≡ true) ⊎ In p (paths_to (current p) (keep p s).results)
  unfolding keep_path
  keep_path_keeps p s m =
      let h = (elem_iff (current p) targets).1 m in
      elim (Bool-cases (ltb (length (paths_to (current p) s.results)) max_variants)) [
        | inr k ↦ inl (rw (h, k, keep_path) refl)
        | inl k ↦ inr (
            rw (h, k, keep_path)
              (rw (paths_to-add_path (current p) p s.results) (In-append-last p _)))
      ]

  pub Later-extend : (p : StructuralPath) (es : List Edge) (s : Search) → Later s (go_on p es s)
  unfolding extend
  Later-extend p [] s = Later-refl s
  Later-extend p (e ∷ es) s = elim (Bool-cases (elem e.target relevant)) [
    | inr h ↦ rw (h, extend) (Later-extend p es s)
    | inl h ↦ elim (Bool-cases (elem e.target (nodes p))) [
      | inl k ↦
          rw (h, k, extend) (Later-trans s (cut s) _ (Later-cut s) (Later-extend p es (cut s)))
      | inr k ↦ elim (Bool-cases (leb max_states (length s.queue + s.explored))) [
        | inl l ↦ rw (h, k, l, extend) (Later-cut s)
        | inr l ↦
            rw (h, k, l, extend)
              (Later-trans s _ _ (Later-queue s (step p e)) (Later-extend p es _))
      ]
    ]
  ]

  -- Each relevant edge is followed, or the search is marked as cut.
  pub extend_follows :
      (p : StructuralPath) (es : List Edge) (s : Search) (e : Edge)
      → In e es
      → In e.target relevant
      → ((go_on p es s).truncated ≡ true) ⊎ In (step p e) (go_on p es s).queue
  unfolding extend
  extend_follows p [] s e m r = absurd m
  extend_follows p (f ∷ es) s e (inr m) r = elim (Bool-cases (elem f.target relevant)) [
    | inr h ↦ rw (h, extend) (extend_follows p es s e m r)
    | inl h ↦ elim (Bool-cases (elem f.target (nodes p))) [
      | inl k ↦ rw (h, k, extend) (extend_follows p es (cut s) e m r)
      | inr k ↦ elim (Bool-cases (leb max_states (length s.queue + s.explored))) [
        | inl l ↦ rw (h, k, l, extend) (inl refl)
        | inr l ↦ rw (h, k, l, extend) (extend_follows p es _ e m r)
      ]
    ]
  ]
  extend_follows p (f ∷ es) s e (inl q) r =
      let h = (elem_iff f.target relevant).1 (subst (λ (x : Edge). In x.target relevant) q r) in
      elim (Bool-cases (elem f.target (nodes p))) [
        | inl k ↦ rw (h, k, extend) (inl ((Later-extend p es (cut s)).still_cut refl))
        | inr k ↦ elim (Bool-cases (leb max_states (length s.queue + s.explored))) [
          | inl l ↦ rw (h, k, l, extend) (inl refl)
          | inr l ↦
              rw (h, k, l, extend, q)
                (inr ((Later-extend p es _).still_queued (step p f) (In-append-last _ s.queue)))
        ]
      ]

  leads_on_to :
      (es : List Edge) (e : Edge)
      → In e es
      → In e.target relevant
      → leads_on calls relevant targets max_depth max_variants max_states es ≡ true
  unfolding leads_on
  leads_on_to [] e m r = absurd m
  leads_on_to (f ∷ es) e (inl q) r =
      ground
        (arith, (elem_iff f.target relevant).1 (subst (λ (x : Edge). In x.target relevant) q r))
  leads_on_to (f ∷ es) e (inr m) r = ground (arith, leads_on_to es e m r)

  abbrev explore : StructuralPath → Search → Search
  explore = expand calls relevant targets max_depth max_variants max_states

  pub Later-expand : (p : StructuralPath) (s : Search) → Later s (explore p s)
  unfolding expand
  Later-expand p s = elim (Bool-cases (leb max_depth (length p.edges))) [
    | inl h ↦
        rw (h, expand)
          (record {
            still_cut = λ c. ground (arith, c);
            still_found = λ t q i. i;
            still_queued = λ q i. i;
          })
    | inr h ↦ rw (h, expand) (Later-extend p _ s)
  ]

  -- Each relevant edge that leaves the path is followed, or the search is marked as cut.
  pub expand_follows :
      (p : StructuralPath) (s : Search) (e : Edge)
      → In e calls
      → e.source ≡ current p
      → In e.target relevant
      → ((explore p s).truncated ≡ true) ⊎ In (step p e) (explore p s).queue
  unfolding expand
  expand_follows p s e m q r =
      let i = adjacent-In calls (current p) e m q in
      elim (Bool-cases (leb max_depth (length p.edges))) [
        | inl h ↦ inl (rw (h, expand) (ground (arith, leads_on_to _ e i r)))
        | inr h ↦ rw (h, expand) (extend_follows p _ s e i r)
      ]
