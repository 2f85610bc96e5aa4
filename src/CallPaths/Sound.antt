-- ===== src/CallPaths/Sound.antt =====
-- The search of path_finder.py: what every path that it queues or keeps is, and its budget.
use code_explorer.Base.{
  ℕ, zero, suc, ◌+◌, ◌≤◌, ◌<◌, String, false, Option, some, List, [], ◌∷◌, ◌++◌, ◌≡◌, refl, arith,
  sym, ap, subst, ◌∙◌, inl, inr, In, length, length-append, leb, ltb, elem, elem_iff, Bool-cases,
}
use code_explorer.CallPaths.Walks.{
  Walk, Walk-snoc, Distinct, Distinct-snoc, targets_of, targets_of-append, last-append,
  In-append-split, In-adjacent,
}
use code_explorer.CallPaths.Expand.{add_path-cases, IsFull, IsFull-add_path}
use code_explorer.CallPaths.Complete.{iterate}
use code_explorer.CallPaths.{
  Edge, StructuralPath, Search, nodes, current, step, start, adjacent, paths_to, add_path, cut,
  keep_path, extend, expand, search,
}

module _ (calls : List Edge) (max_depth : ℕ) (source : String) where
  -- A walk from the source that visits no node twice and is no longer than the limit.
  pub record IsFine (p : StructuralPath) : Type 0 where
    pub starts : p.first ≡ source
    pub visits : p.later ≡ targets_of p.edges
    pub walks : Walk calls source p.edges (current p)
    pub distinct : Distinct (nodes p)
    pub bounded : length p.edges ≤ max_depth

  pub IsFine-start : IsFine (start source)
  IsFine-start = record {
    starts = refl;
    visits = refl;
    walks = refl;
    distinct = (λ m. m, tt);
    bounded = omega arith;
  }

  pub IsFine-step :
      (p : StructuralPath) (e : Edge)
      → IsFine p
      → In e (adjacent calls (current p))
      → elem e.target (nodes p) ≡ false
      → length p.edges < max_depth
      → IsFine (step p e)
  IsFine-step p e f i n b =
      let a = In-adjacent calls (current p) e i in
      record {
        starts = f.starts;
        visits = ap (λ xs. xs ++ e.target ∷ []) f.visits ∙ sym (targets_of-append p.edges e);
        walks =
            rw (last-append p.first e.target p.later)
              (Walk-snoc calls source p.edges (current p) e f.walks a.0 a.1);
        distinct =
            Distinct-snoc (nodes p) e.target f.distinct
              (λ m. ground (arith, (elem_iff e.target (nodes p)).1 m));
        bounded = omega (arith, b, length-append p.edges (e ∷ []));
      }

  module _ (relevant : List String) (targets : List String) (max_variants : ℕ)
      (max_states : ℕ) where
    pub record IsSearch (s : Search) : Type 0 where
      pub queued : (p : StructuralPath) → In p s.queue → IsFine p
      pub found :
          (t : String) (p : StructuralPath)
          → In p (paths_to t s.results)
          → IsFine p × (current p ≡ t) × In t targets
      pub few : (t : String) → length (paths_to t s.results) ≤ max_variants
      pub full : IsFull s.results
      pub budget : length s.queue + s.explored ≤ max_states

    IsSearch-cut : (s : Search) → IsSearch s → IsSearch (cut s)
    IsSearch-cut s g = record {
      queued = g.queued;
      found = g.found;
      few = g.few;
      full = g.full;
      budget = g.budget;
    }

    IsSearch-queue :
        (s : Search) (p : StructuralPath)
        → IsSearch s
        → IsFine p
        → leb max_states (length s.queue + s.explored) ≡ false
        → IsSearch (record s { queue = s.queue ++ p ∷ [] })
    IsSearch-queue s p g f h = record {
      queued = λ q m. elim (In-append-split q p s.queue m) [
        | inl i ↦ g.queued q i
        | inr e ↦ subst IsFine (sym e) f
      ];
      found = g.found;
      few = g.few;
      full = g.full;
      budget = ground (arith, h, length-append s.queue (p ∷ []));
    }

    IsSearch-found :
        (s : Search) (p : StructuralPath)
        → IsSearch s
        → IsFine p
        → In (current p) targets
        → length (paths_to (current p) s.results) < max_variants
        → IsSearch (record s { results = add_path (current p) p s.results })
    IsSearch-found s p g f i l = record {
      queued = g.queued;
      found = λ t q m. elim (add_path-cases t (current p) p s.results) [
        | inl (e, a) ↦ elim (In-append-split q p _ (subst (λ qs. In q qs) a m)) [
          | inl k ↦ rw e (g.found (current p) q k)
          | inr h ↦ rw (e, h) (f, refl, i)
        ]
        | inr a ↦ g.found t q (subst (λ qs. In q qs) a m)
      ];
      few = λ t. elim (add_path-cases t (current p) p s.results) [
        | inl (e, a) ↦
            rw a (omega (arith, l, length-append (paths_to (current p) s.results) (p ∷ [])))
        | inr a ↦ rw a (g.few t)
      ];
      full = IsFull-add_path (current p) p s.results g.full;
      budget = g.budget;
    }

    IsSearch-keep_path :
        (s : Search) (p : StructuralPath)
        → IsSearch s
        → IsFine p
        → IsSearch (keep_path calls relevant targets max_depth max_variants max_states p s)
    unfolding keep_path
    IsSearch-keep_path s p g f = elim (Bool-cases (elem (current p) targets)) [
      | inr h ↦ rw (h, keep_path) g
      | inl h ↦ elim (Bool-cases (ltb (length (paths_to (current p) s.results)) max_variants)) [
        | inr k ↦ rw (h, k, keep_path) (IsSearch-cut s g)
        | inl k ↦
            rw (h, k, keep_path)
              (IsSearch-found s p g f ((elem_iff (current p) targets).0 h) (ground (arith, k)))
      ]
    ]

    IsSearch-extend :
        (p : StructuralPath) (es : List Edge) (s : Search)
        → IsSearch s
        → IsFine p
        → length p.edges < max_depth
        → ((e : Edge) → In e es → In e (adjacent calls (current p)))
        → IsSearch (extend calls relevant targets max_depth max_variants max_states p es s)
    unfolding extend
    IsSearch-extend p [] s g f b i = g
    IsSearch-extend p (e ∷ es) s g f b i = elim (Bool-cases (elem e.target relevant)) [
      | inr h ↦ rw (h, extend) (IsSearch-extend p es s g f b (λ d m. i d (inr m)))
      | inl h ↦ elim (Bool-cases (elem e.target (nodes p))) [
        | inl k ↦
            rw (h, k, extend)
              (IsSearch-extend p es (cut s) (IsSearch-cut s g) f b (λ d m. i d (inr m)))
        | inr k ↦ elim (Bool-cases (leb max_states (length s.queue + s.explored))) [
          | inl l ↦ rw (h, k, l, extend) (IsSearch-cut s g)
          | inr l ↦
              rw (h, k, l, extend)
                (IsSearch-extend p es _
                  (IsSearch-queue s (step p e) g (IsFine-step p e f (i e (inl refl)) k b) l) f b
                  (λ d m. i d (inr m)))
        ]
      ]
    ]

    IsSearch-expand :
        (s : Search) (p : StructuralPath)
        → IsSearch s
        → IsFine p
        → IsSearch (expand calls relevant targets max_depth max_variants max_states p s)
    unfolding expand
    IsSearch-expand s p g f = elim (Bool-cases (leb max_depth (length p.edges))) [
      | inl h ↦
          rw (h, expand)
            (record {
              queued = g.queued;
              found = g.found;
              few = g.few;
              full = g.full;
              budget = g.budget;
            })
      | inr h ↦ rw (h, expand) (IsSearch-extend p _ s g f (ground (arith, h)) (λ d m. m))
    ]

    IsSearch-iterate :
        (p : StructuralPath) (ps : List StructuralPath) (s : Search)
        → s.queue ≡ p ∷ ps
        → IsSearch s
        → IsSearch (iterate calls relevant targets max_depth max_variants max_states p ps s)
    IsSearch-iterate p ps s h g =
        let f = g.queued p (rw h (inl refl)) in
        IsSearch-expand _ p
          (IsSearch-keep_path _ p
            (record {
              queued = λ q m. g.queued q (rw h (inr m));
              found = g.found;
              few = g.few;
              full = g.full;
              budget = omega (arith, subst (λ qs. length qs + s.explored ≤ max_states) h g.budget);
            })
            f)
          f

    explored-keep_path :
        (s : Search) (p : StructuralPath)
        → (keep_path calls relevant targets max_depth max_variants max_states p s).explored
          ≡ s.explored
    unfolding keep_path
    explored-keep_path s p = ground arith

    explored-extend :
        (p : StructuralPath) (es : List Edge) (s : Search)
        → (extend calls relevant targets max_depth max_variants max_states p es s).explored
          ≡ s.explored
    unfolding extend
    explored-extend p [] s = refl
    explored-extend p (e ∷ es) s = ground (
      arith,
      explored-extend p es s,
      explored-extend p es (cut s),
      explored-extend p es (record s { queue = s.queue ++ step p e ∷ [] }),
    )

    explored-iterate :
        (p : StructuralPath) (ps : List StructuralPath) (s : Search)
        → (iterate calls relevant targets max_depth max_variants max_states p ps s).explored
          ≡ suc s.explored
    unfolding expand
    explored-iterate p ps s =
        let s' = record s { queue = ps; explored = suc s.explored } in
        elim (Bool-cases (leb max_depth (length p.edges))) [
          | inl h ↦ rw (h, expand) (explored-keep_path s' p)
          | inr h ↦ rw (h, expand) (explored-extend p _ _ ∙ explored-keep_path s' p)
        ]

    -- What a search owes when its fuel is enough.
    abbrev pub Ends : Option Search → Type 0
    Ends o = (s : Search) × (o ≡ some s) × IsSearch s

    pub Ends-search :
        (fuel : ℕ) (s : Search)
        → IsSearch s
        → max_states < s.explored + fuel
        → Ends (search calls relevant targets max_depth max_variants max_states fuel s)
    unfolding search
    Ends-search zero s g b = absurd (omega (arith, b, g.budget))
    Ends-search (suc fuel) s g b = by_queue (λ s' g' b'. Ends-search fuel s' g' b') s.queue refl
      where
        by_queue :
            ((s' : Search)
              → IsSearch s'
              → max_states < s'.explored + fuel
              → Ends (search calls relevant targets max_depth max_variants max_states fuel s'))
            → (qs : List StructuralPath) → s.queue ≡ qs
            → Ends (search calls relevant targets max_depth max_variants max_states (suc fuel) s)
        by_queue go [] h = rw (h, search) (s, refl, g)
        by_queue go (p ∷ ps) h = elim (Bool-cases (leb max_states s.explored)) [
          | inl k ↦ rw (h, k, search) (cut s, refl, IsSearch-cut s g)
          | inr k ↦
              rw (h, k, search)
                (go _ (IsSearch-iterate p ps s h g) (omega (arith, b, explored-iterate p ps s)))
        ]
