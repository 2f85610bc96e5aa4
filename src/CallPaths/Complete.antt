-- ===== src/CallPaths/Complete.antt =====
-- `find_variants` of path_finder.py: an answer that is not marked as truncated misses no walk.
use code_explorer.Base.{
  ℕ, zero, suc, String, true, Option, none, some, List, [], ◌∷◌, ◌≡◌, refl, sym, subst, ◌⊎◌, inl,
  inr, In, leb, Bool-cases,
}
use code_explorer.CallPaths.Walks.{Walk, grow, last-append}
use code_explorer.CallPaths.Expand.{
  Later, Later-trans, Later-keep_path, keep_path_keeps, Later-expand, expand_follows,
}
use code_explorer.CallPaths.{
  Edge, StructuralPath, Search, current, step, paths_to, keep_path, expand, search,
}

module _ (calls : List Edge) (relevant : List String) (targets : List String) (max_depth : ℕ)
    (max_variants : ℕ) (max_states : ℕ) where
  -- The state after an iteration that takes `p` from the queue and leaves `ps`.
  abbrev pub iterate : StructuralPath → List StructuralPath → Search → Search
  iterate p ps s = expand calls relevant targets max_depth max_variants max_states p (
      keep_path calls relevant targets max_depth max_variants max_states p
        (record s { queue = ps; explored = suc s.explored }))

  Later-visit :
      (p : StructuralPath) (s : Search)
      → Later s (
          expand calls relevant targets max_depth max_variants max_states p
            (keep_path calls relevant targets max_depth max_variants max_states p s))
  Later-visit p s =
      Later-trans s _ _
        (Later-keep_path calls relevant targets max_depth max_variants max_states p s)
        (Later-expand calls relevant targets max_depth max_variants max_states p _)

  module _ (closed : (e : Edge) → In e calls → In e.target relevant → In e.source relevant)
      (goal : StructuralPath) (v : String) (is_target : In v targets)
      (is_relevant : In v relevant) where
    walk_relevant : (u : String) (es : List Edge) → Walk calls u es v → In u relevant
    walk_relevant u [] w = subst (λ x. In x relevant) (sym w) is_relevant
    walk_relevant u (e ∷ es) (m, q, w) =
        subst (λ x. In x relevant) q (closed e m (walk_relevant e.target es w))

    -- The goal can still be reached from a path, along the rest of its walk.
    abbrev pub LeadsTo : StructuralPath → Type 0
    LeadsTo q = (rest : List Edge) × Walk calls (current q) rest v × (grow q rest ≡ goal)

    -- The goal is found, or lies ahead of a queued path, or the search is marked as cut.
    abbrev pub Covered : Search → Type 0
    Covered s =
        (s.truncated ≡ true)
        ⊎ In goal (paths_to v s.results)
        ⊎ ((q : StructuralPath) × In q s.queue × LeadsTo q)

    Covered-visited :
        (p : StructuralPath) (s : Search)
        → LeadsTo p
        → Covered (
            expand calls relevant targets max_depth max_variants max_states p
              (keep_path calls relevant targets max_depth max_variants max_states p s))
    Covered-visited p s ([], w, g) =
        let l = Later-expand calls relevant targets max_depth max_variants max_states p _ in
        elim (keep_path_keeps calls relevant targets max_depth max_variants max_states p s
          (subst (λ x. In x targets) (sym w) is_target)) [
            | inl c ↦ inl (l.still_cut c)
            | inr i ↦ inr (inl (l.still_found v goal (rw (sym w, sym g) i)))
          ]
    Covered-visited p s (e ∷ rest, (m, q, w), g) =
        elim (expand_follows calls relevant targets max_depth max_variants max_states p _ e m q
          (walk_relevant e.target rest w)) [
            | inl c ↦ inl c
            | inr i ↦
                inr (inr (step p e, i, (rest, rw (last-append p.first e.target p.later) w, g)))
          ]

    Covered-iterate :
        (p : StructuralPath) (ps : List StructuralPath) (s : Search)
        → s.queue ≡ p ∷ ps
        → Covered s
        → Covered (iterate p ps s)
    Covered-iterate p ps s h c =
        let l = Later-visit p (record s { queue = ps; explored = suc s.explored }) in
        elim c [
          | inl t ↦ inl (l.still_cut t)
          | inr (inl i) ↦ inr (inl (l.still_found v goal i))
          | inr (inr (q, i, t)) ↦ elim (subst (λ qs. In q qs) h i) [
            | inl e ↦ Covered-visited p _ (subst LeadsTo e t)
            | inr j ↦ inr (inr (q, l.still_queued q j, t))
          ]
        ]

    -- What an ended search owes the goal.
    abbrev pub Owed : Option Search → Type 0
    Owed none = Unit
    Owed (some s) = (s.truncated ≡ true) ⊎ In goal (paths_to v s.results)

    pub Owed-search :
        (fuel : ℕ) (s : Search)
        → Covered s
        → Owed (search calls relevant targets max_depth max_variants max_states fuel s)
    unfolding search
    Owed-search zero s c = tt
    Owed-search (suc fuel) s c = by_queue (λ s' c'. Owed-search fuel s' c') s.queue refl
      where
        by_queue :
            ((s' : Search)
              → Covered s'
              → Owed (search calls relevant targets max_depth max_variants max_states fuel s'))
            → (qs : List StructuralPath) → s.queue ≡ qs
            → Owed (search calls relevant targets max_depth max_variants max_states (suc fuel) s)
        by_queue go [] h =
            rw (h, search)
              (elim c [
                | inl t ↦ inl t
                | inr (inl i) ↦ inr i
                | inr (inr (q, i, t)) ↦ absurd (subst (λ qs. In q qs) h i)
              ])
        by_queue go (p ∷ ps) h = elim (Bool-cases (leb max_states s.explored)) [
          | inl k ↦ rw (h, k, search) (inl refl)
          | inr k ↦ rw (h, k, search) (go (iterate p ps s) (Covered-iterate p ps s h c))
        ]
