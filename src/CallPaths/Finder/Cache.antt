-- ===== src/CallPaths/Finder/Cache.antt =====
-- The cache of path_finder.py: what it holds is sound, and it repeats the last answer.
use code_explorer.Base.{
  String, ◌||◌, Option, none, some, List, [], ◌∷◌, ◌==◌, ◌≡◌, ◌≢◌, refl, arith, sym, ap, subst, ◌∙◌,
  ◌⊎◌, inl, inr, In, eq_iff, eq_refl, Bool-cases, Option-cases,
}
use code_explorer.Execution.Result.{Outcome, returned, chain_returned}
use code_explorer.CallPaths.Sound.{IsFine}
use code_explorer.CallPaths.Expand.{IsFull}
use code_explorer.CallPaths.Answers.{IsAnswer, find_variants-IsAnswer}
use code_explorer.CallPaths.{StructuralPath, current, paths_to, find_variants}
use code_explorer.CallPaths.Finder.{
  Finder, cached, path_at, first_paths, remember, reached, find_reachable, pick, find,
}

-- A path that the finder may give for a source and a target.
abbrev pub IsRoute : Finder → String → String → StructuralPath → Type 0
IsRoute f s t p = IsFine f.calls f.max_depth s p × (current p ≡ t)

-- Each entry of the cache is one.
abbrev pub IsCacheSound : Finder → Type 0
IsCacheSound f =
    (s t : String) (p : StructuralPath) → cached s t f.cache ≡ some (some p) → IsRoute f s t p

path_at-first_paths :
    (t : String) (p : StructuralPath) (m : List (String × List StructuralPath))
    → IsFull m
    → path_at t (first_paths m) ≡ some p
    → In p (paths_to t m)
unfolding first_paths paths_to
path_at-first_paths t p [] f h = absurd (cc)
path_at-first_paths t p ((u, []) ∷ m) f h = absurd f
path_at-first_paths t p ((u, q ∷ ps) ∷ m) f h = ground (arith, path_at-first_paths t p m f)

-- An entry after `remember` is a new one, or was there.
cached-remember :
    (s0 s t : String) (ts : List String) (result : List (String × StructuralPath))
    (cache : List ((String × String) × Option StructuralPath))
    → ((s0 ≡ s) × (cached s t (remember s0 ts result cache) ≡ some (path_at t result)))
      ⊎ (cached s t (remember s0 ts result cache) ≡ cached s t cache)
unfolding remember
cached-remember s0 s t [] result cache = inr refl
cached-remember s0 s t (u ∷ ts) result cache = ground (
  arith,
  cached-remember s0 s t ts result (((s0, u), path_at u result) ∷ cache),
  eq_iff s0 s,
  eq_iff u t,
  λ (e : u ≡ t). ap (λ x. path_at x result) e,
)

remembered :
    (s t : String) (ts : List String) (result : List (String × StructuralPath))
    (cache : List ((String × String) × Option StructuralPath))
    → In t ts
    → cached s t (remember s ts result cache) ≡ some (path_at t result)
unfolding remember
remembered s t [] result cache m = absurd m
remembered s t (u ∷ ts) result cache (inr m) = remembered s t ts result _ m
remembered s t (u ∷ ts) result cache (inl e) =
    elim (cached-remember s s t ts result (((s, u), path_at u result) ∷ cache)) [
      | inl (_, h) ↦ h
      | inr h ↦ ground (arith, h, eq_refl s, (eq_iff u t).1 (sym e), ap (λ x. path_at x result) e)
    ]

-- What the two methods owe: an answer that is a route, and a finder like the one before.
pub record IsSameFinder (f f' : Finder) : Type 0 where
  pub same_calls : f'.calls ≡ f.calls
  pub same_depth : f'.max_depth ≡ f.max_depth
  pub cache_sound : IsCacheSound f'

IsRoute-of_answer :
    (f : Finder) (s t : String) (ts : List String) (p : StructuralPath)
    (paths : List (String × List StructuralPath))
    → IsAnswer f.calls f.max_depth s ts 1 2048 paths
    → path_at t (first_paths paths) ≡ some p
    → IsRoute f s t p
IsRoute-of_answer f s t ts p paths a h =
    let k = a.fine t p (path_at-first_paths t p paths a.full h) in (k.0, k.1)

-- Paths that are routes keep the cache sound.
IsCacheSound-remember :
    (f : Finder) (s : String) (ts : List String) (result : List (String × StructuralPath))
    → IsCacheSound f
    → ((t : String) (p : StructuralPath) → path_at t result ≡ some p → IsRoute f s t p)
    → IsCacheSound (record f { cache = remember s ts result f.cache })
IsCacheSound-remember f s ts result c r u t p h = elim (cached-remember s u t ts result f.cache) [
  | inl (e, n) ↦ subst (λ x. IsRoute f x t p) e (r t p (same_entry (sym n ∙ h)))
  | inr n ↦ c u t p (sym n ∙ h)
]
  where
    same_entry : {a b : Option StructuralPath} → some a ≡ some b → a ≡ b
    same_entry e = cc

-- On a sound cache, find_reachable answers, each path it gives is a route from the source to its
-- target, and the cache stays sound.
pub find_reachable-IsRoute :
    (f : Finder) (s : String) (ts : List String)
    → IsCacheSound f
    → (result : List (String × StructuralPath)) × (f' : Finder) × (find_reachable f s ts
        ≡ returned (some (result, f')))
      × IsSameFinder f f'
      × ((t : String) (p : StructuralPath) → path_at t result ≡ some p → IsRoute f s t p)
unfolding find_reachable reached
find_reachable-IsRoute f s ts c =
    let (paths, e, a) =
      find_variants-IsAnswer f.calls f.max_depth s ts 1 2048 (omega arith) (omega arith) in
    let routes = λ (t : String) (p : StructuralPath) (h : path_at t (first_paths paths) ≡ some p).
      IsRoute-of_answer f s t ts p paths a h in
    (
      first_paths paths,
      record f { cache = remember s ts (first_paths paths) f.cache },
      rw (e, find_reachable) refl,
      record {
        same_calls = refl;
        same_depth = refl;
        cache_sound = IsCacheSound-remember f s ts (first_paths paths) c routes;
      },
      routes,
    )

-- On a sound cache, find answers; a path it gives, fresh or cached, is a walk along call edges from
-- the source to the target, with no node twice and no longer than max_depth, and the cache stays
-- sound.
pub find-IsRoute :
    (f : Finder) (s t : String)
    → IsCacheSound f
    → (o : Option StructuralPath) × (f' : Finder) × (find f s t ≡ returned (some (o, f')))
      × IsSameFinder f f'
      × ((p : StructuralPath) → o ≡ some p → IsRoute f s t p)
unfolding find pick
find-IsRoute f s t c = elim (Bool-cases (s == "" || t == "")) [
  | inl h ↦ (
    none,
    f,
    rw (h, find) refl,
    record { same_calls = refl; same_depth = refl; cache_sound = c },
    λ p e. absurd cc,
  )
  | inr h ↦ elim (Option-cases (cached s t f.cache)) [
    | inr (o, k) ↦ (
      o,
      f,
      rw (h, k, find) refl,
      record { same_calls = refl; same_depth = refl; cache_sound = c },
      λ p e. c s t p (k ∙ ap some e),
    )
    | inl k ↦
        let (result, f', e, same, routes) = find_reachable-IsRoute f s (t ∷ []) c in
        (path_at t result, f', rw (h, k, e, find) refl, same, λ p i. routes t p i)
  ]
]

-- What find_reachable gives back when it returns.
abbrev reply :
    List (String × StructuralPath)
    → Finder
    → Outcome (Option (List (String × StructuralPath) × Finder))
reply result f = returned (some (result, f))

reached_cache :
    (f f' : Finder) (s t : String) (ts : List String) (result : List (String × StructuralPath))
    (o : Option (List (String × List StructuralPath)))
    → reached f s ts o ≡ returned (some (result, f'))
    → In t ts
    → cached s t f'.cache ≡ some (path_at t result)
unfolding reached
reached_cache f f' s t ts result none e m = absurd cc
reached_cache f f' s t ts result (some paths) e m =
    let (h, k) = parts (first_paths paths) result _ f' e in
    subst (λ (g : Finder). cached s t g.cache ≡ some (path_at t result)) k
      (subst (λ r. cached s t (remember s ts (first_paths paths) f.cache) ≡ some (path_at t r)) h
        (remembered s t ts (first_paths paths) f.cache m))
  where
    parts :
        (a b : List (String × StructuralPath)) (g g' : Finder)
        → reply a g ≡ reply b g'
        → (a ≡ b) × (g ≡ g')
    parts a b g g' e = (cc, cc)

-- After find_reachable, find gives for each of its targets the path that it gave, without another
-- search.
pub find-find_reachable :
    (f f' : Finder) (s t : String) (ts : List String) (result : List (String × StructuralPath))
    → find_reachable f s ts ≡ returned (some (result, f'))
    → In t ts
    → s ≢ ""
    → t ≢ ""
    → find f' s t ≡ returned (some (path_at t result, f'))
unfolding find find_reachable
find-find_reachable f f' s t ts result e m n k =
    let (o, _, r) =
      chain_returned (find_variants f.calls f.max_depth s ts 1 2048) (reached f s ts) e in
    ground (arith, reached_cache f f' s t ts result o r m, eq_iff s "", eq_iff t "")
