-- ===== src/CallPaths/Finder.antt =====
-- path_finder.py: `find` and `find_reachable`, which keep the answers of earlier calls in `_cache`.
pub mod Cache
use code_explorer.Base.{
  ℕ, String, Bool, true, false, ◌&&◌, ◌||◌, Option, none, some, List, [], ◌∷◌, ◌==◌, if◌then◌else◌,
}
use code_explorer.Execution.Result.{Outcome, returned, raised, ◌>>=◌}
use code_explorer.CallPaths.{Edge, StructuralPath, find_variants}

-- What the two methods read of the object: `max_depth` and the adjacency do not change after
-- `__init__`. An entry of the cache that is written later stands before the earlier ones.
pub record Finder : Type 0 where
  pub max_depth : ℕ
  pub calls : List Edge
  pub cache : List ((String × String) × Option StructuralPath)

-- `cache_key in self._cache`, with the value.
abbrev pub cached :
    String
    → String
    → List ((String × String) × Option StructuralPath)
    → Option (Option StructuralPath)
cached s t [] = none
cached s t (((u, v), p) ∷ m) = elim (u == s && v == t) [ true ↦ some p | false ↦ cached s t m ]

-- `result.get(target)`
abbrev pub path_at : String → List (String × StructuralPath) → Option StructuralPath
path_at t [] = none
path_at t ((u, p) ∷ m) = elim (u == t) [ true ↦ some p | false ↦ path_at t m ]

-- `{target: values[0] for target, values in paths.items() if values}`
unfoldable pub first_paths : List (String × List StructuralPath) → List (String × StructuralPath)
first_paths [] = []
first_paths ((t, []) ∷ m) = first_paths m
first_paths ((t, p ∷ ps) ∷ m) = (t, p) ∷ first_paths m

-- The loop over the targets, which writes the cache.
unfoldable pub remember :
    String
    → List String
    → List (String × StructuralPath)
    → List ((String × String) × Option StructuralPath)
    → List ((String × String) × Option StructuralPath)
remember s [] result cache = cache
remember s (t ∷ ts) result cache = remember s ts result (((s, t), path_at t result) ∷ cache)

unfoldable pub reached :
    Finder
    → String
    → List String
    → Option (List (String × List StructuralPath))
    → Outcome (Option (List (String × StructuralPath) × Finder))
unfolding first_paths remember
reached f s ts none = returned none
reached f s ts (some paths) =
    let result = first_paths paths in
    returned (some (result, record f { cache = remember s ts result f.cache }))

-- `find_variants` is called with one variant and its default of 2048 states.
unfoldable pub find_reachable :
    Finder → String → List String → Outcome (Option (List (String × StructuralPath) × Finder))
unfolding reached
find_reachable f s ts = find_variants f.calls f.max_depth s ts 1 2048 >>= reached f s ts

unfoldable pub pick :
    String
    → Option (List (String × StructuralPath) × Finder)
    → Outcome (Option (Option StructuralPath × Finder))
pick t none = returned none
pick t (some (result, f)) = returned (some (path_at t result, f))

unfoldable pub find : Finder → String → String → Outcome (Option (Option StructuralPath × Finder))
unfolding find_reachable pick
find f s t = if s == "" || t == "" then returned (some (none, f)) else elim (cached s t f.cache) [
  | some p ↦ returned (some (p, f))
  | none ↦ find_reachable f s (t ∷ []) >>= pick t
]
