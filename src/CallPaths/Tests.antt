-- ===== src/CallPaths/Tests.antt =====
-- A small call graph, on which the search of path_finder.py is run.
use code_explorer.Base.{
  String, Option, false, true, none, some, List, [], ◌∷◌, ◌≡◌, refl, ◌↔◌, inl, inr, arith, In,
}
use code_explorer.Execution.Result.{returned}
use code_explorer.CallPaths.Walks.{Walk}
use code_explorer.CallPaths.Closure.{relevant_to_iff, Reaches}
use code_explorer.CallPaths.Answers.{IsAnswer, find_variants-IsAnswer, find_variants_complete}
use code_explorer.CallPaths.Finder.{Finder, path_at, find_reachable, find}
use code_explorer.CallPaths.Finder.Cache.{
  IsRoute, IsCacheSound, IsSameFinder, find-IsRoute, find-find_reachable,
}
use code_explorer.CallPaths.{
  Edge, StructuralPath, unresolved, low, inferred, relevant_to, adjacent, add_path, paths_to,
  find_variants,
}

abbrev call : String → String → String → Edge
call id u v = record {
  edge_id = id;
  callsite_id = id;
  source = u;
  target = v;
  relation = "calls";
  dispatch = "unknown";
  resolution_method = "unknown";
  target_certainty = unresolved;
  confidence = low;
  truncated = false;
  unresolved_reason = none;
  fallback_reason = none;
  provenance = inferred;
  callsite = none;
}

abbrev ab : Edge
ab = call "1" "a" "b"

abbrev bc : Edge
bc = call "2" "b" "c"

abbrev ac : Edge
ac = call "3" "a" "c"

abbrev ca : Edge
ca = call "4" "c" "a"

abbrev graph : List Edge
graph = bc ∷ ac ∷ ab ∷ []

abbrev found : List String → List Edge → StructuralPath
found later edges = record { first = "a"; later = later; edges = edges; truncated = false }

abbrev two_paths : List (String × List StructuralPath)
two_paths = ("c", found ("c" ∷ []) (ac ∷ []) ∷ found ("b" ∷ "c" ∷ []) (ab ∷ bc ∷ []) ∷ []) ∷ []

finds_both : find_variants graph 6 "a" ("c" ∷ []) 8 20 ≡ returned (some two_paths)
unfolding find_variants adjacent paths_to add_path
finds_both = refl

-- With one edge at most, the longer path is missed and the answer says so.
marks_depth :
    find_variants graph 1 "a" ("c" ∷ []) 8 20
    ≡ returned (some (("c", record (found ("c" ∷ []) (ac ∷ [])) { truncated = true } ∷ []) ∷ []))
unfolding find_variants adjacent paths_to add_path
marks_depth = refl

-- The same limit on a target two edges away gives the empty answer, which bears no mark.
hides_depth : find_variants (ab ∷ bc ∷ []) 1 "a" ("c" ∷ []) 8 20 ≡ returned (some [])
unfolding find_variants adjacent paths_to add_path
hides_depth = refl

relevant_to_iff_example :
    In "b" (relevant_to (bc ∷ ac ∷ []) ("c" ∷ [])) ↔ Reaches (bc ∷ ac ∷ []) ("c" ∷ []) "b"
relevant_to_iff_example = relevant_to_iff (bc ∷ ac ∷ []) ("c" ∷ []) "b"

find_variants-IsAnswer_example :
    (answer : List (String × List StructuralPath)) × (find_variants graph 6 "a" ("c" ∷ []) 8 20
      ≡ returned (some answer))
    × IsAnswer graph 6 "a" ("c" ∷ []) 8 20 answer
find_variants-IsAnswer_example =
    find_variants-IsAnswer graph 6 "a" ("c" ∷ []) 8 20 (omega arith) (omega arith)

Walk-two_edges : Walk graph "a" (ab ∷ bc ∷ []) "c"
Walk-two_edges = ((inr (inr (inl refl)), refl, (inl refl, refl, refl)))

first_found : In (found ("c" ∷ []) (ac ∷ [])) (paths_to "c" two_paths)
unfolding paths_to
first_found = inl refl

find_variants_complete_example :
    (q : StructuralPath) × In q (paths_to "c" two_paths) × (q.edges ≡ ab ∷ bc ∷ [])
find_variants_complete_example =
    find_variants_complete graph 6 "a" ("c" ∷ []) 8 20 two_paths "c" (found ("c" ∷ []) (ac ∷ []))
      "c" (ab ∷ bc ∷ []) (omega arith) (omega arith) finds_both first_found refl (inl refl)
      Walk-two_edges

abbrev cold : Finder
cold = record { max_depth = 6; calls = graph; cache = [] }

abbrev direct : List (String × StructuralPath)
direct = ("c", record (found ("c" ∷ []) (ac ∷ [])) { truncated = true }) ∷ []

abbrev warm : Finder
warm = record cold { cache = (("a", "d"), none) ∷ (("a", "c"), path_at "c" direct) ∷ [] }

-- A second variant of the same target is dropped, which marks the path that is kept.
reaches_c : find_reachable cold "a" ("c" ∷ "d" ∷ []) ≡ returned (some (direct, warm))
unfolding find_reachable find_variants adjacent paths_to add_path
reaches_c = refl

find-find_reachable_example : find warm "a" "c" ≡ returned (some (path_at "c" direct, warm))
find-find_reachable_example =
    find-find_reachable cold warm "a" "c" ("c" ∷ "d" ∷ []) direct reaches_c (inl refl)
      (λ e. absurd cc) (λ e. absurd cc)

IsCacheSound-cold : IsCacheSound cold
IsCacheSound-cold s t p h = absurd cc

find-IsRoute_example :
    (o : Option StructuralPath) × (f' : Finder) × (find cold "a" "c" ≡ returned (some (o, f')))
    × IsSameFinder cold f'
    × ((p : StructuralPath) → o ≡ some p → IsRoute cold "a" "c" p)
find-IsRoute_example = find-IsRoute cold "a" "c" IsCacheSound-cold
