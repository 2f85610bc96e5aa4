-- ===== src/CallPaths.antt =====
-- backend/app/services/security_analysis/path_finder.py: `StructuralCallPathFinder`, the bounded
-- search for call paths. `_relevant_cache`, which only repeats earlier closures, is left out.
pub mod Walks
pub mod Closure
pub mod Expand
pub mod Sound
pub mod Complete
pub mod Answers
pub mod Finder
mod Tests
use Prim.Native.Nat.{Ordering}
use Prim.Native.String.{compare}
use code_explorer.Base.{
  ℕ, zero, suc, ◌+◌, String, Bool, true, false, ◌&&◌, ◌||◌, Option, none, some, List, [], ◌∷◌, ◌++◌,
  map, ◌==◌, select, length, elem, leb, ltb, max, min, if◌then◌else◌,
}
use code_explorer.Execution.Contracts.{is_empty}
use code_explorer.Execution.Result.{Outcome, returned, raised, value_error}

pub data Certainty : Type 0 where
  must may unresolved : Certainty

pub data Confidence : Type 0 where
  high medium low : Confidence

pub data Provenance : Type 0 where
  observed inferred : Provenance

pub record EvidenceLocation : Type 0 where
  pub path : String
  pub line : ℕ
  pub column : Option ℕ
  pub end_line : Option ℕ
  pub end_column : Option ℕ
  pub location_id : Option String

-- `PathEdgeEvidence`
pub record Edge : Type 0 where
  pub edge_id : String
  pub callsite_id : String
  pub source : String
  pub target : String
  pub relation : String
  pub dispatch : String
  pub resolution_method : String
  pub target_certainty : Certainty
  pub confidence : Confidence
  pub truncated : Bool
  pub unresolved_reason : Option String
  pub fallback_reason : Option String
  pub provenance : Provenance
  pub callsite : Option EvidenceLocation

-- `StructuralPath`: its `nodes` is `first` and then `later`, so that a path has a node.
pub record StructuralPath : Type 0 where
  pub first : String
  pub later : List String
  pub edges : List Edge
  pub truncated : Bool

abbrev pub nodes : StructuralPath → List String
nodes p = p.first ∷ p.later

abbrev pub last : String → List String → String
last x [] = x
last x (y ∷ ys) = last y ys

-- `path.nodes[-1]`
abbrev pub current : StructuralPath → String
current p = last p.first p.later

-- `StructuralPath(nodes=[*path.nodes, target], edges=[*path.edges, edge])`
abbrev pub step : StructuralPath → Edge → StructuralPath
step p e = record {
  first = p.first;
  later = p.later ++ e.target ∷ [];
  edges = p.edges ++ e ∷ [];
  truncated = false;
}

abbrev pub start : String → StructuralPath
start source = record { first = source; later = []; edges = []; truncated = false }

-- The key `(target, edge_id)`, compared by code points.
before : Edge → Edge → Bool
before e f = elim (compare e.target f.target) [
  | Ordering.lt ↦ true
  | Ordering.gt ↦ false
  | Ordering.eq ↦ elim (compare e.edge_id f.edge_id) [ Ordering.gt ↦ false | _ ↦ true ]
]

unfoldable pub insert : Edge → List Edge → List Edge
unfolding before
insert e [] = e ∷ []
insert e (f ∷ es) = let rest = insert e es in if before e f then e ∷ f ∷ es else f ∷ rest

unfoldable pub sort : List Edge → List Edge
unfolding insert
sort [] = []
sort (e ∷ es) = insert e (sort es)

-- `self.adjacency`: the call edges by their source, in order.
unfoldable pub adjacent : List Edge → String → List Edge
unfolding sort
adjacent edges node = sort (select (λ e. e.source == node) edges)

-- `self.reverse`, with a caller named once for each of its edges.
unfoldable pub callers : List Edge → String → List String
callers edges node = map (λ (e : Edge). e.source) (select (λ e. e.target == node) edges)

-- The callers that are new go on the stack and into the set.
unfoldable pub add_callers : List String → List String × List String → List String × List String
add_callers [] (pending, relevant) = (pending, relevant)
add_callers (c ∷ cs) (pending, relevant) = elim (elem c relevant) [
  | true ↦ add_callers cs (pending, relevant)
  | false ↦ add_callers cs (c ∷ pending, c ∷ relevant)
]

-- The loop `while pending`.
unfoldable pub close : List Edge → ℕ → List String × List String → List String
unfolding callers add_callers
close edges zero (pending, relevant) = relevant
close edges (suc fuel) ([], relevant) = relevant
close edges (suc fuel) (x ∷ pending, relevant) =
    close edges fuel (add_callers (callers edges x) (pending, relevant))

unfoldable pub relevant_to : List Edge → List String → List String
unfolding close
relevant_to edges targets = close edges (length targets + length edges) (targets, targets)

-- `results`, a `dict` from a target to its paths.
unfoldable pub paths_to : String → List (String × List StructuralPath) → List StructuralPath
paths_to t [] = []
paths_to t ((u, ps) ∷ m) = elim (u == t) [ true ↦ ps | false ↦ paths_to t m ]

unfoldable pub add_path :
    String
    → StructuralPath
    → List (String × List StructuralPath)
    → List (String × List StructuralPath)
add_path t p [] = (t, p ∷ []) ∷ []
add_path t p ((u, ps) ∷ m) = elim (u == t) [
  | true ↦ (u, ps ++ p ∷ []) ∷ m
  | false ↦ (u, ps) ∷ add_path t p m
]

pub record Search : Type 0 where
  pub queue : List StructuralPath
  pub explored : ℕ
  pub truncated : Bool
  pub results : List (String × List StructuralPath)

abbrev pub cut : Search → Search
cut s = record s { truncated = true }

module _ (calls : List Edge) (relevant : List String) (targets : List String) (max_depth : ℕ)
    (max_variants : ℕ) (max_states : ℕ) where
  -- `if current in targets`
  unfoldable pub keep_path : StructuralPath → Search → Search
  keep_path p s = elim (elem (current p) targets) [
    | false ↦ s
    | true ↦ elim (ltb (length (paths_to (current p) s.results)) max_variants) [
      | true ↦ record s { results = add_path (current p) p s.results }
      | false ↦ cut s
    ]
  ]

  -- The loop over the edges that leave the last node.
  unfoldable pub extend : StructuralPath → List Edge → Search → Search
  extend p [] s = s
  extend p (e ∷ es) s = elim (elem e.target relevant) [
    | false ↦ extend p es s
    | true ↦ elim (elem e.target (nodes p)) [
      | true ↦ extend p es (cut s)
      | false ↦ elim (leb max_states (length s.queue + s.explored)) [
        | true ↦ cut s
        | false ↦ extend p es (record s { queue = s.queue ++ step p e ∷ [] })
      ]
    ]
  ]

  -- `any(target in relevant for target, _ in ...)`
  unfoldable pub leads_on : List Edge → Bool
  leads_on [] = false
  leads_on (e ∷ es) = elem e.target relevant || leads_on es

  unfoldable pub expand : StructuralPath → Search → Search
  unfolding extend leads_on
  expand p s =
      let es = adjacent calls (current p) in
      elim (leb max_depth (length p.edges)) [
        | true ↦ record s { truncated = s.truncated || leads_on es }
        | false ↦ extend p es s
      ]

  -- The loop `while queue`; no answer when the fuel is spent.
  unfoldable pub search : ℕ → Search → Option Search
  unfolding keep_path expand
  search zero s = none
  search (suc fuel) s = elim s.queue [
    | [] ↦ some s
    | p ∷ ps ↦ elim (leb max_states s.explored) [
      | true ↦ some (cut s)
      | false ↦
          search fuel (expand p (keep_path p (record s { queue = ps; explored = suc s.explored })))
    ]
  ]

-- The answer, each path of it marked as the whole search is.
unfoldable pub mark : Bool → StructuralPath → StructuralPath
mark truncated p = record p { truncated = truncated }

unfoldable pub marked :
    Bool → List (String × List StructuralPath) → List (String × List StructuralPath)
unfolding mark
marked b [] = []
marked b ((t, ps) ∷ m) = (t, map (mark b) ps) ∷ marked b m

unfoldable pub answer_of : Option Search → Option (List (String × List StructuralPath))
unfolding marked
answer_of none = none
answer_of (some s) = some (marked s.truncated s.results)

-- The call edges and the greatest depth are those that `__init__` has set.
unfoldable pub find_variants :
    List Edge
    → ℕ
    → String
    → List String
    → ℕ
    → ℕ
    → Outcome (Option (List (String × List StructuralPath)))
unfolding relevant_to search answer_of
find_variants calls max_depth source targets max_variants max_states =
    let relevant = relevant_to calls targets in
    if ltb (min max_variants max_states) 1
    then raised (value_error "结构路径预算必须为正数")
    else (if source == "" || is_empty targets
        then returned (some [])
        else (if elem source relevant
            then returned (
                answer_of (
                  search calls relevant targets max_depth max_variants max_states (suc max_states)
                    (record {
                      queue = start source ∷ [];
                      explored = 0;
                      truncated = false;
                      results = [];
                    })))
            else returned (some [])))
