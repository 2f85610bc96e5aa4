-- ===== src/GraphCore/Validity.antt =====
-- What a graph must be for validation.py to find no issue, said without its loops.
use code_explorer.Base.{
  String, Bool, true, false, Option, none, some, List, [], ◌∷◌, ◌≡◌, ◌≢◌, ◌↔◌, ◌⊎◌, refl, arith,
  sym, ◌∙◌, inl, inr, In, elem_iff, if◌then◌else◌, eq_iff,
}
use code_explorer.GraphCore.{
  GraphNodeRef, GraphEdgeRef, node_issues, edge_identity, edge_endpoints, edge_issues, validate,
  with_issue, is_missing, all_issues, GraphValidationIssue,
}

-- The identities are not empty and differ from each other and from those seen.
abbrev pub AreNew : List String → List String → Type 0
AreNew [] seen = Unit
AreNew (x ∷ xs) seen = (x ≢ "") × (In x seen → ⊥) × AreNew xs (x ∷ seen)

abbrev pub node_ids_of : List GraphNodeRef → List String
node_ids_of [] = []
node_ids_of (n ∷ ns) = n.node_id ∷ node_ids_of ns

abbrev pub edge_ids_of : List GraphEdgeRef → List String
edge_ids_of [] = []
edge_ids_of (e ∷ es) = e.edge_id ∷ edge_ids_of es

-- Each edge joins two of the nodes.
abbrev pub AreJoined : List String → List GraphEdgeRef → Type 0
AreJoined node_ids [] = Unit
AreJoined node_ids (e ∷ es) = In e.source node_ids × In e.target node_ids × AreJoined node_ids es

node_issues_iff :
    (ns : List GraphNodeRef) (seen : List String)
    → ((node_issues ns seen).0 ≡ []) ↔ AreNew (node_ids_of ns) seen
unfolding node_issues
node_issues_iff [] seen = (λ e. tt, λ t. refl)
node_issues_iff (n ∷ ns) seen =
    ground
      (arith, node_issues_iff ns (n.node_id ∷ seen), eq_iff n.node_id "", elem_iff n.node_id seen)

-- After a loop without issues, the set holds the identities of the nodes.
node_set :
    (ns : List GraphNodeRef) (seen : List String) (x : String)
    → AreNew (node_ids_of ns) seen
    → In x (node_issues ns seen).1 ↔ (In x seen ⊎ In x (node_ids_of ns))
unfolding node_issues
node_set [] seen x k = (λ m. inl m, λ m. ground (arith, m))
node_set (n ∷ ns) seen x k =
    ground
      (arith, node_set ns (n.node_id ∷ seen) x k.2, eq_iff n.node_id "", elem_iff n.node_id seen, k)

New-nonempty : (xs seen : List String) (x : String) → AreNew xs seen → In x xs → x ≢ ""
New-nonempty [] seen x k m = absurd m
New-nonempty (y ∷ xs) seen x k (inl e) = λ h. k.0 (sym e ∙ h)
New-nonempty (y ∷ xs) seen x k (inr m) = New-nonempty xs (y ∷ seen) x k.2 m

-- An endpoint that the edge loop does not report.
found_endpoint :
    (node_ids : List String) (x : String)
    → (is_missing node_ids x ≡ false) ↔ ((x ≢ "") × In x node_ids)
found_endpoint node_ids x = ground (arith, eq_iff x "", elem_iff x node_ids)

neither :
    (a b : Bool) (i j k : GraphValidationIssue)
    → ((if a then (if b then some i else some j) else (if b then some k else none)) ≡ none)
      ↔ ((a ≡ false) × (b ≡ false))
neither true true i j k = (λ e. absurd cc, λ (e, _). absurd cc)
neither true false i j k = (λ e. absurd cc, λ (e, _). absurd cc)
neither false true i j k = (λ e. absurd cc, λ (_, e). absurd cc)
neither false false i j k = (λ e. (refl, refl), λ h. refl)

endpoints_iff :
    (e : GraphEdgeRef) (node_ids : List String)
    → (edge_endpoints e node_ids ≡ none)
      ↔ ((is_missing node_ids e.source ≡ false) × (is_missing node_ids e.target ≡ false))
unfolding edge_endpoints
endpoints_iff e node_ids =
    neither (is_missing node_ids e.source) (is_missing node_ids e.target) _ _ _

identity_iff :
    (e : GraphEdgeRef) (seen : List String)
    → (edge_identity e seen ≡ none) ↔ ((e.edge_id ≢ "") × (In e.edge_id seen → ⊥))
unfolding edge_identity
identity_iff e seen = ground (arith, eq_iff e.edge_id "", elem_iff e.edge_id seen)

with_issue_iff :
    (o : Option GraphValidationIssue) (is : List GraphValidationIssue)
    → (with_issue o is ≡ []) ↔ ((o ≡ none) × (is ≡ []))
with_issue_iff none is = (λ e. (refl, e), λ (_, e). e)
with_issue_iff (some i) is = (λ e. absurd cc, λ (e, _). absurd cc)

-- Each edge joins two named nodes of the set.
abbrev JoinsSet : List String → List GraphEdgeRef → Type 0
JoinsSet node_ids [] = Unit
JoinsSet node_ids (e ∷ es) =
    ((e.source ≢ "") × In e.source node_ids)
    × ((e.target ≢ "") × In e.target node_ids)
    × JoinsSet node_ids es

edge_issues_iff :
    (node_ids : List String) (es : List GraphEdgeRef) (seen : List String)
    → (edge_issues node_ids es seen ≡ []) ↔ (AreNew (edge_ids_of es) seen × JoinsSet node_ids es)
unfolding edge_issues
edge_issues_iff node_ids [] seen = (λ e. (tt, tt), λ k. refl)
edge_issues_iff node_ids (e ∷ es) seen =
    let a =
      with_issue_iff (edge_identity e seen)
        (with_issue (edge_endpoints e node_ids) (edge_issues node_ids es (e.edge_id ∷ seen))) in
    let b =
      with_issue_iff (edge_endpoints e node_ids) (edge_issues node_ids es (e.edge_id ∷ seen)) in
    let c = edge_issues_iff node_ids es (e.edge_id ∷ seen) in
    let i = identity_iff e seen in
    let j = endpoints_iff e node_ids in
    let s = found_endpoint node_ids e.source in
    let t = found_endpoint node_ids e.target in
    (
      λ h.
          let (p, q) = a.0 h in
          let (r, u) = b.0 q in
          let (k, l) = c.0 u in
          let (m, n) = j.0 r in (((i.0 p).0, (i.0 p).1, k), (s.0 m, t.0 n, l)),
      λ ((k, l, m), (n, o, p)). a.1 (i.1 (k, l), b.1 (j.1 (s.1 n, t.1 o), c.1 (m, p))),
    )

JoinsSet-AreJoined :
    (ns : List GraphNodeRef) (es : List GraphEdgeRef)
    → AreNew (node_ids_of ns) []
    → JoinsSet (node_issues ns []).1 es ↔ AreJoined (node_ids_of ns) es
JoinsSet-AreJoined ns [] k = (λ t. t, λ t. t)
JoinsSet-AreJoined ns (e ∷ es) k = ground (
  arith,
  JoinsSet-AreJoined ns es k,
  node_set ns [] e.source k,
  node_set ns [] e.target k,
  New-nonempty (node_ids_of ns) [] e.source k,
  New-nonempty (node_ids_of ns) [] e.target k,
)

no_issues : (is js : List GraphValidationIssue) → (all_issues is js ≡ []) ↔ ((is ≡ []) × (js ≡ []))
no_issues [] js = (λ e. (refl, e), λ (_, e). e)
no_issues (i ∷ is) js = (λ e. absurd cc, λ (e, _). absurd cc)

-- The validator finds no issue exactly when the identities of the nodes are not empty and distinct,
-- those of the edges too, and every edge joins two of the nodes.
pub validate_iff :
    (ns : List GraphNodeRef) (es : List GraphEdgeRef)
    → (validate ns es ≡ [])
      ↔ (AreNew (node_ids_of ns) [] × AreNew (edge_ids_of es) [] × AreJoined (node_ids_of ns) es)
unfolding validate
validate_iff ns es =
    let a = no_issues (node_issues ns []).0 (edge_issues (node_issues ns []).1 es []) in
    let b = node_issues_iff ns [] in
    let c = edge_issues_iff (node_issues ns []).1 es [] in
    (
      λ h.
          let (p, q) = a.0 h in
          let k = b.0 p in (k, (c.0 q).0, (JoinsSet-AreJoined ns es k).0 (c.0 q).1),
      λ (k, l, m). a.1 (b.1 k, c.1 (l, (JoinsSet-AreJoined ns es k).1 m)),
    )
