-- ===== src/GraphCore.antt =====
-- backend/app/services/graph_core: the checks that every graph view passes (validation.py), over
-- its nodes and edges in the order in which it gives them (contracts.py).
pub mod Validity
mod Tests
use Prim.Native.String.{◌++◌}
use code_explorer.Base.{
  String, Bool, true, false, ◌||◌, not, Option, none, some, List, [], ◌∷◌, ◌==◌, elem,
  if◌then◌else◌,
}

pub record GraphNodeRef : Type 0 where
  pub node_id : String
  pub kind : String

pub record GraphEdgeRef : Type 0 where
  pub edge_id : String
  pub source : String
  pub target : String
  pub kind : String

pub data IssueCode : Type 0 where
  duplicate_node duplicate_edge dangling_edge empty_identity : IssueCode

pub record GraphValidationIssue : Type 0 where
  pub code : IssueCode
  pub message : String
  pub node_id : Option String
  pub edge_id : Option String

abbrev issue : IssueCode → String → Option String → Option String → GraphValidationIssue
issue code message node_id edge_id = record {
  code = code;
  message = message;
  node_id = node_id;
  edge_id = edge_id;
}

-- The loop over the nodes: its issues, and the set of identities that it leaves.
unfoldable pub node_issues :
    List GraphNodeRef → List String → List GraphValidationIssue × List String
node_issues [] seen = ([], seen)
node_issues (n ∷ ns) seen =
    let skipped = node_issues ns seen in
    let added = node_issues ns (n.node_id ∷ seen) in
    if n.node_id == ""
    then (issue empty_identity "图节点缺少稳定身份。" none none ∷ skipped.0, skipped.1)
    else (if elem n.node_id seen
        then (
          issue duplicate_node ("节点身份重复：" ++ n.node_id) (some n.node_id) none ∷ added.0,
          added.1,
        )
        else added)

abbrev pub with_issue :
    Option GraphValidationIssue → List GraphValidationIssue → List GraphValidationIssue
with_issue none issues = issues
with_issue (some i) issues = i ∷ issues

-- The identity of an edge.
unfoldable pub edge_identity : GraphEdgeRef → List String → Option GraphValidationIssue
edge_identity e seen =
    if e.edge_id == ""
    then some (issue empty_identity "图边缺少稳定身份。" none none)
    else (if elem e.edge_id seen
        then some (issue duplicate_edge ("边身份重复：" ++ e.edge_id) none (some e.edge_id))
        else none)

-- `not endpoint or endpoint not in node_ids`
abbrev pub is_missing : List String → String → Bool
is_missing node_ids endpoint = endpoint == "" || not (elem endpoint node_ids)

abbrev pub edge_name : GraphEdgeRef → String
edge_name e = if e.edge_id == "" then "<empty>" else e.edge_id

-- `edge.edge_id or None`
abbrev pub id_or_none : String → Option String
id_or_none s = if s == "" then none else some s

abbrev pub dangling : GraphEdgeRef → String → GraphValidationIssue
dangling e missing =
    issue dangling_edge ("边 " ++ edge_name e ++ " 包含不存在的端点：" ++ missing) none (id_or_none e.edge_id)

-- The endpoints of an edge.
unfoldable pub edge_endpoints : GraphEdgeRef → List String → Option GraphValidationIssue
edge_endpoints e node_ids =
    if is_missing node_ids e.source
    then (if is_missing node_ids e.target
        then some (dangling e (e.source ++ ", " ++ e.target))
        else some (dangling e e.source))
    else (if is_missing node_ids e.target then some (dangling e e.target) else none)

-- The loop over the edges.
unfoldable pub edge_issues :
    List String → List GraphEdgeRef → List String → List GraphValidationIssue
unfolding edge_identity edge_endpoints
edge_issues node_ids [] seen = []
edge_issues node_ids (e ∷ es) seen =
    with_issue (edge_identity e seen)
      (with_issue (edge_endpoints e node_ids) (edge_issues node_ids es (e.edge_id ∷ seen)))

abbrev pub all_issues :
    List GraphValidationIssue → List GraphValidationIssue → List GraphValidationIssue
all_issues [] js = js
all_issues (i ∷ is) js = i ∷ all_issues is js

unfoldable pub validate : List GraphNodeRef → List GraphEdgeRef → List GraphValidationIssue
unfolding node_issues edge_issues
validate nodes edges =
    let (found, node_ids) = node_issues nodes [] in all_issues found (edge_issues node_ids edges [])
