-- ===== src/GraphCore/Tests.antt =====
-- Two small graphs, on which validation.py is run.
use code_explorer.Base.{String, none, some, [], ◌∷◌, ◌≡◌, refl, ◌↔◌}
use code_explorer.GraphCore.Validity.{AreNew, AreJoined, validate_iff}
use code_explorer.GraphCore.{GraphNodeRef, GraphEdgeRef, validate, duplicate_node, dangling_edge}

abbrev node : String → GraphNodeRef
node x = record { node_id = x; kind = "function" }

abbrev edge : String → String → String → GraphEdgeRef
edge i u v = record { edge_id = i; source = u; target = v; kind = "calls" }

accepts_loop : validate (node "a" ∷ node "b" ∷ []) (edge "1" "a" "b" ∷ edge "2" "b" "a" ∷ []) ≡ []
unfolding validate
accepts_loop = refl

reports_both :
    validate (node "a" ∷ node "a" ∷ []) (edge "1" "a" "b" ∷ [])
    ≡ record { code = duplicate_node; message = "节点身份重复：a"; node_id = some "a"; edge_id = none }
      ∷ record {
        code = dangling_edge;
        message = "边 1 包含不存在的端点：b";
        node_id = none;
        edge_id = some "1";
      }
      ∷ []
unfolding validate
reports_both = refl

validate_iff_example : (validate (node "a" ∷ node "b" ∷ []) (edge "1" "a" "b" ∷ []) ≡ []) ↔ (
    AreNew ("a" ∷ "b" ∷ []) []
    × AreNew ("1" ∷ []) []
    × AreJoined ("a" ∷ "b" ∷ []) (edge "1" "a" "b" ∷ []))
validate_iff_example = validate_iff (node "a" ∷ node "b" ∷ []) (edge "1" "a" "b" ∷ [])
