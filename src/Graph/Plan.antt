-- ===== src/Graph/Plan.antt =====
-- internal/graph/dependencies.go: BuildPlan, SelectTargetNodes, CollectDependencyEdges and
-- ResolveTargetScope. `none` is used-up fuel, as in Graph/Order and Graph/Closure.
pub mod Right
use proxystack_go.Prelude.{
  ℕ, ◌+◌, Text, Text_eq, codes, is_empty, length, if◌then◌else◌, not, ◌==◌, strip_prefix, keep,
  contains, List, [], ◌∷◌, ◌++◌, Option, none, some, Answer, ok, error,
}
use proxystack_go.Graph.Nodes.{
  ServiceNode, ServiceNode_eq, node_of, xray, clash, NodeSet, sorted_nodes_from_set, Dependencies,
  dependencies_of,
}
use proxystack_go.Graph.Compile.{ReferenceGraph, sorted_dependencies, depth}
use proxystack_go.Graph.Order.{topological_order}
use proxystack_go.Graph.Closure.{collect_dependency_closure}

unfoldable pub missing_stack : Text → Text
missing_stack target = codes "stack does not exist: " ++ target

unfoldable pub select_target_nodes : ReferenceGraph → Text → Answer NodeSet
select_target_nodes g target =
    if is_empty target
    then ok g.nodes
    else if not (contains g.stack_names target)
    then error (missing_stack target)
    else ok (keep (λ n. n.stack == target) g.nodes)

-- TopologicalOrder(nodes); a nil argument is `g.nodes`.
unfoldable pub order_of : ReferenceGraph → NodeSet → Option (List ServiceNode)
order_of g nodes =
    topological_order (sorted_dependencies g) nodes (depth g) (sorted_nodes_from_set nodes)

-- The number of nodes and edges, which bounds the rounds of the closure's loop.
unfoldable pub edge_count : Dependencies → ℕ
edge_count [] = 0
edge_count ((node, set) ∷ rest) = length set + edge_count rest

unfoldable pub closure_of : ReferenceGraph → NodeSet → Option NodeSet
closure_of g targets =
    collect_dependency_closure (dependencies_of g.dependencies)
      (length targets + edge_count g.dependencies) (sorted_nodes_from_set targets)

-- The inner loop of CollectDependencyEdges.
unfoldable pub edges_from :
    NodeSet → ServiceNode → List ServiceNode → List (ServiceNode × ServiceNode)
edges_from plan node [] = []
edges_from plan node (d ∷ ds) =
    let rest = edges_from plan node ds in if contains plan d then (node, d) ∷ rest else rest

unfoldable pub collect_dependency_edges :
    ReferenceGraph → NodeSet → List ServiceNode → List (ServiceNode × ServiceNode)
collect_dependency_edges g plan [] = []
collect_dependency_edges g plan (node ∷ nodes) =
    edges_from plan node (sorted_dependencies g node) ++ collect_dependency_edges g plan nodes

pub record DependencyPlan : Type 0 where
  pub target : Text
  pub dependency_nodes : List ServiceNode
  pub dependency_edges : List (ServiceNode × ServiceNode)
  pub operation_order : List ServiceNode

-- The rest of BuildPlan, once the target's nodes are selected.
unfoldable pub plan_for : ReferenceGraph → Text → NodeSet → Option DependencyPlan
plan_for g target targets = elim (closure_of g targets) [
  | none ↦ none
  | some plan ↦ elim (order_of g plan) [
    | none ↦ none
    | some ordered ↦ some (record {
      target = target;
      dependency_nodes = keep (λ n. not (contains targets n)) ordered;
      dependency_edges = collect_dependency_edges g plan ordered;
      operation_order = ordered;
    })
  ]
]

unfoldable pub build_plan : ReferenceGraph → Text → Option (Answer DependencyPlan)
build_plan g target = elim (select_target_nodes g target) [
  | error e ↦ some (error e)
  | ok targets ↦ elim (plan_for g target targets) [ none ↦ none | some plan ↦ some (ok plan) ]
]

pub record TargetScope : Type 0 where
  pub raw : Text
  pub nodes : List ServiceNode

-- The branch of ResolveTargetScope for `xray/name` and `clash/name`.
unfoldable pub component_scope : ReferenceGraph → Text → Text → Text → Answer TargetScope
component_scope g raw component stack =
    if not (contains g.stack_names stack)
    then error (missing_stack stack)
    else if not (contains g.nodes (node_of stack component))
    then ok (record { raw = raw; nodes = [] })
    else ok (record { raw = raw; nodes = node_of stack component ∷ [] })

unfoldable pub ordered_scope : ReferenceGraph → Text → NodeSet → Option (Answer TargetScope)
ordered_scope g raw nodes = elim (order_of g nodes) [
  | none ↦ none
  | some ordered ↦ some (ok (record { raw = raw; nodes = ordered }))
]

-- After the test for the prefix, SplitN at the first "/" gives the component and the rest.
unfoldable pub resolve_target_scope : ReferenceGraph → Text → Option (Answer TargetScope)
resolve_target_scope g target =
    if is_empty target
    then ordered_scope g target g.nodes
    else elim (strip_prefix (codes "xray/") target) [
      | some stack ↦ some (component_scope g target xray stack)
      | none ↦ elim (strip_prefix (codes "clash/") target) [
        | some stack ↦ some (component_scope g target clash stack)
        | none ↦ elim (select_target_nodes g target) [
          | error e ↦ some (error e)
          | ok nodes ↦ ordered_scope g target nodes
        ]
      ]
    ]
