-- ===== src/Examples/Graphs.antt =====
-- internal/graph: the theorems on the graph, applied to two stacks and to a cycle of two nodes.
use proxystack_go.Prelude.{
  refl, Text_eq, codes, ◌==◌, ◌∈◌, contains, List, [], ◌∷◌, arith, if◌then◌else◌,
}
use proxystack_go.Graph.Nodes.{
  ServiceNode, ServiceNode_eq, node_of, xray, clash, Dependencies, dependencies_of,
}
use proxystack_go.Graph.Walk.{IsOrdered}
use proxystack_go.Graph.Cycle.{find_cycle}
use proxystack_go.Graph.Cycle.Ends.{Decides, find_cycle-Decides}
use proxystack_go.Graph.Order.{topological_order}
use proxystack_go.Graph.Order.Sorted.{Sorts, topological_order-Sorts}
use proxystack_go.Graph.Closure.{collect_dependency_closure}
use proxystack_go.Graph.Closure.Reaches.{Collects, closure-Collects}
use proxystack_go.Graph.Compile.{build_reference_graph, graph_of}
use proxystack_go.Graph.Plan.{build_plan}
use proxystack_go.Graph.Plan.Right.{PlansTarget, build_plan-Answers}
use proxystack_go.Graph.Compile.Total.{Answers, build_reference_graph-Answers}
use proxystack_go.Examples.Samples.{two_stacks}

abbrev a : ServiceNode
a = node_of (codes "a") xray

abbrev b : ServiceNode
b = node_of (codes "b") clash

-- `a` depends on `b`.
abbrev chain : ServiceNode → List ServiceNode
chain n = if n == a then b ∷ [] else []

-- `a` and `b` depend on each other.
abbrev ring : ServiceNode → List ServiceNode
ring n = if n == a then b ∷ [] else if n == b then a ∷ [] else []

abbrev both : List ServiceNode
both = a ∷ b ∷ []

build_reference_graph_example : Answers two_stacks.stacks (build_reference_graph two_stacks)
build_reference_graph_example = build_reference_graph-Answers two_stacks

find_cycle-Decides_example : Decides ring both (find_cycle ring 2 both)
unfolding contains
find_cycle-Decides_example =
    find_cycle-Decides ring both (λ u d m e. ring-closed u d e) 2 both (λ v m. m) (omega arith)
  where
    ring-closed : (u d : ServiceNode) → d ∈ ring u → d ∈ both
    ring-closed u d e = ground (arith, e)

chain-IsOrdered : IsOrdered chain [] (b ∷ a ∷ [])
unfolding contains proxystack_go.Prelude.text_eq
chain-IsOrdered = (λ d m. absurd (ground arith), refl, (λ d m. m, refl, tt))

topological_order-Sorts_example :
    Sorts chain both (b ∷ a ∷ []) chain-IsOrdered (topological_order chain both 2 both)
unfolding contains
topological_order-Sorts_example =
    topological_order-Sorts chain both (b ∷ a ∷ []) chain-IsOrdered 2 both (λ v. (λ m. m, λ m. m))
      (λ v m. ground arith) (omega arith)

abbrev edges : Dependencies
edges = (a, b ∷ []) ∷ (b, []) ∷ []

closure-Collects_example :
    Collects edges (a ∷ []) (collect_dependency_closure (dependencies_of edges) 3 (a ∷ []))
unfolding contains
closure-Collects_example = closure-Collects edges (a ∷ []) 3 (omega arith)

build_plan-Answers_example :
    PlansTarget
      (graph_of two_stacks.stacks)
      (codes "a")
      (build_plan (graph_of two_stacks.stacks) (codes "a"))
unfolding proxystack_go.Prelude.contains proxystack_go.Prelude.add proxystack_go.Prelude.lookup
    proxystack_go.Prelude.put proxystack_go.Prelude.text_eq proxystack_go.Prelude.text_lt
    proxystack_go.Prelude.strip_prefix proxystack_go.Prelude.has_prefix
    proxystack_go.Prelude.has_infix proxystack_go.Prelude.decimal
    proxystack_go.Prelude.Sort.insert_by proxystack_go.Prelude.Sort.sort_by
    proxystack_go.Graph.Nodes.service_name proxystack_go.Graph.Nodes.label
    proxystack_go.Graph.Nodes.node_less proxystack_go.Graph.Nodes.sorted_nodes_from_set
    proxystack_go.Graph.Nodes.dependencies_of proxystack_go.Graph.References.onto_first
    proxystack_go.Graph.References.split_dots proxystack_go.Graph.References.has_empty
    proxystack_go.Graph.References.split_ref proxystack_go.Graph.References.part
    proxystack_go.Graph.References.parse_xray_inbound_ref
    proxystack_go.Graph.References.parse_component_ref proxystack_go.Graph.References.endpoint_users
    proxystack_go.Graph.References.inbound_endpoint proxystack_go.Graph.References.index_inbounds
    proxystack_go.Graph.References.index_xray_inbounds
    proxystack_go.Graph.References.listener_endpoint proxystack_go.Graph.References.index_listeners
    proxystack_go.Graph.References.index_clash_listeners proxystack_go.Graph.References.put_all
    proxystack_go.Graph.References.add_stack_endpoints proxystack_go.Graph.References.add_endpoints
    proxystack_go.Graph.References.new_reference_index
    proxystack_go.Graph.References.resolve_xray_inbound
    proxystack_go.Graph.References.resolve_clash_listener proxystack_go.Graph.Cycle.path_from
    proxystack_go.Graph.Cycle.drop_last proxystack_go.Graph.Cycle.and_then
    proxystack_go.Graph.Cycle.enter proxystack_go.Graph.Cycle.leave
    proxystack_go.Graph.Cycle.visit_dependency proxystack_go.Graph.Cycle.visit_dependencies
    proxystack_go.Graph.Cycle.visit_for_cycle proxystack_go.Graph.Cycle.visit_root
    proxystack_go.Graph.Cycle.visit_roots proxystack_go.Graph.Cycle.find_cycle
    proxystack_go.Graph.Compile.add_stack_nodes proxystack_go.Graph.Compile.collect_nodes
    proxystack_go.Graph.Compile.collect_service_nodes
    proxystack_go.Graph.Compile.ensure_dependency_node proxystack_go.Graph.Compile.add_dependency
    proxystack_go.Graph.Compile.report proxystack_go.Graph.Compile.connect
    proxystack_go.Graph.Compile.outbound_path proxystack_go.Graph.Compile.connect_outbound
    proxystack_go.Graph.Compile.add_xray_dependencies proxystack_go.Graph.Compile.upstream_path
    proxystack_go.Graph.Compile.connect_upstream proxystack_go.Graph.Compile.add_upstream
    proxystack_go.Graph.Compile.add_upstreams proxystack_go.Graph.Compile.add_clash_dependencies
    proxystack_go.Graph.Compile.add_dependencies proxystack_go.Graph.Compile.blank_dependencies
    proxystack_go.Graph.Compile.set_of_names proxystack_go.Graph.Compile.sorted_dependencies
    proxystack_go.Graph.Compile.join_arrow proxystack_go.Graph.Compile.format_cycle
    proxystack_go.Graph.Compile.validate_acyclic proxystack_go.Graph.Compile.compiled
    proxystack_go.Graph.Compile.graph_of proxystack_go.Graph.Compile.compile_reference_graph
    proxystack_go.Graph.Compile.build_reference_graph
build_plan-Answers_example =
    build_plan-Answers two_stacks (graph_of two_stacks.stacks) (codes "a") refl
