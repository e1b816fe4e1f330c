-- ===== src/Graph/Compile.antt =====
-- internal/graph/dependencies.go: CompileReferenceGraph and BuildReferenceGraph.
pub mod Edges
pub mod Covers
pub mod Steps
pub mod Requires
pub mod Connected
pub mod Total
use proxystack_go.Prelude.{
  ℕ, suc, ◌+◌, Text, Text_eq, codes, decimal, if◌then◌else◌, not, ◌||◌, ◌==◌, is_empty, length,
  List, [], ◌∷◌, ◌++◌, map, Option, none, some, lookup, put, add,
}
use proxystack_go.Domain.{Stack, StackSet, ClashUpstream}
use proxystack_go.Graph.Nodes.{
  ServiceNode, ServiceNode_eq, node_of, xray, clash, service_name, NodeSet, sorted_nodes_from_set,
  Dependencies, dependencies_of,
}
use proxystack_go.Graph.References.{
  ReferenceIndex, parsed, refused, new_reference_index, resolve_xray_inbound,
  resolve_clash_listener, parse_component_ref, parse_xray_inbound_ref, socks,
}
use proxystack_go.Graph.Cycle.{out_of_fuel, cycle, clear, find_cycle}

pub record Issue : Type 0 where
  pub path : Text
  pub message : Text

pub record ReferenceGraph : Type 0 where
  pub index : ReferenceIndex
  pub dependencies : Dependencies
  pub nodes : NodeSet
  pub stack_names : List Text

pub record CompileResult : Type 0 where
  pub graph : ReferenceGraph
  pub issues : List Issue

unfoldable pub add_stack_nodes : Stack → NodeSet → NodeSet
add_stack_nodes stack nodes =
    if not stack.enabled
    then nodes
    else (let with_xray =
          if stack.xray.enabled then add (node_of stack.name xray) nodes else nodes in
        if stack.clash.enabled then add (node_of stack.name clash) with_xray else with_xray)

unfoldable pub collect_nodes : List Stack → NodeSet → NodeSet
collect_nodes [] nodes = nodes
collect_nodes (stack ∷ stacks) nodes = collect_nodes stacks (add_stack_nodes stack nodes)

unfoldable pub collect_service_nodes : List Stack → NodeSet
collect_service_nodes stacks = collect_nodes stacks []

unfoldable pub ensure_dependency_node : ServiceNode → Dependencies → Dependencies
ensure_dependency_node node dependencies = elim (lookup dependencies node) [
  | none ↦ put node [] dependencies
  | some set ↦ dependencies
]

-- ensureDependencyNode for both ends, and `dependencies[source][target] = true`.
unfoldable pub add_dependency : ServiceNode → ServiceNode → Dependencies → Dependencies
add_dependency source target dependencies =
    let ensured = ensure_dependency_node target (ensure_dependency_node source dependencies) in
    put source (add target (dependencies_of ensured source)) ensured

-- What is written while the graph is compiled: the dependency map, and the issues in their order.
pub record Compiling : Type 0 where
  pub dependencies : Dependencies
  pub issues : List Issue

unfoldable pub report : Text → Text → Compiling → Compiling
report path message c = record c {
  issues = c.issues ++ record { path = path; message = message } ∷ [];
}

unfoldable pub connect : ServiceNode → ServiceNode → Compiling → Compiling
connect source target c = record c { dependencies = add_dependency source target c.dependencies }

unfoldable pub outbound_path : Stack → Text
outbound_path stack = codes "stacks." ++ stack.name ++ codes ".xray.outbound.ref"

-- addXrayDependencies behind its first test.
unfoldable pub connect_outbound : Stack → ReferenceIndex → Compiling → Compiling
connect_outbound stack index c =
    let path = outbound_path stack in
    elim (parse_component_ref stack.xray.outbound.ref path) [
      | refused e ↦ report path e.message c
      | parsed p ↦
          if not (p.component == clash)
          then report path (codes "xray clash outbound ref must target clash component") c
          else if not (p.kind == socks)
          then report path (codes "xray clash outbound ref must target socks listener") c
          else elim (resolve_clash_listener index p.raw) [
            | none ↦ report path (codes "clash listener ref does not exist: " ++ p.raw) c
            | some endpoint ↦ connect (node_of stack.name xray) (node_of endpoint.stack clash) c
          ]
    ]

unfoldable pub add_xray_dependencies : Stack → ReferenceIndex → Compiling → Compiling
add_xray_dependencies stack index c =
    if not stack.enabled || not stack.xray.enabled || not (stack.xray.outbound.type == clash)
    then c
    else connect_outbound stack index c

unfoldable pub upstream_path : Stack → ℕ → Text
upstream_path stack index =
    codes "stacks." ++ stack.name ++ codes ".clash.upstreams[" ++ decimal index ++ codes "].ref"

-- The body of the loop of addClashDependencies, behind its first test and whole.
unfoldable pub connect_upstream : Stack → ReferenceIndex → ℕ → ClashUpstream → Compiling → Compiling
connect_upstream stack index i upstream c =
    let path = upstream_path stack i in
    elim (parse_xray_inbound_ref upstream.ref path) [
      | refused e ↦ report path e.message c
      | parsed p ↦ elim (resolve_xray_inbound index p.raw) [
        | none ↦ report path (codes "xray inbound ref does not exist: " ++ p.raw) c
        | some endpoint ↦
            if not (endpoint.kind == codes "socks5")
            then report path
                (codes "xray-socks5 ref must target socks5 inbound, got "
                  ++ endpoint.kind
                  ++ codes ": "
                  ++ p.raw)
                c
            else connect (node_of stack.name clash) (node_of endpoint.stack xray) c
      ]
    ]

unfoldable pub add_upstream : Stack → ReferenceIndex → ℕ → ClashUpstream → Compiling → Compiling
add_upstream stack index i upstream c =
    if not (upstream.type == codes "xray-socks5")
    then c
    else connect_upstream stack index i upstream c

unfoldable pub add_upstreams :
    Stack → ReferenceIndex → ℕ → List ClashUpstream → Compiling → Compiling
add_upstreams stack index i [] c = c
add_upstreams stack index i (upstream ∷ upstreams) c =
    add_upstreams stack index (i + 1) upstreams (add_upstream stack index i upstream c)

unfoldable pub add_clash_dependencies : Stack → ReferenceIndex → Compiling → Compiling
add_clash_dependencies stack index c =
    if not stack.enabled || not stack.clash.enabled
    then c
    else add_upstreams stack index 0 stack.clash.upstreams c

unfoldable pub add_dependencies : List Stack → ReferenceIndex → Compiling → Compiling
add_dependencies [] index c = c
add_dependencies (stack ∷ stacks) index c =
    add_dependencies stacks index
      (add_clash_dependencies stack index (add_xray_dependencies stack index c))

-- `for node := range nodes { dependencies[node] = map[ServiceNode]bool{} }`
unfoldable pub blank_dependencies : NodeSet → Dependencies → Dependencies
blank_dependencies [] dependencies = dependencies
blank_dependencies (node ∷ nodes) dependencies = blank_dependencies nodes (put node [] dependencies)

unfoldable pub set_of_names : List Stack → List Text → List Text
set_of_names [] names = names
set_of_names (stack ∷ stacks) names = set_of_names stacks (add stack.name names)

-- sortedNodesFromSet(r.Dependencies[node])
unfoldable pub sorted_dependencies : ReferenceGraph → ServiceNode → List ServiceNode
sorted_dependencies g node = sorted_nodes_from_set (dependencies_of g.dependencies node)

unfoldable pub join_arrow : List Text → Text
join_arrow [] = []
join_arrow (l ∷ []) = l
join_arrow (l ∷ m ∷ ls) = l ++ codes " -> " ++ join_arrow (m ∷ ls)

unfoldable pub format_cycle : List ServiceNode → Text
format_cycle c = join_arrow (map service_name c)

-- The fuel with which the graph is searched: one more than its nodes.
abbrev pub depth : ReferenceGraph → ℕ
depth g = suc (length g.nodes)

-- `none` where the fuel is used up, which Graph/Compile/Total excludes.
unfoldable pub validate_acyclic : ReferenceGraph → Option (List Issue)
validate_acyclic g =
    elim (find_cycle (sorted_dependencies g) (depth g) (sorted_nodes_from_set g.nodes)) [
      | out_of_fuel ↦ none
      | clear s ↦ some []
      | cycle c ↦ some (
          record {
            path = codes "dependency_graph";
            message = codes "dependency cycle detected: " ++ format_cycle c;
          }
          ∷ [])
    ]

unfoldable pub compiled : List Stack → Compiling
compiled stacks =
    add_dependencies stacks (new_reference_index stacks)
      (record { dependencies = blank_dependencies (collect_service_nodes stacks) []; issues = [] })

unfoldable pub graph_of : List Stack → ReferenceGraph
graph_of stacks = record {
  index = new_reference_index stacks;
  dependencies = (compiled stacks).dependencies;
  nodes = collect_service_nodes stacks;
  stack_names = set_of_names stacks [];
}

unfoldable pub compile_reference_graph : StackSet → Option CompileResult
compile_reference_graph set =
    let graph = graph_of set.stacks in
    let issues = (compiled set.stacks).issues in
    if is_empty issues
    then elim (validate_acyclic graph) [
      | none ↦ none
      | some more ↦ some (record { graph = graph; issues = issues ++ more })
    ]
    else some (record { graph = graph; issues = issues })

-- A graph, or the issues of ReferenceGraphError.
pub data BuildResult : Type 0 where
  built : ReferenceGraph → BuildResult
  rejected : List Issue → BuildResult

unfoldable pub build_reference_graph : StackSet → Option BuildResult
build_reference_graph set = elim (compile_reference_graph set) [
  | none ↦ none
  | some r ↦ some (if is_empty r.issues then built r.graph else rejected r.issues)
]
