-- ===== src/Graph/Nodes.antt =====
-- internal/graph/dependencies.go: ServiceNode, its names, sets of nodes and the dependency map.
use proxystack_go.Prelude.{
  true, Text_eq, Text, codes, text_eq, text_eq_iff, text_lt, Comparable, ◌==◌, if◌then◌else◌, Bool,
  not, ◌&&◌, List, [], ◌++◌, none, some, Map, lookup, ◌≡◌, ◌↔◌, arith,
}
use proxystack_go.Prelude.Sort.{sort_by}

pub record ServiceNode : Type 0 where
  pub stack : Text
  pub component : Text

pub ServiceNode_eq_iff :
    (a b : ServiceNode)
    → ((text_eq a.stack b.stack && text_eq a.component b.component) ≡ true) ↔ (a ≡ b)
ServiceNode_eq_iff a b =
    ground (arith, text_eq_iff a.stack b.stack, text_eq_iff a.component b.component)

instance abbrev pub ServiceNode_eq : Comparable ServiceNode
ServiceNode_eq = record {
  equals = λ a b. text_eq a.stack b.stack && text_eq a.component b.component;
  equals_iff = ServiceNode_eq_iff;
}

abbrev pub xray : Text
xray = codes "xray"

abbrev pub clash : Text
clash = codes "clash"

abbrev pub node_of : Text → Text → ServiceNode
node_of stack component = record { stack = stack; component = component }

unfoldable pub service_name : ServiceNode → Text
service_name s =
    if s.component == xray
    then codes "proxystack-xray@" ++ s.stack ++ codes ".service"
    else codes "proxystack-" ++ s.component ++ codes "@" ++ s.stack ++ codes ".service"

unfoldable pub label : ServiceNode → Text
label s = s.stack ++ codes "." ++ s.component

-- map[ServiceNode]bool
abbrev pub NodeSet : Type 0
NodeSet = List ServiceNode

-- The `less` of sortedNodesFromSet.
unfoldable pub node_less : ServiceNode → ServiceNode → Bool
node_less a b =
    if not (a.stack == b.stack) then text_lt a.stack b.stack else text_lt a.component b.component

unfoldable pub sorted_nodes_from_set : NodeSet → List ServiceNode
sorted_nodes_from_set nodes = sort_by node_less nodes

-- map[ServiceNode]map[ServiceNode]bool
abbrev pub Dependencies : Type 0
Dependencies = Map ServiceNode NodeSet

-- `dependencies[node]`, where a missing node has Go's nil map, which is empty.
unfoldable pub dependencies_of : Dependencies → ServiceNode → NodeSet
dependencies_of dependencies node = elim (lookup dependencies node) [ none ↦ [] | some set ↦ set ]
