-- ===== src/Graph/Compile/Edges.antt =====
-- The dependency map of internal/graph as a relation: what one write adds to it.
use proxystack_go.Prelude.{
  ◌≡◌, ◌∙◌, Bool, false, ◌||◌, ◌&&◌, if◌then◌else◌, Bool-cases, [], ◌∷◌, put, lookup-put, contains,
  contains-add, add, ◌==◌, arith, inl, inr,
}
use proxystack_go.Graph.Nodes.{
  ServiceNode, ServiceNode_eq, ServiceNode_eq_iff, NodeSet, Dependencies, dependencies_of,
}
use proxystack_go.Graph.Compile.{ensure_dependency_node, add_dependency, blank_dependencies}

-- Whether the map has the edge.
abbrev pub has_edge : Dependencies → ServiceNode → ServiceNode → Bool
has_edge g u v = contains (dependencies_of g u) v

dependencies_of-ensure :
    (node : ServiceNode) (g : Dependencies) (u : ServiceNode)
    → dependencies_of (ensure_dependency_node node g) u ≡ dependencies_of g u
unfolding dependencies_of ensure_dependency_node
dependencies_of-ensure node g u = ground (arith, lookup-put node [] g u, ServiceNode_eq_iff node u)

dependencies_of-put :
    (node : ServiceNode) (set : NodeSet) (g : Dependencies) (u : ServiceNode)
    → dependencies_of (put node set g) u ≡ (if node == u then set else dependencies_of g u)
unfolding dependencies_of
dependencies_of-put node set g u = ground (arith, lookup-put node set g u)

pub has_edge-add_dependency :
    (s t : ServiceNode) (g : Dependencies) (u v : ServiceNode)
    → has_edge (add_dependency s t g) u v ≡ (has_edge g u v || s == u && t == v)
unfolding add_dependency
has_edge-add_dependency s t g u v =
    let ensured = ensure_dependency_node t (ensure_dependency_node s g) in
    let same : (w : ServiceNode) → dependencies_of ensured w ≡ dependencies_of g w =
      λ w. dependencies_of-ensure t (ensure_dependency_node s g) w ∙ dependencies_of-ensure s g w in
    elim (Bool-cases (s == u)) [
      | inl here ↦
          let named = (ServiceNode_eq_iff s u).0 here in
          ground (
            arith,
            dependencies_of-put s (add t (dependencies_of ensured s)) ensured u,
            contains-add t (dependencies_of ensured s) v,
            same s,
            same u,
          )
      | inr elsewhere ↦
          ground
            (arith, dependencies_of-put s (add t (dependencies_of ensured s)) ensured u, same u)
    ]

pub has_edge-blank :
    (nodes : NodeSet) (g : Dependencies) (u v : ServiceNode)
    → has_edge g u v ≡ false
    → has_edge (blank_dependencies nodes g) u v ≡ false
unfolding blank_dependencies contains
has_edge-blank [] g u v h = h
has_edge-blank (node ∷ nodes) g u v h =
    has_edge-blank nodes (put node [] g) u v (ground (arith, dependencies_of-put node [] g u))
