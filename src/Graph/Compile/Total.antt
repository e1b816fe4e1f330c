-- ===== src/Graph/Compile/Total.antt =====
-- BuildReferenceGraph always answers, and what it builds is right: the edges are the references
-- between enabled services, they stay among the nodes, and no cycle passes through a node.
use proxystack_go.Prelude.{
  codes, ◌≡◌, ◌≢◌, refl, sym, true, List, [], ◌∷◌, ◌++◌, Option, none, some, ◌∈◌, contains, lookup,
  arith, inl, inr, ◌⊎◌, ◌↔◌, List-cases,
}
use mathlib.Core.Path.{subst}
use proxystack_go.Prelude.Sort.{contains-sort_by}
use proxystack_go.Domain.{Stack, StackSet}
use proxystack_go.Graph.Nodes.{
  ServiceNode, ServiceNode_eq, NodeSet, node_of, xray, clash, node_less, sorted_nodes_from_set,
  dependencies_of,
}
use proxystack_go.Graph.Walk.{IsWalk, IsOrdered, IsCycle, not-IsCycle_of_IsOrdered}
use proxystack_go.Graph.References.{ReferenceIndex, new_reference_index}
use proxystack_go.Graph.Cycle.{Search, Outcome, out_of_fuel, cycle, clear, find_cycle}
use proxystack_go.Graph.Cycle.Ends.{Finishes, find_cycle-Finishes}
use proxystack_go.Graph.Compile.{
  Issue, Compiling, ReferenceGraph, sorted_dependencies, depth, validate_acyclic, compiled,
  graph_of, compile_reference_graph, BuildResult, built, rejected, build_reference_graph,
  collect_service_nodes, blank_dependencies, format_cycle,
}
use proxystack_go.Graph.Compile.Edges.{has_edge, has_edge-blank}
use proxystack_go.Graph.Compile.Covers.{new_reference_index-IsBacked, AllStacks-lookup}
use proxystack_go.Graph.Compile.Requires.{
  Requires, by_outbound, by_upstream, IsSound, add_dependencies-IsSound,
}
use proxystack_go.Graph.Compile.Connected.{all_outbounds, all_upstreams}

pub contains-sorted :
    (set : NodeSet) (v : ServiceNode) → contains (sorted_nodes_from_set set) v ≡ contains set v
unfolding sorted_nodes_from_set
contains-sorted set v = contains-sort_by node_less set v

module _ (stacks : List Stack) where
  abbrev index : ReferenceIndex
  index = new_reference_index stacks

  abbrev nodes : NodeSet
  nodes = collect_service_nodes stacks

  -- Every edge of the compiled map is a reference.
  compiled-IsSound : IsSound index stacks (compiled stacks)
  unfolding compiled
  compiled-IsSound =
      add_dependencies-IsSound index stacks stacks
        (record { dependencies = blank_dependencies nodes []; issues = [] }) (λ s m. m)
        λ u v h. absurd (
          unfold dependencies_of lookup contains in
          ground (arith, has_edge-blank nodes [] u v refl))

  -- Without an issue every reference has its edge.
  Requires-has_edge :
      (u v : ServiceNode)
      → (compiled stacks).issues ≡ []
      → Requires index stacks u v
      → has_edge (compiled stacks).dependencies u v ≡ true
  unfolding compiled
  Requires-has_edge u v silent (by_outbound stack endpoint m h found from to) =
      let start : Compiling = record { dependencies = blank_dependencies nodes []; issues = [] } in
      let (u', v', (endpoint', found', from', to'), e) =
        all_outbounds index stacks stack start m h silent in
      cc
  Requires-has_edge u v silent
        (by_upstream stack up endpoint m on listed typed found kind from to) =
      let start : Compiling = record { dependencies = blank_dependencies nodes []; issues = [] } in
      let (u', v', (endpoint', found', kind', from', to'), e) =
        all_upstreams index stacks stack up start m (on.0, on.1, listed, typed) silent in
      cc

  Requires-node : (u v : ServiceNode) → Requires index stacks u v → v ∈ nodes
  Requires-node u v (by_outbound stack endpoint m h found from to) = rw to (
      AllStacks-lookup (λ name. node_of name clash ∈ nodes) index.clash_listeners _ endpoint
        (new_reference_index-IsBacked stacks).listeners found)
  Requires-node u v (by_upstream stack up endpoint m on listed typed found kind from to) = rw to (
      AllStacks-lookup (λ name. node_of name xray ∈ nodes) index.xray_inbounds _ endpoint
        (new_reference_index-IsBacked stacks).inbounds found)

  -- The dependencies of any node are nodes.
  pub sorted_dependencies-closed :
      (u v : ServiceNode)
      → v ∈ sorted_dependencies (graph_of stacks) u
      → v ∈ (graph_of stacks).nodes
  unfolding sorted_dependencies graph_of
  sorted_dependencies-closed u v h =
      Requires-node u v (compiled-IsSound u v (rw contains-sorted at h))

  abbrev search : Outcome
  search =
      find_cycle (sorted_dependencies (graph_of stacks)) (depth (graph_of stacks))
        (sorted_nodes_from_set (graph_of stacks).nodes)

  pub search-Finishes :
      Finishes
        (sorted_dependencies (graph_of stacks))
        (graph_of stacks).nodes
        (sorted_nodes_from_set (graph_of stacks).nodes)
        search
  search-Finishes =
      find_cycle-Finishes (sorted_dependencies (graph_of stacks)) (graph_of stacks).nodes
        (λ u d _. sorted_dependencies-closed u d) (depth (graph_of stacks))
        (sorted_nodes_from_set (graph_of stacks).nodes) (λ v m. rw contains-sorted at m)
        (omega arith)

  -- The graph has the references between enabled services as its edges, their targets are nodes,
  -- no node lies on a cycle, and the nodes can be listed behind their dependencies.
  pub record IsRight (g : ReferenceGraph) : Type 0 where
    pub compiled_graph : g ≡ graph_of stacks
    pub edges :
        (u v : ServiceNode) → (has_edge g.dependencies u v ≡ true) ↔ Requires g.index stacks u v
    pub targets : (u v : ServiceNode) → has_edge g.dependencies u v ≡ true → v ∈ g.nodes
    pub acyclic :
        (x : ServiceNode) (inner : List ServiceNode)
        → x ∈ g.nodes
        → ¬ IsWalk (sorted_dependencies g) (x ∷ inner ++ x ∷ [])
    pub ordering :
        (order : List ServiceNode) × IsOrdered (sorted_dependencies g) [] order
        × ((v : ServiceNode) → (v ∈ g.nodes) ↔ (v ∈ order))

  -- A built graph is right; a rejection lists an issue, and it is due to an issue of a reference or
  -- to a cycle of the dependencies.
  abbrev pub Answers : Option BuildResult → Type 0
  Answers none = ⊥
  Answers (some (built g)) = IsRight g
  Answers (some (rejected issues)) =
      (issues ≢ [])
      × (((compiled stacks).issues ≢ [])
          ⊎ ((c : List ServiceNode) × IsCycle (sorted_dependencies (graph_of stacks)) c))

  graph_of-IsRight :
      (s : Search)
      → (compiled stacks).issues ≡ []
      → Finishes
          (sorted_dependencies (graph_of stacks))
          (graph_of stacks).nodes
          (sorted_nodes_from_set (graph_of stacks).nodes)
          (clear s)
      → IsRight (graph_of stacks)
  unfolding graph_of
  graph_of-IsRight s silent (order, ordered, all, known) = record {
    compiled_graph = refl;
    edges = λ u v. (compiled-IsSound u v, Requires-has_edge u v silent);
    targets = λ u v h. Requires-node u v (compiled-IsSound u v h);
    acyclic = λ x inner m.
        not-IsCycle_of_IsOrdered (sorted_dependencies (graph_of stacks)) order inner x ordered
          (all x (rw contains-sorted m));
    ordering = (order, ordered, λ v. (λ m. all v (rw contains-sorted m), known v));
  }

module _ (set : StackSet) where
  build-issues :
      (x : Issue) (rest : List Issue)
      → (compiled set.stacks).issues ≡ x ∷ rest
      → build_reference_graph set ≡ some (rejected (x ∷ rest))
  unfolding build_reference_graph compile_reference_graph
  build-issues x rest e = ground arith

  build-clear :
      (s : Search)
      → (compiled set.stacks).issues ≡ []
      → search set.stacks ≡ clear s
      → build_reference_graph set ≡ some (built (graph_of set.stacks))
  unfolding build_reference_graph compile_reference_graph validate_acyclic
  build-clear s silent e = ground arith

  build-cycle :
      (c : List ServiceNode)
      → (compiled set.stacks).issues ≡ []
      → search set.stacks ≡ cycle c
      → (issue : Issue) × (build_reference_graph set ≡ some (rejected (issue ∷ [])))
  unfolding build_reference_graph compile_reference_graph validate_acyclic
  build-cycle c silent e = (
    record {
      path = codes "dependency_graph";
      message = codes "dependency cycle detected: " ++ format_cycle c;
    },
    ground arith,
  )

  build_by_search :
      (o : Outcome)
      → search set.stacks ≡ o
      → Finishes
          (sorted_dependencies (graph_of set.stacks))
          (graph_of set.stacks).nodes
          (sorted_nodes_from_set (graph_of set.stacks).nodes)
          o
      → (compiled set.stacks).issues ≡ []
      → Answers set.stacks (build_reference_graph set)
  build_by_search out_of_fuel e f silent = absurd f
  build_by_search (cycle c) e f silent =
      let (issue, built_as) = build-cycle c silent e in
      subst (Answers set.stacks) (sym built_as) (cc, inr (c, f))
  build_by_search (clear s) e f silent =
      subst (Answers set.stacks) (sym (build-clear s silent e))
        (graph_of-IsRight set.stacks s silent f)

-- BuildReferenceGraph answers for every stack set. What it builds has exactly the references between
-- enabled services as its edges, every target is a node, no node lies on a cycle, and the nodes can
-- be listed behind their dependencies. It rejects with at least one issue, and only if a reference
-- has an issue or the dependencies have a cycle.
pub build_reference_graph-Answers :
    (set : StackSet) → Answers set.stacks (build_reference_graph set)
build_reference_graph-Answers set = elim (List-cases (compiled set.stacks).issues) [
  | inr (x, rest, e) ↦
      subst (Answers set.stacks) (sym (build-issues set x rest e)) (cc, inl (λ silent. cc))
  | inl silent ↦ build_by_search set (search set.stacks) refl (search-Finishes set.stacks) silent
]
