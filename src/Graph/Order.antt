-- ===== src/Graph/Order.antt =====
-- internal/graph/dependencies.go: TopologicalOrder and appendTopological. `deps node` is the list
-- `sortedNodesFromSet(r.Dependencies[node])`. The recursion has no check against cycles, so it
-- takes fuel and answers `none` where that is used up; Graph/Order/Sorted shows that the number of
-- nodes is enough wherever FindCycle found no cycle.
pub mod Sorted
use proxystack_go.Prelude.{
  ℕ, zero, suc, if◌then◌else◌, List, [], ◌∷◌, ◌++◌, Option, none, some, contains, add,
}
use proxystack_go.Graph.Nodes.{ServiceNode, ServiceNode_eq, NodeSet}

-- `visited` and `ordered`.
pub record Progress : Type 0 where
  pub visited : NodeSet
  pub ordered : List ServiceNode

unfoldable pub then_append : Option Progress → (Progress → Option Progress) → Option Progress
then_append none next = none
then_append (some p) next = next p

-- `visited[node] = true; *ordered = append(*ordered, node)`
unfoldable pub place : ServiceNode → Progress → Progress
place node p = record { visited = add node p.visited; ordered = p.ordered ++ node ∷ [] }

-- The loop over the dependencies that are allowed, `append` being the recursive call.
unfoldable pub append_dependencies :
    NodeSet
    → (ServiceNode → Progress → Option Progress)
    → List ServiceNode
    → Progress
    → Option Progress
append_dependencies allowed append [] p = some p
append_dependencies allowed append (d ∷ ds) p =
    let rest = append_dependencies allowed append ds in
    if contains allowed d then then_append (append d p) rest else rest p

module _ (deps : ServiceNode → List ServiceNode) (allowed : NodeSet) where
  unfoldable pub append_topological : ℕ → ServiceNode → Progress → Option Progress
  append_topological zero node p = none
  append_topological (suc fuel) node p =
      let body =
        then_append (append_dependencies allowed (append_topological fuel) (deps node) p)
          (λ q. some (place node q)) in
      if contains p.visited node then some p else body

  -- The loop of TopologicalOrder over the sorted nodes.
  unfoldable pub append_roots : ℕ → List ServiceNode → Progress → Option Progress
  append_roots fuel [] p = some p
  append_roots fuel (node ∷ nodes) p =
      then_append (append_topological fuel node p) (append_roots fuel nodes)

  unfoldable pub topological_order : ℕ → List ServiceNode → Option (List ServiceNode)
  topological_order fuel nodes =
      elim (append_roots fuel nodes (record { visited = []; ordered = [] })) [
        | none ↦ none
        | some p ↦ some p.ordered
      ]
