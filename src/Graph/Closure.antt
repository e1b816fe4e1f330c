-- ===== src/Graph/Closure.antt =====
-- internal/graph/dependencies.go: CollectDependencyClosure. `pending` is the slice with its end
-- first: the loop takes the last element and appends the dependencies in the order of a `range`.
-- The loop takes fuel; Graph/Closure/Reaches shows how much is enough.
pub mod Reaches
use proxystack_go.Prelude.{
  ℕ, zero, suc, if◌then◌else◌, List, [], ◌∷◌, Option, none, some, contains, add,
}
use proxystack_go.Graph.Nodes.{ServiceNode, ServiceNode_eq, NodeSet}

-- `for dependency := range set { pending = append(pending, dependency) }`
unfoldable pub push_all : NodeSet → List ServiceNode → List ServiceNode
push_all [] pending = pending
push_all (d ∷ ds) pending = push_all ds (d ∷ pending)

module _ (set : ServiceNode → NodeSet) where
  unfoldable pub collect : ℕ → List ServiceNode → NodeSet → Option NodeSet
  collect fuel [] collected = some collected
  collect zero (node ∷ pending) collected = none
  collect (suc fuel) (node ∷ pending) collected =
      let old = collect fuel pending collected in
      let new = collect fuel (push_all (set node) pending) (add node collected) in
      if contains collected node then old else new

  unfoldable pub collect_dependency_closure : ℕ → List ServiceNode → Option NodeSet
  collect_dependency_closure fuel targets = collect fuel (push_all targets []) []
