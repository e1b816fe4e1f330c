-- ===== src/Graph/Cycle.antt =====
-- internal/graph/dependencies.go: FindCycle and visitForCycle. `deps node` is the list
-- `sortedNodesFromSet(r.Dependencies[node])`, over which visitForCycle loops.
-- The recursion takes fuel; Graph/Cycle/Ends shows how much is enough.
pub mod Sound
pub mod Ends
use proxystack_go.Prelude.{
  ℕ, zero, suc, ◌==◌, if◌then◌else◌, List, [], ◌∷◌, ◌++◌, Option, none, some, Map, lookup, put,
}
use proxystack_go.Graph.Nodes.{ServiceNode, ServiceNode_eq}

-- The values of `states`; a node that is not in the map has Go's "".
pub data Mark : Type 0 where
  visiting done : Mark

pub record Search : Type 0 where
  pub states : Map ServiceNode Mark
  pub path : List ServiceNode

pub data Outcome : Type 0 where
  out_of_fuel : Outcome
  cycle : List ServiceNode → Outcome
  clear : Search → Outcome

-- `for index, item := range *path { if item == dependency { … (*path)[index:] … } }`
unfoldable pub path_from : ServiceNode → List ServiceNode → Option (List ServiceNode)
path_from node [] = none
path_from node (item ∷ path) = if item == node then some (item ∷ path) else path_from node path

-- `path[:len(path)-1]`
unfoldable pub drop_last : List ServiceNode → List ServiceNode
drop_last [] = []
drop_last (x ∷ []) = []
drop_last (x ∷ y ∷ xs) = x ∷ drop_last (y ∷ xs)

-- `if cycle := …; len(cycle) > 0 { return cycle }`: every reported cycle has an element.
unfoldable pub and_then : Outcome → (Search → Outcome) → Outcome
and_then out_of_fuel next = out_of_fuel
and_then (cycle c) next = cycle c
and_then (clear s) next = next s

unfoldable pub enter : ServiceNode → Search → Search
enter node s = record { states = put node visiting s.states; path = s.path ++ node ∷ [] }

unfoldable pub leave : ServiceNode → Search → Search
leave node s = record { states = put node done s.states; path = drop_last s.path }

-- The body of the loop over the dependencies, `visit` being the recursive call.
unfoldable pub visit_dependency : (ServiceNode → Search → Outcome) → ServiceNode → Search → Outcome
visit_dependency visit dependency s = elim (lookup s.states dependency) [
  | none ↦ visit dependency s
  | some done ↦ clear s
  | some visiting ↦ elim (path_from dependency s.path) [
    | none ↦ visit dependency s
    | some loop ↦ cycle (loop ++ dependency ∷ [])
  ]
]

unfoldable pub visit_dependencies :
    (ServiceNode → Search → Outcome) → List ServiceNode → Search → Outcome
visit_dependencies visit [] s = clear s
visit_dependencies visit (d ∷ ds) s =
    and_then (visit_dependency visit d s) (visit_dependencies visit ds)

module _ (deps : ServiceNode → List ServiceNode) where
  unfoldable pub visit_for_cycle : ℕ → ServiceNode → Search → Outcome
  visit_for_cycle zero node s = out_of_fuel
  visit_for_cycle (suc fuel) node s =
      and_then (visit_dependencies (visit_for_cycle fuel) (deps node) (enter node s))
        (λ t. clear (leave node t))

  -- The body of the loop of FindCycle: a node that is done is passed over.
  unfoldable pub visit_root : ℕ → ServiceNode → Search → Outcome
  visit_root fuel node s = elim (lookup s.states node) [
    | some done ↦ clear s
    | _ ↦ visit_for_cycle fuel node s
  ]

  unfoldable pub visit_roots : ℕ → List ServiceNode → Search → Outcome
  visit_roots fuel [] s = clear s
  visit_roots fuel (node ∷ nodes) s = and_then (visit_root fuel node s) (visit_roots fuel nodes)

  -- FindCycle over the nodes in the order of sortedNodesFromSet; `clear` stands for nil.
  unfoldable pub find_cycle : ℕ → List ServiceNode → Outcome
  find_cycle fuel nodes = visit_roots fuel nodes (record { states = []; path = [] })
