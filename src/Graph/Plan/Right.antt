-- ===== src/Graph/Plan/Right.antt =====
-- BuildPlan on a graph that BuildReferenceGraph has built: it answers, and it orders exactly the
-- services that the target needs.
use proxystack_go.Prelude.{
  ◌+◌, ◌≡◌, refl, sym, ◌∙◌, false, not, ◌&&◌, ◌||◌, Bool-cases, is_empty, Text, Text_eq, length,
  List, [], ◌∷◌, Option, none, some, ◌∈◌, contains, contains-keep, keep, arith, inl, inr, ◌⊎◌, ◌↔◌,
  Answer, ok, error, length-le_of_subset, ◌==◌,
}
use mathlib.Core.Path.{subst}
use proxystack_go.Prelude.Sort.{length-sort_by}
use proxystack_go.Domain.{Stack, StackSet}
use proxystack_go.Graph.Nodes.{
  ServiceNode, ServiceNode_eq, ServiceNode_eq_iff, NodeSet, node_less, sorted_nodes_from_set,
  Dependencies, dependencies_of,
}
use proxystack_go.Graph.Walk.{IsOrdered, IsOrdered-IsNodup}
use proxystack_go.Graph.Order.Sorted.{allowed_deps, Sorts, topological_order-Sorts}
use proxystack_go.Graph.Closure.Reaches.{Reaches, target, step, weight, Collects, closure-Collects}
use proxystack_go.Graph.Compile.{
  ReferenceGraph, built, build_reference_graph, sorted_dependencies, depth,
}
use proxystack_go.Graph.Compile.Total.{
  IsRight, Answers, contains-sorted, build_reference_graph-Answers,
}
use proxystack_go.Graph.Plan.{
  select_target_nodes, order_of, edge_count, closure_of, DependencyPlan, plan_for, build_plan,
  collect_dependency_edges, missing_stack,
}

weight-empty : (g : Dependencies) → weight [] g ≡ edge_count g
unfolding edge_count contains
weight-empty [] = refl
weight-empty ((n, set) ∷ g) = ground (arith, weight-empty g)

-- What the services of the target set need.
abbrev pub Needs : ReferenceGraph → NodeSet → ServiceNode → Type 0
Needs g targets = Reaches (dependencies_of g.dependencies) (sorted_nodes_from_set targets)

IsOrdered-all :
    (deps : ServiceNode → List ServiceNode) (plan : NodeSet) (seen xs : List ServiceNode)
    → ((u d : ServiceNode) → u ∈ xs → d ∈ deps u → d ∈ plan)
    → IsOrdered (allowed_deps deps plan) seen xs
    → IsOrdered deps seen xs
unfolding contains
IsOrdered-all deps plan seen [] closed h = tt
IsOrdered-all deps plan seen (x ∷ xs) closed h = (
  λ d m. h.0 d (
      ground
        (arith, contains-keep (contains plan) (deps x) d, m, closed x d, ServiceNode_eq_iff x x)),
  h.1,
  IsOrdered-all deps plan (x ∷ seen) xs (λ u d m e. closed u d (ground arith) e) h.2,
)

module _ (g : ReferenceGraph) where
  -- A plan is given; it orders what the targets need, each service once and behind all its
  -- dependencies, and its dependency nodes are those that are not targets.
  abbrev pub Plans : Text → NodeSet → Option DependencyPlan → Type 0
  Plans name targets none = ⊥
  Plans name targets (some p) =
      (p.target ≡ name)
      × IsOrdered (sorted_dependencies g) [] p.operation_order
      × ((v : ServiceNode) → (v ∈ p.operation_order) ↔ Needs g targets v)
      × ((v : ServiceNode)
          → contains p.dependency_nodes v
            ≡ (contains p.operation_order v && not (contains targets v)))

  -- BuildPlan's answer for a name: an error for the name of no stack, and a plan for the services of
  -- the named stack, or for all services if the name is empty.
  abbrev pub PlansTarget : Text → Option (Answer DependencyPlan) → Type 0
  PlansTarget name none = ⊥
  PlansTarget name (some (error e)) =
      (is_empty name ≡ false) × (contains g.stack_names name ≡ false)
  PlansTarget name (some (ok p)) =
      (targets : NodeSet) × ((v : ServiceNode)
        → contains targets v ≡ (contains g.nodes v && (is_empty name || v.stack == name)))
      × Plans name targets (some p)

module _ (stacks : List Stack) (g : ReferenceGraph) (right : IsRight stacks g) where
  -- The dependencies of a node, sorted or not.
  needed :
      (u v : ServiceNode)
      → contains (sorted_dependencies g u) v ≡ contains (dependencies_of g.dependencies u) v
  unfolding sorted_dependencies
  needed u v = contains-sorted (dependencies_of g.dependencies u) v

  Needs-nodes :
      (targets : NodeSet)
      → ((v : ServiceNode) → v ∈ targets → v ∈ g.nodes)
      → {v : ServiceNode} → Needs g targets v
      → v ∈ g.nodes
  Needs-nodes targets known (target {v} m) = known v (rw contains-sorted at m)
  Needs-nodes targets known (step {u} {v} r m) = right.targets u v m

  closure_of-Collects :
      (targets : NodeSet)
      → Collects g.dependencies (sorted_nodes_from_set targets) (closure_of g targets)
  unfolding closure_of sorted_nodes_from_set
  closure_of-Collects targets =
      closure-Collects g.dependencies (sorted_nodes_from_set targets)
        (length targets + edge_count g.dependencies)
        (omega (arith, length-sort_by node_less targets, weight-empty g.dependencies))

  Sorts-order_of :
      (plan : NodeSet) (sub : (v : ServiceNode) → v ∈ plan → v ∈ g.nodes)
      → Sorts (sorted_dependencies g) plan right.ordering.0 right.ordering.1 (order_of g plan)
  unfolding order_of
  Sorts-order_of plan sub =
      let (order, ordered, all) = right.ordering in
      topological_order-Sorts (sorted_dependencies g) plan order ordered (depth g)
        (sorted_nodes_from_set plan)
        (λ v. (λ m. rw contains-sorted at m, λ m. rw contains-sorted m))
        (λ v m. (all v).0 (sub v m))
        (omega (
          arith,
          length-le_of_subset order g.nodes
              (IsOrdered-IsNodup (sorted_dependencies g) order ordered) (λ v m. (all v).1 m),
        ))

  plan_for-Plans :
      (name : Text) (targets : NodeSet)
      → ((v : ServiceNode) → v ∈ targets → v ∈ g.nodes)
      → Plans g name targets (plan_for g name targets)
  unfolding plan_for
  plan_for-Plans name targets known = go (closure_of g targets) (closure_of-Collects targets)
    where
      finish :
          (plan : NodeSet) (o : Option (List ServiceNode))
          → ((v : ServiceNode) → (v ∈ plan) ↔ Needs g targets v)
          → Sorts (sorted_dependencies g) plan right.ordering.0 right.ordering.1 o
          → Plans g name targets (elim o [
            | none ↦ none
            | some ordered ↦ some (record {
              target = name;
              dependency_nodes = keep (λ n. not (contains targets n)) ordered;
              dependency_edges = collect_dependency_edges g plan ordered;
              operation_order = ordered;
            })
          ])
      finish plan none needs h = h
      finish plan (some ordered) needs h = (
        refl,
        IsOrdered-all (sorted_dependencies g) plan [] ordered
            (λ u d m e. (needs d).1 (step ((needs u).0 ((h.1 u).0 m)) (sym (needed u d) ∙ e))) h.0,
        λ v. (λ m. (needs v).0 ((h.1 v).0 m), λ n. (h.1 v).1 ((needs v).1 n)),
        λ v. contains-keep (λ n. not (contains targets n)) ordered v,
      )

      go :
          (c : Option NodeSet)
          → Collects g.dependencies (sorted_nodes_from_set targets) c
          → Plans g name targets (elim c [
            | none ↦ none
            | some plan ↦ elim (order_of g plan) [
              | none ↦ none
              | some ordered ↦ some (record {
                target = name;
                dependency_nodes = keep (λ n. not (contains targets n)) ordered;
                dependency_edges = collect_dependency_edges g plan ordered;
                operation_order = ordered;
              })
            ]
          ])
      go none h = h
      go (some plan) h =
          finish plan (order_of g plan) h
            (Sorts-order_of plan (λ v m. Needs-nodes targets known ((h v).0 m)))

  -- SelectTargetNodes gives the named stack's services, all for an empty name, or an error.
  select-cases :
      (name : Text)
      → ((e : Text) × (select_target_nodes g name ≡ error e)
          × (is_empty name ≡ false)
          × (contains g.stack_names name ≡ false))
        ⊎ ((targets : NodeSet) × (select_target_nodes g name ≡ ok targets)
            × ((v : ServiceNode)
                → contains targets v ≡ (contains g.nodes v && (is_empty name || v.stack == name))))
  unfolding select_target_nodes
  select-cases name = elim (Bool-cases (is_empty name)) [
    | inl every ↦ inr (g.nodes, ground (arith, every), λ v. ground (arith, every))
    | inr named ↦ elim (Bool-cases (contains g.stack_names name)) [
      | inl known ↦ inr (
        keep (λ n. n.stack == name) g.nodes,
        ground (arith, named, known),
        λ v. ground (arith, named, contains-keep (λ n. n.stack == name) g.nodes v),
      )
      | inr unknown ↦ inl (missing_stack name, ground (arith, named, unknown), named, unknown)
    ]
  ]

  build_plan-error :
      (name e : Text) → select_target_nodes g name ≡ error e → build_plan g name ≡ some (error e)
  unfolding build_plan
  build_plan-error name e h = ground (arith, h)

  build_plan-ok :
      (name : Text) (targets : NodeSet) (p : DependencyPlan)
      → select_target_nodes g name ≡ ok targets
      → plan_for g name targets ≡ some p
      → build_plan g name ≡ some (ok p)
  unfolding build_plan
  build_plan-ok name targets p h e = ground (arith, h, e)

  build_plan-PlansTarget : (name : Text) → PlansTarget g name (build_plan g name)
  build_plan-PlansTarget name = elim (select-cases name) [
    | inl (e, refused, named, unknown) ↦
        subst (PlansTarget g name) (sym (build_plan-error name e refused)) (named, unknown)
    | inr (targets, selected, those) ↦
        planned targets selected those (plan_for g name targets) refl
          (plan_for-Plans name targets (λ v m. ground (arith, those v, m)))
  ]
    where
      planned :
          (targets : NodeSet)
          → select_target_nodes g name ≡ ok targets
          → ((v : ServiceNode)
              → contains targets v ≡ (contains g.nodes v && (is_empty name || v.stack == name)))
          → (o : Option DependencyPlan) → plan_for g name targets ≡ o
          → Plans g name targets o
          → PlansTarget g name (build_plan g name)
      planned targets selected those none e h = absurd h
      planned targets selected those (some p) e h =
          subst (PlansTarget g name) (sym (build_plan-ok name targets p selected e))
            (targets, those, h)

-- On a graph that BuildReferenceGraph has built, BuildPlan answers for every target. If it
-- refuses one, the name is not empty and names no stack. Otherwise it takes the services of the named
-- stack as targets, all services for an empty name, and orders exactly the services that these reach
-- by dependencies, each one once and behind all its dependencies; the dependency nodes of the plan
-- are those of them that are not targets.
pub build_plan-Answers :
    (set : StackSet) (g : ReferenceGraph) (name : Text)
    → build_reference_graph set ≡ some (built g)
    → PlansTarget g name (build_plan g name)
build_plan-Answers set g name e =
    build_plan-PlansTarget set.stacks g
      (subst (Answers set.stacks) e (build_reference_graph-Answers set)) name
