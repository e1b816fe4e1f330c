-- ===== src/Graph/Closure/Reaches.antt =====
-- CollectDependencyClosure ends and collects exactly the nodes that can be reached from the targets.
use proxystack_go.Prelude.{
  ℕ, zero, suc, ◌+◌, ◌≤◌, ◌≡◌, refl, ap, false, ◌||◌, if◌then◌else◌, Bool-cases, List, [], ◌∷◌,
  Option, none, some, ◌∈◌, contains, contains-add, add, length, lookup, ◌==◌, arith, inl, inr, ◌⊎◌,
  ◌↔◌,
}
use proxystack_go.Graph.Nodes.{
  ServiceNode, ServiceNode_eq, ServiceNode_eq_iff, NodeSet, Dependencies, dependencies_of,
}
use proxystack_go.Graph.Closure.{push_all, collect, collect_dependency_closure}

-- The targets and, from there on, all dependencies.
pub data Reaches (set : ServiceNode → NodeSet) (targets : List ServiceNode)
    : ServiceNode → Type 0 where
  target : {v : ServiceNode} → v ∈ targets → Reaches set targets v
  step : {u v : ServiceNode} → Reaches set targets u → v ∈ set u → Reaches set targets v

contains-push_all :
    (ds pending : List ServiceNode) (v : ServiceNode)
    → contains (push_all ds pending) v ≡ (contains ds v || contains pending v)
unfolding push_all contains
contains-push_all [] pending v = refl
contains-push_all (d ∷ ds) pending v = ground (arith, contains-push_all ds (d ∷ pending) v)

length-push_all :
    (ds pending : List ServiceNode) → length (push_all ds pending) ≡ length ds + length pending
unfolding push_all
length-push_all [] pending = omega arith
length-push_all (d ∷ ds) pending = omega (arith, length-push_all ds (d ∷ pending))

-- The edges out of the nodes that are not collected yet.
abbrev pub weight : NodeSet → Dependencies → ℕ
weight collected [] = 0
weight collected ((node, set) ∷ rest) =
    (if contains collected node then 0 else length set) + weight collected rest

weight-add_le :
    (node : ServiceNode) (collected : NodeSet) (g : Dependencies)
    → weight (add node collected) g ≤ weight collected g
weight-add_le node collected [] = omega arith
weight-add_le node collected ((n, set) ∷ g) =
    ground (arith, weight-add_le node collected g, contains-add node collected n)

weight-add :
    (node : ServiceNode) (collected : NodeSet) (g : Dependencies)
    → contains collected node ≡ false
    → weight (add node collected) g + length (dependencies_of g node) ≤ weight collected g
unfolding dependencies_of lookup
weight-add node collected [] new = omega arith
weight-add node collected ((n, set) ∷ g) new = ground (
  arith,
  weight-add node collected g new,
  weight-add_le node collected g,
  contains-add node collected n,
  ServiceNode_eq_iff n node,
  ServiceNode_eq_iff node n,
)

module _ (g : Dependencies) (targets : List ServiceNode) where
  abbrev Reached : ServiceNode → Type 0
  Reached = Reaches (dependencies_of g) targets

  record Inv (pending : List ServiceNode) (collected : NodeSet) : Type 0 where
    sound : (v : ServiceNode) → (v ∈ collected) ⊎ (v ∈ pending) → Reached v
    closed :
        (u v : ServiceNode)
        → u ∈ collected
        → v ∈ dependencies_of g u
        → (v ∈ collected) ⊎ (v ∈ pending)
    started : (v : ServiceNode) → v ∈ targets → (v ∈ collected) ⊎ (v ∈ pending)

  -- A set is returned, and it holds exactly the reached nodes.
  abbrev pub Collects : Option NodeSet → Type 0
  Collects none = ⊥
  Collects (some collected) = (v : ServiceNode) → (v ∈ collected) ↔ Reached v

  complete :
      (collected : NodeSet) → Inv [] collected → {v : ServiceNode} → Reached v → v ∈ collected
  unfolding contains
  complete collected inv (target {v} m) = ground (arith, inv.started v m)
  complete collected inv (step {u} {v} r m) =
      ground (arith, inv.closed u v (complete collected inv r) m)

  Inv-old :
      (node : ServiceNode) (pending : List ServiceNode) (collected : NodeSet)
      → node ∈ collected
      → Inv (node ∷ pending) collected
      → Inv pending collected
  unfolding contains
  Inv-old node pending collected old inv = record {
    sound = λ v m. inv.sound v (ground arith);
    closed = λ u v m e. ground (arith, inv.closed u v m e, ServiceNode_eq_iff node v);
    started = λ v m. ground (arith, inv.started v m, ServiceNode_eq_iff node v);
  }

  Inv-new :
      (node : ServiceNode) (pending : List ServiceNode) (collected : NodeSet)
      → Inv (node ∷ pending) collected
      → Inv (push_all (dependencies_of g node) pending) (add node collected)
  unfolding contains
  Inv-new node pending collected inv =
      let from_node = inv.sound node (inr (ground (arith, ServiceNode_eq_iff node node))) in
      let collects = contains-add node collected in
      let pushes = contains-push_all (dependencies_of g node) pending in
      record {
        sound = λ v m. elim (Bool-cases (contains (dependencies_of g node) v)) [
          | inl edge ↦ step from_node edge
          | inr other ↦
              inv.sound v (ground (arith, collects v, pushes v, ServiceNode_eq_iff node v))
        ];
        closed = λ u v m e. elim (Bool-cases (node == u)) [
          | inl same ↦
              let named = (ServiceNode_eq_iff node u).0 same in
              inr (ground (arith, pushes v, ap (dependencies_of g) named))
          | inr other ↦ ground (arith, collects u, collects v, pushes v, inv.closed u v)
        ];
        started = λ v m. ground (arith, collects v, pushes v, inv.started v m);
      }

  collect-Collects :
      (fuel : ℕ) (pending : List ServiceNode) (collected : NodeSet)
      → Inv pending collected
      → length pending + weight collected g ≤ fuel
      → Collects (collect (dependencies_of g) fuel pending collected)
  unfolding collect contains
  collect-Collects fuel [] collected inv room =
      λ v. (λ m. inv.sound v (inl m), complete collected inv)
  collect-Collects zero (node ∷ pending) collected inv room = absurd (omega arith)
  collect-Collects (suc fuel) (node ∷ pending) collected inv room =
      elim (Bool-cases (contains collected node)) [
        | inl old ↦ rw old (
            collect-Collects fuel pending collected (Inv-old node pending collected old inv)
              (omega arith))
        | inr new ↦ rw new (
            collect-Collects fuel (push_all (dependencies_of g node) pending) (add node collected)
              (Inv-new node pending collected inv)
              (omega (
                arith,
                weight-add node collected g new,
                length-push_all (dependencies_of g node) pending,
              )))
      ]

  -- With as much fuel as there are targets and edges, the loop of CollectDependencyClosure ends,
  -- and it has collected exactly the nodes that can be reached from the targets.
  pub closure-Collects :
      (fuel : ℕ)
      → length targets + weight [] g ≤ fuel
      → Collects (collect_dependency_closure (dependencies_of g) fuel targets)
  unfolding collect_dependency_closure contains
  closure-Collects fuel room =
      collect-Collects fuel (push_all targets []) [] Inv-start
        (omega (arith, length-push_all targets []))
    where
      Inv-start : Inv (push_all targets []) []
      Inv-start = record {
        sound = λ v m. target (ground (arith, contains-push_all targets [] v));
        closed = λ u v m e. absurd (ground arith);
        started = λ v m. inr (ground (arith, contains-push_all targets [] v));
      }
