-- ===== src/Graph/Order/Sorted.antt =====
-- appendTopological ends on a graph without cycles and lists each allowed node once, behind the
-- allowed nodes that it depends on. That the graph has no cycle is given by an order of its nodes,
-- which FindCycle leaves; a node's place in it bounds the depth of the recursion.
use proxystack_go.Prelude.{
  ℕ, zero, suc, ◌≤◌, ◌<◌, ◌≡◌, refl, false, Bool-cases, List, [], ◌∷◌, Option, none, some, ◌∈◌,
  contains, contains-snoc, contains-add, contains-keep, keep, length, arith, inl, inr, ◌↔◌,
}
use proxystack_go.Graph.Nodes.{ServiceNode, ServiceNode_eq, ServiceNode_eq_iff, NodeSet}
use proxystack_go.Graph.Walk.{
  IsOrdered, IsOrdered-snoc, position, position-lt_of_dep, position-lt-length,
}
use proxystack_go.Graph.Order.{
  Progress, then_append, place, append_dependencies, append_topological, append_roots,
  topological_order,
}

-- The dependencies that are in the selected set.
abbrev pub allowed_deps :
    (ServiceNode → List ServiceNode) → NodeSet → ServiceNode → List ServiceNode
allowed_deps deps allowed node = keep (contains allowed) (deps node)

module _ (deps : ServiceNode → List ServiceNode) (allowed : NodeSet) (order : List ServiceNode)
    (acyclic : IsOrdered deps [] order) where
  record Inv (p : Progress) : Type 0 where
    same : (v : ServiceNode) → contains p.visited v ≡ contains p.ordered v
    sorted : IsOrdered (allowed_deps deps allowed) [] p.ordered
    selected : (v : ServiceNode) → v ∈ p.ordered → v ∈ allowed

  -- The call ends, keeps what was placed, places the allowed nodes of `ds`, and places nothing new
  -- whose position is `bound` or above.
  abbrev After : Progress → List ServiceNode → ℕ → Option Progress → Type 0
  After p ds bound none = ⊥
  After p ds bound (some q) =
      Inv q
      × ((v : ServiceNode) → v ∈ p.ordered → v ∈ q.ordered)
      × ((v : ServiceNode) → v ∈ ds → v ∈ allowed → v ∈ q.ordered)
      × ((v : ServiceNode)
          → v ∈ q.ordered
          → contains p.ordered v ≡ false
          → position v order < bound)

  After-then_append :
      (p : Progress) (ds : List ServiceNode) (d : ServiceNode) (bound : ℕ) (r : Option Progress)
      (next : Progress → Option Progress)
      → After p (d ∷ []) bound r
      → ((q : Progress) → Inv q → After q ds bound (next q))
      → After p (d ∷ ds) bound (then_append r next)
  unfolding then_append
  After-then_append p ds d bound none next h k = h
  After-then_append p ds d bound (some q) next h k = last (next q) (k q h.0)
    where
      last : (r : Option Progress) → After q ds bound r → After p (d ∷ ds) bound r
      last none a = a
      last (some u) a = (
        a.0,
        λ v m. a.1 v (h.1 v m),
        λ v m s. unfold contains in ground (arith, a.2 v, a.1 v, h.2 v),
        λ v m n. elim (Bool-cases (contains q.ordered v)) [
          | inl old ↦ h.3 v old n
          | inr new ↦ a.3 v m new
        ],
      )

  abbrev Appends : ℕ → (ServiceNode → Progress → Option Progress) → Type 0
  Appends fuel append =
      (d : ServiceNode) (p : Progress)
      → Inv p
      → d ∈ order
      → d ∈ allowed
      → position d order < fuel
      → After p (d ∷ []) (suc (position d order)) (append d p)

  After-weaken :
      (p : Progress) (ds : List ServiceNode) (low high : ℕ) (r : Option Progress)
      → low ≤ high
      → After p ds low r
      → After p ds high r
  After-weaken p ds low high none le h = h
  After-weaken p ds low high (some q) le h = (h.0, h.1, h.2, λ v m n. omega (arith, h.3 v m n))

  After-skip :
      (p : Progress) (ds : List ServiceNode) (d : ServiceNode) (bound : ℕ) (r : Option Progress)
      → contains allowed d ≡ false
      → After p ds bound r
      → After p (d ∷ ds) bound r
  unfolding contains
  After-skip p ds d bound none other h = h
  After-skip p ds d bound (some q) other h =
      (h.0, h.1, λ v m s. ground (arith, h.2 v, ServiceNode_eq_iff d v), h.3)

  append_dependencies-After :
      (fuel bound : ℕ) (append : ServiceNode → Progress → Option Progress) (ds : List ServiceNode)
      (p : Progress)
      → Appends fuel append
      → Inv p
      → ((d : ServiceNode) → d ∈ ds → (d ∈ order) × (position d order < bound))
      → bound ≤ fuel
      → After p ds bound (append_dependencies allowed append ds p)
  unfolding append_dependencies contains
  append_dependencies-After fuel bound append [] p h inv below room =
      (inv, λ v m. m, λ v m s. absurd (ground arith), λ v m n. absurd (ground arith))
  append_dependencies-After fuel bound append (d ∷ ds) p h inv below room =
      let first = below d (ground (arith, ServiceNode_eq_iff d d)) in
      let rest = λ (q : Progress) (i : Inv q).
        append_dependencies-After fuel bound append ds q h i (λ v m. below v (ground arith)) room in
      elim (Bool-cases (contains allowed d)) [
        | inl chosen ↦ rw chosen (
            After-then_append p ds d bound (append d p) (append_dependencies allowed append ds)
              (After-weaken p (d ∷ []) (suc (position d order)) bound (append d p) first.1
                (h d p inv first.0 chosen (omega arith)))
              rest)
        | inr other ↦
            rw other
              (After-skip p ds d bound (append_dependencies allowed append ds p) other (rest p inv))
      ]

  Inv-place :
      (node : ServiceNode) (p : Progress)
      → Inv p
      → node ∈ allowed
      → contains p.ordered node ≡ false
      → ((d : ServiceNode) → d ∈ deps node → d ∈ allowed → d ∈ p.ordered)
      → Inv (place node p)
  unfolding place
  Inv-place node p inv chosen new before = record {
    same = λ v.
        ground (arith, contains-add node p.visited v, contains-snoc p.ordered node v, inv.same v);
    sorted =
        IsOrdered-snoc (allowed_deps deps allowed) [] p.ordered node inv.sorted
          (λ d m.
            unfold contains in
            ground (arith, contains-keep (contains allowed) (deps node) d, before d))
          (unfold contains in refl) new;
    selected = λ v m.
        ground (arith, contains-snoc p.ordered node v, inv.selected v, ServiceNode_eq_iff node v);
  }

  After-place :
      (node : ServiceNode) (p : Progress) (r : Option Progress)
      → node ∈ allowed
      → contains p.ordered node ≡ false
      → After p (deps node) (position node order) r
      → After p (node ∷ []) (suc (position node order)) (then_append r (λ q. some (place node q)))
  unfolding then_append place contains
  After-place node p none chosen new h = h
  After-place node p (some q) chosen new h =
      let still_new : contains q.ordered node ≡ false =
        elim (Bool-cases (contains q.ordered node)) [
          | inl placed ↦ absurd (omega (arith, h.3 node placed new))
          | inr absent ↦ absent
        ] in
      (
        Inv-place node q h.0 chosen still_new h.2,
        λ v m. ground (arith, contains-snoc q.ordered node v, h.1 v m),
        λ v m s. ground (arith, contains-snoc q.ordered node v),
        λ v m n. ground (arith, contains-snoc q.ordered node v, h.3 v, ServiceNode_eq_iff node v),
      )

  After-placed :
      (node : ServiceNode) (p : Progress) (bound : ℕ)
      → Inv p
      → node ∈ p.ordered
      → After p (node ∷ []) bound (some p)
  unfolding contains
  After-placed node p bound inv old = (
    inv,
    λ v m. m,
    λ v m s. ground (arith, ServiceNode_eq_iff node v),
    λ v m n. absurd (ground arith),
  )

  append_topological-After : (fuel : ℕ) → Appends fuel (append_topological deps allowed fuel)
  unfolding append_topological
  append_topological-After zero node p inv known chosen room = absurd (omega arith)
  append_topological-After (suc fuel) node p inv known chosen room =
      elim (Bool-cases (contains p.visited node)) [
        | inl old ↦
            rw old (After-placed node p (suc (position node order)) inv (rw (inv.same node) at old))
        | inr new ↦ rw new (
            After-place node p
              (append_dependencies allowed (append_topological deps allowed fuel) (deps node) p)
              chosen (rw (inv.same node) at new)
              (append_dependencies-After fuel (position node order)
                (append_topological deps allowed fuel) (deps node) p (append_topological-After fuel)
                inv (λ d m. position-lt_of_dep deps order node d acyclic known m) (omega arith)))
      ]

  append_roots-After :
      (fuel : ℕ) (nodes : List ServiceNode) (p : Progress)
      → Inv p
      → ((v : ServiceNode) → v ∈ nodes → (v ∈ order) × (v ∈ allowed))
      → length order ≤ fuel
      → After p nodes (length order) (append_roots deps allowed fuel nodes p)
  unfolding append_roots contains
  append_roots-After fuel [] p inv known room =
      (inv, λ v m. m, λ v m s. absurd (ground arith), λ v m n. absurd (ground arith))
  append_roots-After fuel (node ∷ nodes) p inv known room =
      let first = known node (ground (arith, ServiceNode_eq_iff node node)) in
      let low = position-lt-length node order first.0 in
      After-then_append p nodes node (length order) (append_topological deps allowed fuel node p)
        (append_roots deps allowed fuel nodes)
        (After-weaken p (node ∷ []) (suc (position node order)) (length order)
          (append_topological deps allowed fuel node p) low
          (append_topological-After fuel node p inv first.0 first.1 (omega arith)))
        λ q i. append_roots-After fuel nodes q i (λ v m. known v (ground arith)) room

  -- The list is given, holds exactly the allowed nodes, each once and behind the allowed nodes
  -- that it depends on.
  abbrev pub Sorts : Option (List ServiceNode) → Type 0
  Sorts none = ⊥
  Sorts (some ordered) =
      IsOrdered (allowed_deps deps allowed) [] ordered
      × ((v : ServiceNode) → (v ∈ ordered) ↔ (v ∈ allowed))

  -- On a graph whose nodes have an order behind their dependencies, and with as much fuel as that
  -- order is long, TopologicalOrder over the allowed nodes returns a list that holds exactly the
  -- allowed nodes, each once and behind the allowed nodes that it depends on.
  pub topological_order-Sorts :
      (fuel : ℕ) (nodes : List ServiceNode)
      → ((v : ServiceNode) → (v ∈ nodes) ↔ (v ∈ allowed))
      → ((v : ServiceNode) → v ∈ allowed → v ∈ order)
      → length order ≤ fuel
      → Sorts (topological_order deps allowed fuel nodes)
  unfolding topological_order
  topological_order-Sorts fuel nodes listed known room =
      go (append_roots deps allowed fuel nodes start) (
        append_roots-After fuel nodes start Inv-start
          (λ v m. (known v ((listed v).0 m), (listed v).0 m)) room)
    where
      start : Progress
      start = record { visited = []; ordered = [] }

      Inv-start : Inv start
      Inv-start = record {
        same = λ v. refl;
        sorted = tt;
        selected = λ v m. unfold contains in absurd (ground arith);
      }

      go :
          (r : Option Progress)
          → After start nodes (length order) r
          → Sorts (elim r [ none ↦ none | some p ↦ some p.ordered ])
      go none h = h
      go (some q) h = (h.0.sorted, λ v. (h.0.selected v, λ m. h.2 v ((listed v).1 m) m))
