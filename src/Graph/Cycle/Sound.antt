-- ===== src/Graph/Cycle/Sound.antt =====
-- What visitForCycle reports is a cycle.
use proxystack_go.Prelude.{
  ℕ, zero, suc, ◌≡◌, refl, ◌∙◌, ap, Bool-cases, List, [], ◌∷◌, ◌++◌, Option, none, some, lookup,
  ◌∈◌, contains, ◌==◌, arith, inl, inr, ◌⊎◌, ◌≢◌,
}
use mathlib.Core.List.{append_assoc}
use proxystack_go.Graph.Nodes.{ServiceNode, ServiceNode_eq, ServiceNode_eq_iff}
use proxystack_go.Graph.Walk.{IsWalk, IsCycle, IsWalk-suffix, IsWalk-snoc}
use proxystack_go.Graph.Cycle.{
  Mark, visiting, done, Search, Outcome, out_of_fuel, cycle, clear, path_from, drop_last, and_then,
  enter, leave, visit_dependency, visit_dependencies, visit_for_cycle, visit_root, visit_roots,
  find_cycle,
}

pub path_from_suffix :
    (node : ServiceNode) (path found : List ServiceNode)
    → path_from node path ≡ some found
    → (before : List ServiceNode) × (after : List ServiceNode) × (found ≡ node ∷ after)
      × (path ≡ before ++ found)
unfolding path_from
path_from_suffix node [] found h = ground arith
path_from_suffix node (x ∷ path) found h = elim (Bool-cases (x == node)) [
  | inl same ↦ ([], path, ground (arith, ServiceNode_eq_iff x node), ground arith)
  | inr other ↦
      let (before, after, starts, splits) = path_from_suffix node path found (ground arith) in
      (x ∷ before, after, starts, ap (λ l. x ∷ l) splits)
]

pub drop_last-snoc : (xs : List ServiceNode) (x : ServiceNode) → drop_last (xs ++ x ∷ []) ≡ xs
unfolding drop_last
drop_last-snoc [] x = refl
drop_last-snoc (y ∷ []) x = refl
drop_last-snoc (y ∷ z ∷ xs) x = ap (λ l. y ∷ l) (drop_last-snoc (z ∷ xs) x)

-- What the loop's body does, by the mark of the dependency.
pub visit_dependency_cases :
    (visit : ServiceNode → Search → Outcome) (d : ServiceNode) (s : Search)
    → (lookup s.states d ≡ none) × (visit_dependency visit d s ≡ visit d s)
      ⊎ (lookup s.states d ≡ some done) × (visit_dependency visit d s ≡ clear s)
      ⊎ (lookup s.states d ≡ some visiting)
        × (path_from d s.path ≡ none)
        × (visit_dependency visit d s ≡ visit d s)
      ⊎ ((found : List ServiceNode) × (path_from d s.path ≡ some found)
          × (visit_dependency visit d s ≡ cycle (found ++ d ∷ [])))
unfolding visit_dependency
visit_dependency_cases visit d s = go (lookup s.states d) refl (path_from d s.path) refl
  where
    go :
        (m : Option Mark)
        → lookup s.states d ≡ m
        → (p : Option (List ServiceNode)) → path_from d s.path ≡ p
        → (lookup s.states d ≡ none) × (visit_dependency visit d s ≡ visit d s)
          ⊎ (lookup s.states d ≡ some done) × (visit_dependency visit d s ≡ clear s)
          ⊎ (lookup s.states d ≡ some visiting)
            × (path_from d s.path ≡ none)
            × (visit_dependency visit d s ≡ visit d s)
          ⊎ ((found : List ServiceNode) × (path_from d s.path ≡ some found)
              × (visit_dependency visit d s ≡ cycle (found ++ d ∷ [])))
    go none e p f = inl (e, rw (e, visit_dependency))
    go (some done) e p f = inr (inl (e, rw (e, visit_dependency)))
    go (some visiting) e none f = inr (inr (inl (e, f, ground arith)))
    go (some visiting) e (some l) f = inr (inr (inr (l, f, ground arith)))

pub visit_root_cases :
    (deps : ServiceNode → List ServiceNode) (fuel : ℕ) (node : ServiceNode) (s : Search)
    → (lookup s.states node ≡ some done) × (visit_root deps fuel node s ≡ clear s)
      ⊎ (lookup s.states node ≢ some done)
        × (visit_root deps fuel node s ≡ visit_for_cycle deps fuel node s)
unfolding visit_root
visit_root_cases deps fuel node s = ground arith

module _ (deps : ServiceNode → List ServiceNode) where
  -- A reported cycle is one, and the path is restored otherwise.
  abbrev Sound : Search → Outcome → Type 0
  Sound s out_of_fuel = Unit
  Sound s (cycle c) = IsCycle deps c
  Sound s (clear t) = t.path ≡ s.path

  Sound-and_then :
      (s : Search) (o : Outcome) (next : Search → Outcome)
      → Sound s o
      → ((t : Search) → t.path ≡ s.path → Sound s (next t))
      → Sound s (and_then o next)
  unfolding and_then
  Sound-and_then s out_of_fuel next h k = tt
  Sound-and_then s (cycle c) next h k = h
  Sound-and_then s (clear t) next h k = k t h

  Sound-transfer : (s t : Search) (o : Outcome) → t.path ≡ s.path → Sound t o → Sound s o
  Sound-transfer s t out_of_fuel e h = tt
  Sound-transfer s t (cycle c) e h = h
  Sound-transfer s t (clear u) e h = h ∙ e

  abbrev IsSoundVisit : (ServiceNode → Search → Outcome) → Type 0
  IsSoundVisit visit =
      (d : ServiceNode) (s : Search) → IsWalk deps (s.path ++ d ∷ []) → Sound s (visit d s)

  IsCycle-of_path :
      (d : ServiceNode) (path found : List ServiceNode)
      → path_from d path ≡ some found
      → IsWalk deps (path ++ d ∷ [])
      → IsCycle deps (found ++ d ∷ [])
  IsCycle-of_path d path found e w =
      let (before, after, starts, splits) = path_from_suffix d path found e in
      let whole : IsWalk deps (before ++ (found ++ d ∷ [])) = rw (← append_assoc, ← splits) w in
      (d, after, ap (λ l. l ++ d ∷ []) starts, IsWalk-suffix deps before (found ++ d ∷ []) whole)

  visit_dependency-Sound :
      (visit : ServiceNode → Search → Outcome) (d : ServiceNode) (s : Search)
      → IsSoundVisit visit
      → IsWalk deps (s.path ++ d ∷ [])
      → Sound s (visit_dependency visit d s)
  visit_dependency-Sound visit d s h w = elim (visit_dependency_cases visit d s) [
    | inl (_, e) ↦ rw e (h d s w)
    | inr (inl (_, e)) ↦ rw e refl
    | inr (inr (inl (_, _, e))) ↦ rw e (h d s w)
    | inr (inr (inr (found, f, e))) ↦ rw e (IsCycle-of_path d s.path found f w)
  ]

  visit_dependencies-Sound :
      (visit : ServiceNode → Search → Outcome) (ds : List ServiceNode) (s : Search)
      → IsSoundVisit visit
      → ((d : ServiceNode) → d ∈ ds → IsWalk deps (s.path ++ d ∷ []))
      → Sound s (visit_dependencies visit ds s)
  unfolding visit_dependencies contains
  visit_dependencies-Sound visit [] s h w = refl
  visit_dependencies-Sound visit (d ∷ ds) s h w =
      Sound-and_then s (visit_dependency visit d s) (visit_dependencies visit ds)
        (visit_dependency-Sound visit d s h (w d (ground (arith, ServiceNode_eq_iff d d))))
        λ t e.
          Sound-transfer s t (visit_dependencies visit ds t) e
            (visit_dependencies-Sound visit ds t h (λ a m. rw e (w a (ground arith))))

  visit_for_cycle-Sound : (fuel : ℕ) → IsSoundVisit (visit_for_cycle deps fuel)
  unfolding visit_for_cycle enter leave and_then
  visit_for_cycle-Sound zero node s w = tt
  visit_for_cycle-Sound (suc fuel) node s w =
      let entered = enter node s in
      let o = visit_dependencies (visit_for_cycle deps fuel) (deps node) entered in
      let inside =
        visit_dependencies-Sound (visit_for_cycle deps fuel) (deps node) entered
          (visit_for_cycle-Sound fuel) (λ d m. IsWalk-snoc deps s.path node d w m) in
      left o inside
    where
      left :
          (o : Outcome) → Sound (enter node s) o → Sound s (and_then o (λ t. clear (leave node t)))
      left out_of_fuel h = tt
      left (cycle c) h = h
      left (clear t) h = ap drop_last h ∙ drop_last-snoc s.path node

  visit_root-Sound :
      (fuel : ℕ) (node : ServiceNode) (s : Search)
      → s.path ≡ []
      → Sound s (visit_root deps fuel node s)
  unfolding visit_root
  visit_root-Sound fuel node s e = elim (visit_root_cases deps fuel node s) [
    | inl (_, same) ↦ rw same refl
    | inr (_, same) ↦ rw same (visit_for_cycle-Sound fuel node s (rw e tt))
  ]

  visit_roots-Sound :
      (fuel : ℕ) (nodes : List ServiceNode) (s : Search)
      → s.path ≡ []
      → Sound s (visit_roots deps fuel nodes s)
  unfolding visit_roots
  visit_roots-Sound fuel [] s e = refl
  visit_roots-Sound fuel (node ∷ nodes) s e =
      Sound-and_then s (visit_root deps fuel node s) (visit_roots deps fuel nodes)
        (visit_root-Sound fuel node s e)
        λ t e'.
          Sound-transfer s t (visit_roots deps fuel nodes t) e'
            (visit_roots-Sound fuel nodes t (e' ∙ e))

  -- What FindCycle reports is a cycle of the graph.
  pub find_cycle-IsCycle :
      (fuel : ℕ) (nodes c : List ServiceNode)
      → find_cycle deps fuel nodes ≡ cycle c
      → IsCycle deps c
  unfolding find_cycle
  find_cycle-IsCycle fuel nodes c e =
      rw e at (visit_roots-Sound fuel nodes (record { states = []; path = [] }) refl)
