-- ===== src/Graph/Cycle/Ends.antt =====
-- FindCycle ends, and where it reports nothing there is no cycle. The proof carries the list of the
-- finished nodes in the order in which they were finished.
use proxystack_go.Prelude.{
  ℕ, zero, suc, ◌+◌, ◌≤◌, ◌≡◌, refl, ◌∙◌, ap, false, List, [], ◌∷◌, ◌++◌, none, some, lookup,
  lookup-put, ◌∈◌, contains, contains-snoc, IsNodup, IsNodup-snoc, length, length-append,
  length-le_of_subset, arith, inl, inr, ◌↔◌, ◌≢◌,
}
use proxystack_go.Graph.Nodes.{ServiceNode, ServiceNode_eq, ServiceNode_eq_iff}
use proxystack_go.Graph.Walk.{IsWalk, IsCycle, IsOrdered, IsOrdered-snoc, not-IsCycle_of_IsOrdered}
use proxystack_go.Graph.Cycle.{
  visiting, done, Search, Outcome, out_of_fuel, cycle, clear, path_from, drop_last, and_then, enter,
  leave, visit_dependency, visit_dependencies, visit_for_cycle, visit_root, visit_roots, find_cycle,
}
use proxystack_go.Graph.Cycle.Sound.{
  visit_dependency_cases, visit_root_cases, drop_last-snoc, find_cycle-IsCycle,
}

path_from-ne-none :
    (node : ServiceNode) (path : List ServiceNode) → node ∈ path → path_from node path ≢ none
unfolding path_from contains
path_from-ne-none node [] h e = ground arith
path_from-ne-none node (x ∷ path) h e = ground (arith, path_from-ne-none node path)

module _ (deps : ServiceNode → List ServiceNode) (universe : List ServiceNode) where
  -- What the search establishes: it ends, and it reports a cycle or leaves an order of the nodes.
  abbrev pub Finishes : List ServiceNode → Outcome → Type 0
  Finishes nodes out_of_fuel = ⊥
  Finishes nodes (cycle c) = IsCycle deps c
  Finishes nodes (clear s) =
      (order : List ServiceNode) × IsOrdered deps [] order
      × ((v : ServiceNode) → v ∈ nodes → v ∈ order)
      × ((v : ServiceNode) → v ∈ order → v ∈ universe)

module _ (deps : ServiceNode → List ServiceNode) where
  -- The answer of FindCycle is right: a report is a cycle, and no report means that no cycle
  -- passes through any of the nodes. Used-up fuel is no answer.
  abbrev pub Decides : List ServiceNode → Outcome → Type 0
  Decides nodes out_of_fuel = ⊥
  Decides nodes (cycle c) = IsCycle deps c
  Decides nodes (clear s) =
      (x : ServiceNode) (inner : List ServiceNode) → x ∈ nodes → ¬ IsWalk deps (x ∷ inner ++ x ∷ [])

module _ (deps : ServiceNode → List ServiceNode) (universe : List ServiceNode)
    (closed : (u d : ServiceNode) → u ∈ universe → d ∈ deps u → d ∈ universe) where
  record Inv (s : Search) (finished : List ServiceNode) : Type 0 where
    done_iff : (v : ServiceNode) → (lookup s.states v ≡ some done) ↔ (v ∈ finished)
    visiting_iff : (v : ServiceNode) → (lookup s.states v ≡ some visiting) ↔ (v ∈ s.path)
    ordered : IsOrdered deps [] finished
    nodup : IsNodup s.path
    within : (v : ServiceNode) → v ∈ s.path → v ∈ universe
    known : (v : ServiceNode) → v ∈ finished → v ∈ universe

  -- The search ends; if it goes on, the path is restored, and `ds` are finished.
  abbrev After : Search → List ServiceNode → List ServiceNode → Outcome → Type 0
  After s finished ds out_of_fuel = ⊥
  After s finished ds (cycle c) = Unit
  After s finished ds (clear t) =
      (finished' : List ServiceNode) × Inv t finished'
      × (t.path ≡ s.path)
      × ((v : ServiceNode) → v ∈ finished → v ∈ finished')
      × ((v : ServiceNode) → v ∈ ds → v ∈ finished')

  After-and_then :
      (s : Search) (finished ds : List ServiceNode) (d : ServiceNode) (o : Outcome)
      (next : Search → Outcome)
      → After s finished (d ∷ []) o
      → ((t : Search) (finished' : List ServiceNode)
          → Inv t finished'
          → t.path ≡ s.path
          → After t finished' ds (next t))
      → After s finished (d ∷ ds) (and_then o next)
  unfolding and_then
  After-and_then s finished ds d out_of_fuel next h k = h
  After-and_then s finished ds d (cycle c) next h k = tt
  After-and_then s finished ds d (clear t) next h k = last (next t) (k t h.0 h.1 h.2)
    where
      last : (o : Outcome) → After t h.0 ds o → After s finished (d ∷ ds) o
      last out_of_fuel a = a
      last (cycle c) a = tt
      last (clear u) a = (
        a.0,
        a.1,
        a.2 ∙ h.2,
        λ v m. a.3 v (h.3 v m),
        λ v m. unfold contains in ground (arith, a.4 v, a.3 v, h.4 v),
      )

  abbrev Ends : ℕ → (ServiceNode → Search → Outcome) → Type 0
  Ends fuel visit =
      (d : ServiceNode) (s : Search) (finished : List ServiceNode)
      → Inv s finished
      → lookup s.states d ≡ none
      → d ∈ universe
      → length universe ≤ length s.path + fuel
      → After s finished (d ∷ []) (visit d s)

  visit_dependency-Ends :
      (fuel : ℕ) (visit : ServiceNode → Search → Outcome) (d : ServiceNode) (s : Search)
      (finished : List ServiceNode)
      → Ends fuel visit
      → Inv s finished
      → d ∈ universe
      → length universe ≤ length s.path + fuel
      → After s finished (d ∷ []) (visit_dependency visit d s)
  unfolding contains
  visit_dependency-Ends fuel visit d s finished ends inv m room =
      elim (visit_dependency_cases visit d s) [
        | inl (new, e) ↦ rw e (ends d s finished inv new m room)
        | inr (inl (old, e)) ↦ rw e (
          finished,
          inv,
          refl,
          λ v h. h,
          λ v h. ground (arith, (inv.done_iff d).0 old, ServiceNode_eq_iff d v),
        )
        | inr (inr (inl (open_d, missing, e))) ↦
            absurd (path_from-ne-none d s.path ((inv.visiting_iff d).0 open_d) missing)
        | inr (inr (inr (found, f, e))) ↦ rw e tt
      ]

  visit_dependencies-Ends :
      (fuel : ℕ) (visit : ServiceNode → Search → Outcome) (ds : List ServiceNode) (s : Search)
      (finished : List ServiceNode)
      → Ends fuel visit
      → Inv s finished
      → ((d : ServiceNode) → d ∈ ds → d ∈ universe)
      → length universe ≤ length s.path + fuel
      → After s finished ds (visit_dependencies visit ds s)
  unfolding visit_dependencies contains
  visit_dependencies-Ends fuel visit [] s finished ends inv m room =
      (finished, inv, refl, λ v h. h, λ v h. absurd (ground arith))
  visit_dependencies-Ends fuel visit (d ∷ ds) s finished ends inv m room =
      After-and_then s finished ds d (visit_dependency visit d s) (visit_dependencies visit ds)
        (visit_dependency-Ends fuel visit d s finished ends inv
          (m d (ground (arith, ServiceNode_eq_iff d d))) room)
        λ t finished' inv' e.
          visit_dependencies-Ends fuel visit ds t finished' ends inv' (λ v h. m v (ground arith))
            (rw e room)

  absent :
      (v : ServiceNode) (s : Search) (finished : List ServiceNode)
      → Inv s finished
      → lookup s.states v ≡ none
      → (contains s.path v ≡ false) × (contains finished v ≡ false)
  absent v s finished inv new = ground (arith, inv.visiting_iff v, inv.done_iff v)

  Inv-enter :
      (node : ServiceNode) (s : Search) (finished : List ServiceNode)
      → Inv s finished
      → lookup s.states node ≡ none
      → node ∈ universe
      → Inv (enter node s) finished
  unfolding enter
  Inv-enter node s finished inv new m =
      let (off_path, unfinished) = absent node s finished inv new in
      record {
        done_iff = λ v.
            ground (
              arith,
              lookup-put node visiting s.states v,
              inv.done_iff v,
              ServiceNode_eq_iff node v,
            );
        visiting_iff = λ v. ground (
          arith,
          lookup-put node visiting s.states v,
          inv.visiting_iff v,
          contains-snoc s.path node v,
          ServiceNode_eq_iff node v,
        );
        ordered = inv.ordered;
        nodup = IsNodup-snoc s.path node inv.nodup off_path;
        within = λ v h.
            ground (arith, contains-snoc s.path node v, ServiceNode_eq_iff node v, inv.within v);
        known = inv.known;
      }

  Inv-leave :
      (node : ServiceNode) (s t : Search) (finished finished' : List ServiceNode)
      → Inv s finished
      → lookup s.states node ≡ none
      → Inv t finished'
      → t.path ≡ s.path ++ node ∷ []
      → ((v : ServiceNode) → v ∈ deps node → v ∈ finished')
      → Inv (leave node t) (finished' ++ node ∷ [])
  unfolding leave
  Inv-leave node s t finished finished' inv new inv' e before =
      let (off_path, _) = absent node s finished inv new in
      let restored : drop_last t.path ≡ s.path = rw e (drop_last-snoc s.path node) in
      let on_path = λ (v : ServiceNode). rw e at (inv'.visiting_iff v) in
      record {
        done_iff = λ v. ground (
          arith,
          lookup-put node done t.states v,
          inv'.done_iff v,
          ServiceNode_eq_iff node v,
          contains-snoc finished' node v,
        );
        visiting_iff = λ v. ground (
          arith,
          lookup-put node done t.states v,
          on_path v,
          restored,
          contains-snoc s.path node v,
          ServiceNode_eq_iff node v,
        );
        ordered =
            IsOrdered-snoc deps [] finished' node inv'.ordered
              (λ d h. unfold contains in before d h) (unfold contains in refl)
              (ground (
                arith,
                on_path node,
                contains-snoc s.path node node,
                ServiceNode_eq_iff node node,
                inv'.done_iff node,
              ));
        nodup = rw restored inv.nodup;
        within = λ v h. inv.within v (rw restored at h);
        known = λ v h. ground (
          arith,
          contains-snoc finished' node v,
          ServiceNode_eq_iff node v,
          inv'.known v,
          inv'.within node,
          on_path node,
          contains-snoc s.path node node,
          ServiceNode_eq_iff node node,
          inv'.visiting_iff node,
        );
      }

  room-enter :
      (node : ServiceNode) (s : Search) (finished : List ServiceNode)
      → Inv s finished
      → lookup s.states node ≡ none
      → node ∈ universe
      → length s.path + 1 ≤ length universe
  unfolding enter
  room-enter node s finished inv new m =
      let entered = Inv-enter node s finished inv new m in
      omega (
        arith,
        length-append s.path (node ∷ []),
        length-le_of_subset (s.path ++ node ∷ []) universe entered.nodup entered.within,
      )

  After-leave :
      (node : ServiceNode) (s : Search) (finished : List ServiceNode) (o : Outcome)
      → Inv s finished
      → lookup s.states node ≡ none
      → After (enter node s) finished (deps node) o
      → After s finished (node ∷ []) (and_then o (λ t. clear (leave node t)))
  unfolding and_then enter leave contains
  After-leave node s finished out_of_fuel inv new h = h
  After-leave node s finished (cycle c) inv new h = tt
  After-leave node s finished (clear t) inv new (finished', inv', restored, grown, before) = (
    finished' ++ node ∷ [],
    Inv-leave node s t finished finished' inv new inv' restored before,
    ap drop_last restored ∙ drop_last-snoc s.path node,
    λ v m. ground (arith, contains-snoc finished' node v, grown v m),
    λ v m. ground (arith, contains-snoc finished' node v),
  )

  visit_for_cycle-Ends : (fuel : ℕ) → Ends fuel (visit_for_cycle deps fuel)
  unfolding visit_for_cycle enter
  visit_for_cycle-Ends zero node s finished inv new m room =
      absurd (omega (arith, room-enter node s finished inv new m))
  visit_for_cycle-Ends (suc fuel) node s finished inv new m room =
      After-leave node s finished
        (visit_dependencies (visit_for_cycle deps fuel) (deps node) (enter node s)) inv new
        (visit_dependencies-Ends fuel (visit_for_cycle deps fuel) (deps node) (enter node s)
          finished (visit_for_cycle-Ends fuel) (Inv-enter node s finished inv new m)
          (λ d h. closed node d m h) (omega (arith, length-append s.path (node ∷ []))))

  visit_root-Ends :
      (fuel : ℕ) (node : ServiceNode) (s : Search) (finished : List ServiceNode)
      → Inv s finished
      → s.path ≡ []
      → node ∈ universe
      → length universe ≤ fuel
      → After s finished (node ∷ []) (visit_root deps fuel node s)
  unfolding contains
  visit_root-Ends fuel node s finished inv e m room = elim (visit_root_cases deps fuel node s) [
    | inl (old, same) ↦ rw same (
      finished,
      inv,
      refl,
      λ v h. h,
      λ v h. ground (arith, (inv.done_iff node).0 old, ServiceNode_eq_iff node v),
    )
    | inr (unfinished, same) ↦
        let closed_path : contains s.path node ≡ false = rw e refl in
        rw same (
          visit_for_cycle-Ends fuel node s finished inv
            (ground (arith, inv.visiting_iff node, inv.done_iff node)) m (rw e (omega arith)))
  ]

  visit_roots-Ends :
      (fuel : ℕ) (nodes : List ServiceNode) (s : Search) (finished : List ServiceNode)
      → Inv s finished
      → s.path ≡ []
      → ((v : ServiceNode) → v ∈ nodes → v ∈ universe)
      → length universe ≤ fuel
      → After s finished nodes (visit_roots deps fuel nodes s)
  unfolding visit_roots contains
  visit_roots-Ends fuel [] s finished inv e m room =
      (finished, inv, refl, λ v h. h, λ v h. absurd (ground arith))
  visit_roots-Ends fuel (node ∷ nodes) s finished inv e m room =
      After-and_then s finished nodes node (visit_root deps fuel node s)
        (visit_roots deps fuel nodes)
        (visit_root-Ends fuel node s finished inv e
          (m node (ground (arith, ServiceNode_eq_iff node node))) room)
        λ t finished' inv' e'.
          visit_roots-Ends fuel nodes t finished' inv' (e' ∙ e) (λ v h. m v (ground arith)) room

  abbrev blank : Search
  blank = record { states = []; path = [] }

  Inv-blank : Inv blank []
  unfolding contains lookup
  Inv-blank = record {
    done_iff = λ v. ground arith;
    visiting_iff = λ v. ground arith;
    ordered = tt;
    nodup = tt;
    within = λ v h. absurd (ground arith);
    known = λ v h. absurd (ground arith);
  }

  pub find_cycle-Finishes :
      (fuel : ℕ) (nodes : List ServiceNode)
      → ((v : ServiceNode) → v ∈ nodes → v ∈ universe)
      → length universe ≤ fuel
      → Finishes deps universe nodes (find_cycle deps fuel nodes)
  find_cycle-Finishes fuel nodes m room =
      go (find_cycle deps fuel nodes) refl
        (unfold find_cycle in visit_roots-Ends fuel nodes blank [] Inv-blank refl m room)
    where
      go :
          (o : Outcome)
          → find_cycle deps fuel nodes ≡ o
          → After blank [] nodes o
          → Finishes deps universe nodes o
      go out_of_fuel e h = h
      go (cycle c) e h = find_cycle-IsCycle deps fuel nodes c e
      go (clear s) e (order, inv, _, _, all) = (order, inv.ordered, all, inv.known)

  -- Over nodes that are closed under dependencies, with as much fuel as there are nodes, FindCycle
  -- ends; a cycle that it reports is one, and if it reports none, then none of the nodes that it
  -- was given lies on a cycle.
  pub find_cycle-Decides :
      (fuel : ℕ) (nodes : List ServiceNode)
      → ((v : ServiceNode) → v ∈ nodes → v ∈ universe)
      → length universe ≤ fuel
      → Decides deps nodes (find_cycle deps fuel nodes)
  find_cycle-Decides fuel nodes m room =
      go (find_cycle deps fuel nodes) (find_cycle-Finishes fuel nodes m room)
    where
      go : (o : Outcome) → Finishes deps universe nodes o → Decides deps nodes o
      go out_of_fuel h = h
      go (cycle c) h = h
      go (clear s) (order, ordered, all, _) =
          λ x inner h. not-IsCycle_of_IsOrdered deps order inner x ordered (all x h)
