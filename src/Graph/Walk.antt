-- ===== src/Graph/Walk.antt =====
-- What the searches of internal/graph are about: walks and cycles along dependencies, and lists
-- in which every node stands behind its dependencies.
use proxystack_go.Prelude.{
  ℕ, suc, ◌<◌, ◌≡◌, refl, ◌==◌, if◌then◌else◌, true, false, ◌||◌, List, [], ◌∷◌, ◌++◌, contains,
  ◌∈◌, arith, Bool-cases, inl, inr, length, IsNodup,
}
use proxystack_go.Graph.Nodes.{ServiceNode, ServiceNode_eq, ServiceNode_eq_iff}

module _ (deps : ServiceNode → List ServiceNode) where
  -- Each node of the list depends on the next one.
  abbrev pub IsWalk : List ServiceNode → Type 0
  IsWalk [] = Unit
  IsWalk (x ∷ []) = Unit
  IsWalk (x ∷ y ∷ rest) = (y ∈ deps x) × IsWalk (y ∷ rest)

  -- A walk from a node back to itself.
  abbrev pub IsCycle : List ServiceNode → Type 0
  IsCycle c = (x : ServiceNode) × (inner : List ServiceNode) × (c ≡ x ∷ inner ++ x ∷ []) × IsWalk c

  -- Every node stands once, behind `seen` and behind all that it depends on.
  abbrev pub IsOrdered : List ServiceNode → List ServiceNode → Type 0
  IsOrdered seen [] = Unit
  IsOrdered seen (x ∷ xs) =
      ((d : ServiceNode) → d ∈ deps x → d ∈ seen)
      × (contains seen x ≡ false)
      × IsOrdered (x ∷ seen) xs

  pub IsWalk-suffix : (pre rest : List ServiceNode) → IsWalk (pre ++ rest) → IsWalk rest
  IsWalk-suffix [] rest w = w
  IsWalk-suffix (x ∷ []) [] w = tt
  IsWalk-suffix (x ∷ []) (y ∷ rest) w = w.1
  IsWalk-suffix (x ∷ y ∷ pre) rest w = IsWalk-suffix (y ∷ pre) rest w.1

  pub IsWalk-snoc :
      (path : List ServiceNode) (x y : ServiceNode)
      → IsWalk (path ++ x ∷ [])
      → y ∈ deps x
      → IsWalk ((path ++ x ∷ []) ++ y ∷ [])
  IsWalk-snoc [] x y w e = (e, tt)
  IsWalk-snoc (z ∷ []) x y w e = (w.0, (e, tt))
  IsWalk-snoc (z ∷ z' ∷ path) x y w e = (w.0, IsWalk-snoc (z' ∷ path) x y w.1 e)

  pub IsOrdered-snoc :
      (seen xs : List ServiceNode) (b : ServiceNode)
      → IsOrdered seen xs
      → ((d : ServiceNode) → d ∈ deps b → (contains seen d || contains xs d) ≡ true)
      → contains seen b ≡ false
      → contains xs b ≡ false
      → IsOrdered seen (xs ++ b ∷ [])
  unfolding contains
  IsOrdered-snoc seen [] b h before new other = (λ d m. ground (arith, before d m), new, tt)
  IsOrdered-snoc seen (x ∷ xs) b h before new other = (
    h.0,
    h.1,
    IsOrdered-snoc (x ∷ seen) xs b h.2 (λ d m. ground (arith, before d m)) (ground arith)
        (ground arith),
  )

-- The first place of a node.
abbrev pub position : ServiceNode → List ServiceNode → ℕ
position x [] = 0
position x (y ∷ ys) = if y == x then 0 else suc (position x ys)

pub position-lt-length :
    (x : ServiceNode) (ys : List ServiceNode) → x ∈ ys → position x ys < length ys
unfolding contains
position-lt-length x [] h = ground arith
position-lt-length x (y ∷ ys) h = ground (arith, position-lt-length x ys)

module _ (deps : ServiceNode → List ServiceNode) where
  earlier_from :
      (seen xs : List ServiceNode) (x d : ServiceNode)
      → IsOrdered deps seen xs
      → x ∈ xs
      → d ∈ deps x
      → contains seen d ≡ false
      → (d ∈ xs) × (position d xs < position x xs)
  unfolding contains
  earlier_from seen [] x d h m e new = ground arith
  earlier_from seen (y ∷ ys) x d h m e new = elim (Bool-cases (y == x)) [
    | inl same ↦ ground (arith, h.0 d, ServiceNode_eq_iff y x)
    | inr other ↦ elim (Bool-cases (y == d)) [
      | inl first ↦ ground arith
      | inr later ↦
          let ih = earlier_from (y ∷ seen) ys x d h.2 (ground arith) e (ground arith) in
          ground arith
    ]
  ]

  -- In an ordered list a dependency stands before the node that depends on it.
  pub position-lt_of_dep :
      (order : List ServiceNode) (x d : ServiceNode)
      → IsOrdered deps [] order
      → x ∈ order
      → d ∈ deps x
      → (d ∈ order) × (position d order < position x order)
  unfolding contains
  position-lt_of_dep order x d h m e = earlier_from [] order x d h m e refl

  position-lt_of_walk :
      (order inner : List ServiceNode) (x y : ServiceNode)
      → IsOrdered deps [] order
      → x ∈ order
      → IsWalk deps (x ∷ inner ++ y ∷ [])
      → position y order < position x order
  position-lt_of_walk order [] x y h m w = (position-lt_of_dep order x y h m w.0).1
  position-lt_of_walk order (z ∷ inner) x y h m w =
      let first = position-lt_of_dep order x z h m w.0 in
      let rest = position-lt_of_walk order inner z y h first.0 w.1 in omega arith

  -- No cycle passes through a node of an ordered list.
  pub not-IsCycle_of_IsOrdered :
      (order inner : List ServiceNode) (x : ServiceNode)
      → IsOrdered deps [] order
      → x ∈ order
      → ¬ IsWalk deps (x ∷ inner ++ x ∷ [])
  not-IsCycle_of_IsOrdered order inner x h m w =
      let impossible = position-lt_of_walk order inner x x h m w in omega arith

  IsOrdered-IsNodup_from :
      (seen xs : List ServiceNode)
      → IsOrdered deps seen xs
      → IsNodup xs × ((a : ServiceNode) → a ∈ seen → contains xs a ≡ false)
  unfolding contains
  IsOrdered-IsNodup_from seen [] h = (tt, λ a m. refl)
  IsOrdered-IsNodup_from seen (x ∷ xs) h =
      let ih = IsOrdered-IsNodup_from (x ∷ seen) xs h.2 in
      (
        (ih.1 x (ground (arith, ServiceNode_eq_iff x x)), ih.0),
        λ a m. ground (arith, ih.1 a, ServiceNode_eq_iff x a),
      )

  pub IsOrdered-IsNodup : (xs : List ServiceNode) → IsOrdered deps [] xs → IsNodup xs
  IsOrdered-IsNodup xs h = (IsOrdered-IsNodup_from [] xs h).0
