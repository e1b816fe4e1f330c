-- ===== src/Prelude/Sets.antt =====
-- Go's `map[T]bool` with only true values, as the list of its keys. The order of the list stands
-- for the order of a `range` loop, which Go leaves open, so a theorem about every list is one about
-- every such order.
use Prim.Native.Nat.{suc, ◌≤◌}
use mathlib.Core.Path.{◌≡◌, refl, ap}
use mathlib.Core.Logic.{inl, inr}
use mathlib.Core.Bool.{Bool, true, false, not, ◌&&◌, ◌||◌}
use mathlib.Core.List.{List, [], ◌∷◌, ◌++◌}
use native.Mathlib.Omega.{arith}
use proxystack_go.Prelude.Tests.{if◌then◌else◌, Comparable, ◌==◌, Bool-cases}
use proxystack_go.Prelude.Lists.{length, keep}

module _ {ℓ} {A : Type ℓ} ⦃e : Comparable A⦄ where
  -- `set[x]`
  unfoldable pub contains : List A → A → Bool
  contains [] a = false
  contains (x ∷ xs) a = x == a || contains xs a

  infix 50 ◌∈◌
  abbrev pub ◌∈◌ : A → List A → Type 0
  a ∈ xs = contains xs a ≡ true

  -- `set[x] = true`
  unfoldable pub add : A → List A → List A
  add a xs = if contains xs a then xs else xs ++ a ∷ []

  pub contains-append :
      (xs ys : List A) (a : A) → contains (xs ++ ys) a ≡ (contains xs a || contains ys a)
  unfolding contains
  contains-append [] ys a = refl
  contains-append (x ∷ xs) ys a = ground (arith, contains-append xs ys a)

  pub contains-snoc :
      (xs : List A) (b a : A) → contains (xs ++ b ∷ []) a ≡ (contains xs a || b == a)
  unfolding contains
  contains-snoc xs b a = ground (arith, contains-append xs (b ∷ []) a)

  pub contains-add :
      (b : A) (xs : List A) (a : A) → contains (add b xs) a ≡ (contains xs a || b == a)
  unfolding add
  contains-add b xs a = ground (arith, contains-snoc xs b a, e.equals_iff b a)

  pub contains-keep :
      (p : A → Bool) (xs : List A) (a : A) → contains (keep p xs) a ≡ (contains xs a && p a)
  unfolding contains
  contains-keep p [] a = refl
  contains-keep p (x ∷ xs) a = elim (Bool-cases (x == a)) [
    | inl same ↦
        ground (arith, contains-keep p xs a, e.equals_iff x a, ap p ((e.equals_iff x a).0 same))
    | inr other ↦ ground (arith, contains-keep p xs a)
  ]

  -- No element stands twice.
  abbrev pub IsNodup : List A → Type 0
  IsNodup [] = Unit {0}
  IsNodup (x ∷ xs) = (contains xs x ≡ false) × IsNodup xs

  pub IsNodup-snoc :
      (xs : List A) (b : A) → IsNodup xs → contains xs b ≡ false → IsNodup (xs ++ b ∷ [])
  unfolding contains
  IsNodup-snoc [] b h n = (refl, tt)
  IsNodup-snoc (x ∷ xs) b h n = (
    ground (arith, contains-snoc xs b x, e.equals_iff b x, e.equals_iff x b),
    IsNodup-snoc xs b h.1 (ground arith),
  )

  pub add-IsNodup : (b : A) (xs : List A) → IsNodup xs → IsNodup (add b xs)
  unfolding add
  add-IsNodup b xs h = elim (Bool-cases (contains xs b)) [
    | inl old ↦ rw old h
    | inr new ↦ rw new (IsNodup-snoc xs b h new)
  ]

  pub keep-IsNodup : (p : A → Bool) (xs : List A) → IsNodup xs → IsNodup (keep p xs)
  keep-IsNodup p [] h = tt
  keep-IsNodup p (x ∷ xs) h = elim (Bool-cases (p x)) [
    | inl yes_p ↦ rw yes_p (ground (arith, contains-keep p xs x), keep-IsNodup p xs h.1)
    | inr no_p ↦ rw no_p (keep-IsNodup p xs h.1)
  ]

  -- Pigeonhole: a list without repetition whose elements all lie in `ys` is no longer than `ys`.
  abbrev without : A → List A → List A
  without a = keep (λ y. not (y == a))

  length-without : (a : A) (ys : List A) → a ∈ ys → suc (length (without a ys)) ≤ length ys
  unfolding contains
  length-without a [] h = absurd (ground arith)
  length-without a (y ∷ ys) h = elim (Bool-cases (contains ys a)) [
    | inl later ↦ ground (arith, length-without a ys later)
    | inr never ↦ ground (arith, length-keep-le ys)
  ]
    where
      length-keep-le : (zs : List A) → length (without a zs) ≤ length zs
      length-keep-le [] = omega arith
      length-keep-le (z ∷ zs) = ground (arith, length-keep-le zs)

  pub length-le_of_subset :
      (xs ys : List A) → IsNodup xs → ((a : A) → a ∈ xs → a ∈ ys) → length xs ≤ length ys
  unfolding contains
  length-le_of_subset [] ys h sub = omega arith
  length-le_of_subset (x ∷ xs) ys h sub =
      let shorter = length-without x ys (sub x (ground (arith, e.equals_iff x x))) in
      let ih = length-le_of_subset xs (without x ys) h.1 λ a m. ground (
        arith,
        contains-keep (λ y. not (y == x)) ys a,
        sub a,
        e.equals_iff a x,
        e.equals_iff x a,
      ) in
      omega arith
