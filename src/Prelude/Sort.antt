-- ===== src/Prelude/Sort.antt =====
-- `sort.Slice` as insertion sort by a `less` function. The order of elements that are not
-- comparable is one that Go may choose as well.
use mathlib.Core.Path.{◌≡◌, refl}
use mathlib.Core.Bool.{Bool, false, ◌||◌}
use mathlib.Core.List.{List, [], ◌∷◌, ◌++◌}
use native.Mathlib.Omega.{arith}
use proxystack_go.Prelude.Tests.{if◌then◌else◌, Comparable, ◌==◌}
use Prim.Native.Nat.{suc}
use proxystack_go.Prelude.Lists.{length}
use proxystack_go.Prelude.Sets.{contains, IsNodup}

module _ {ℓ} {A : Type ℓ} where
  unfoldable pub insert_by : (A → A → Bool) → A → List A → List A
  insert_by less a [] = a ∷ []
  insert_by less a (x ∷ xs) =
      let rest = insert_by less a xs in if less x a then x ∷ rest else a ∷ x ∷ xs

  unfoldable pub sort_by : (A → A → Bool) → List A → List A
  unfolding insert_by
  sort_by less [] = []
  sort_by less (x ∷ xs) = insert_by less x (sort_by less xs)

module _ {ℓ} {A : Type ℓ} where
  length-insert_by :
      (less : A → A → Bool) (a : A) (xs : List A) → length (insert_by less a xs) ≡ suc (length xs)
  unfolding insert_by
  length-insert_by less a [] = refl
  length-insert_by less a (x ∷ xs) = ground (arith, length-insert_by less a xs)

  pub length-sort_by : (less : A → A → Bool) (xs : List A) → length (sort_by less xs) ≡ length xs
  unfolding sort_by
  length-sort_by less [] = refl
  length-sort_by less (x ∷ xs) =
      omega (arith, length-insert_by less x (sort_by less xs), length-sort_by less xs)

module _ {ℓ} {A : Type ℓ} ⦃e : Comparable A⦄ where
  contains-insert_by :
      (less : A → A → Bool) (b : A) (xs : List A) (a : A)
      → contains (insert_by less b xs) a ≡ (b == a || contains xs a)
  unfolding contains insert_by
  contains-insert_by less b [] a = refl
  contains-insert_by less b (x ∷ xs) a = ground (arith, contains-insert_by less b xs a)

  pub contains-sort_by :
      (less : A → A → Bool) (xs : List A) (a : A) → contains (sort_by less xs) a ≡ contains xs a
  unfolding contains sort_by
  contains-sort_by less [] a = refl
  contains-sort_by less (x ∷ xs) a =
      ground (arith, contains-insert_by less x (sort_by less xs) a, contains-sort_by less xs a)

  insert_by-IsNodup :
      (less : A → A → Bool) (b : A) (xs : List A)
      → IsNodup xs
      → contains xs b ≡ false
      → IsNodup (insert_by less b xs)
  unfolding contains insert_by
  insert_by-IsNodup less b [] h n = (refl, tt)
  insert_by-IsNodup less b (x ∷ xs) h n = ground (
    arith,
    insert_by-IsNodup less b xs h.1,
    contains-insert_by less b xs x,
    e.equals_iff b x,
    e.equals_iff x b,
  )

  pub sort_by-IsNodup : (less : A → A → Bool) (xs : List A) → IsNodup xs → IsNodup (sort_by less xs)
  unfolding sort_by
  sort_by-IsNodup less [] h = tt
  sort_by-IsNodup less (x ∷ xs) h =
      insert_by-IsNodup less x (sort_by less xs) (sort_by-IsNodup less xs h.1)
        (ground (arith, contains-sort_by less xs x))

-- Whether a test holds of an element, and of all of them.
module _ {ℓ} {A : Type ℓ} where
  abbrev pub any : (A → Bool) → List A → Bool
  any p [] = false
  any p (x ∷ xs) = p x || any p xs

  any-insert_by :
      (less : A → A → Bool) (p : A → Bool) (x : A) (xs : List A)
      → any p (insert_by less x xs) ≡ (p x || any p xs)
  unfolding insert_by
  any-insert_by less p x [] = refl
  any-insert_by less p x (y ∷ xs) = ground (arith, any-insert_by less p x xs)

  pub any-sort_by :
      (less : A → A → Bool) (p : A → Bool) (xs : List A) → any p (sort_by less xs) ≡ any p xs
  unfolding sort_by
  any-sort_by less p [] = refl
  any-sort_by less p (x ∷ xs) =
      ground (arith, any-insert_by less p x (sort_by less xs), any-sort_by less p xs)

  pub any-append : (p : A → Bool) (xs ys : List A) → any p (xs ++ ys) ≡ (any p xs || any p ys)
  any-append p [] ys = refl
  any-append p (x ∷ xs) ys = ground (arith, any-append p xs ys)
