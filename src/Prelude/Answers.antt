-- ===== src/Prelude/Answers.antt =====
-- Go's pair of a result and an error, of which one is nil, and chains of such calls.
use mathlib.Core.Path.{◌≡◌, refl, ap}
use mathlib.Core.Option.{Option, none, some}
use mathlib.Core.List.{List, [], ◌∷◌}
use native.Mathlib.Omega.{arith}
use proxystack_go.Prelude.Bytes.{Text}

-- A result, or the text of an error.
pub data Answer {ℓ} (A : Type ℓ) : Type ℓ where
  ok : A → Answer A
  error : Text → Answer A

-- `if err != nil { return err }` between two calls.
infixl 5 ◌>>=◌ ◌>>◌
abbrev pub ◌>>=◌ {ℓ κ} : {A : Type ℓ} {B : Type κ} → Answer A → (A → Answer B) → Answer B
ok a >>= next = next a
error e >>= next = error e

-- A call that returns only an error stands in front.
abbrev pub ◌>>◌ {ℓ} : {B : Type ℓ} → Option Text → Answer B → Answer B
none >> next = next
some e >> next = error e

-- A loop that stops at the first error and collects the results.
unfoldable pub traverse {ℓ κ} :
    {A : Type ℓ} {B : Type κ} → (A → Answer B) → List A → Answer (List B)
traverse f [] = ok []
traverse f (x ∷ xs) = f x >>= λ y. traverse f xs >>= λ ys. ok (y ∷ ys)

-- The parts of a chain that ends with a result.
pub >>=-ok {ℓ κ} :
    {A : Type ℓ} {B : Type κ} (first : Answer A) (next : A → Answer B) {b : B}
    → (first >>= next) ≡ ok b
    → (a : A) × (first ≡ ok a) × (next a ≡ ok b)
>>=-ok (ok a) next h = (a, refl, h)
>>=-ok (error e) next h = absurd (ground arith)

pub >>-ok {ℓ} :
    {B : Type ℓ} (first : Option Text) (next : Answer B) {b : B}
    → (first >> next) ≡ ok b
    → (first ≡ none) × (next ≡ ok b)
>>-ok none next h = (refl, h)
>>-ok (some e) next h = absurd (ground arith)

pub ok-injective {ℓ} : {A : Type ℓ} {a b : A} → ok a ≡ ok b → a ≡ b
ok-injective e = ground (arith, e)

pub >>-skip {ℓ} :
    {B : Type ℓ} {first : Option Text} (next : Answer B) → first ≡ none → (first >> next) ≡ next
>>-skip next h = ap (λ o. o >> next) h

pub >>=-pass {ℓ κ} :
    {A : Type ℓ} {B : Type κ} {first : Answer A} (next : A → Answer B) {a : A}
    → first ≡ ok a
    → (first >>= next) ≡ next a
>>=-pass next h = ap (λ o. o >>= next) h
