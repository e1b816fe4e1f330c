-- ===== src/Config/Checks.antt =====
-- internal/domain/models.go: when a chain of checks accepts.
use proxystack_go.Prelude.{◌≡◌, refl, ◌↔◌, Text, Bool, true, false, Option, none, some, arith}
use proxystack_go.Config.Values.{◌then◌, refuse_if}

pub then-none : (a b : Option Text) → (a then b ≡ none) ↔ ((a ≡ none) × (b ≡ none))
unfolding ◌then◌
then-none none b = (λ e. (refl, e), λ h. h.1)
then-none (some t) b = (λ e. absurd (ground arith), λ h. absurd (ground (arith, h.0)))

pub refuse_if-none :
    (refused : Bool) (message : Text) → (refuse_if refused message ≡ none) ↔ (refused ≡ false)
unfolding refuse_if
refuse_if-none true message = (λ e. absurd (ground arith), λ e. absurd (ground arith))
refuse_if-none false message = (λ e. refl, λ e. refl)

pub second : (a b : Option Text) → a then b ≡ none → b ≡ none
second a b e = ((then-none a b).0 e).1
