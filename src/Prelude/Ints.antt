-- ===== src/Prelude/Ints.antt =====
-- Go's int, over the native natural numbers.
use Prim.Native.Nat.{ℕ, suc}
use mathlib.Core.Bool.{Bool, false, not}
use mathlib.Core.List.{◌∷◌}
use proxystack_go.Prelude.Tests.{nat_eq}
use proxystack_go.Prelude.Bytes.{Text, decimal}

-- `negsuc n` is -(n + 1).
pub data ℤ : Type 0 where
  pos : ℕ → ℤ
  negsuc : ℕ → ℤ

-- `i == 0`
unfoldable pub is_zero : ℤ → Bool
is_zero (pos n) = nat_eq n 0
is_zero (negsuc n) = false

-- `i > 0`
unfoldable pub is_above_zero : ℤ → Bool
is_above_zero (pos n) = not (nat_eq n 0)
is_above_zero (negsuc n) = false

-- strconv.Itoa
unfoldable pub decimal_int : ℤ → Text
decimal_int (pos n) = decimal n
decimal_int (negsuc n) = b'-' ∷ decimal (suc n)
