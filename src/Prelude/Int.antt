-- ===== src/Prelude/Int.antt =====
-- Integers: attempt counts as `parseInt` reads them, and the delays computed from them.
use Prim.Native.Nat.{ℕ, zero, suc, ◌+◌, ◌*◌}
use mathlib.Core.Bool.{Bool, true, false}
use saga_bus.Prelude.Tests.{ltb}

-- `negsuc n` is -(n + 1).
pub data ℤ : Type 0 where
  pos : ℕ → ℤ
  negsuc : ℕ → ℤ

-- a + 1
abbrev pub next : ℤ → ℤ
next (pos n) = pos (n + 1)
next (negsuc zero) = pos 0
next (negsuc (suc n)) = negsuc n

-- -n
abbrev pub minus : ℕ → ℤ
minus zero = pos 0
minus (suc n) = negsuc n

-- n * a, n a natural number
abbrev pub scale : ℕ → ℤ → ℤ
scale n (pos m) = pos (n * m)
scale n (negsuc m) = minus (n * suc m)

-- a < n, n a natural number
abbrev pub lt_nat : ℤ → ℕ → Bool
lt_nat (pos m) n = ltb m n
lt_nat (negsuc m) n = true

-- n < a, n a natural number
abbrev pub nat_lt : ℕ → ℤ → Bool
nat_lt n (pos m) = ltb n m
nat_lt n (negsuc m) = false
