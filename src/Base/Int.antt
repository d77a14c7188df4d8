-- ===== src/Base/Int.antt =====
-- Signed integers: `int` values that the code compares with counters.
use Prim.Native.Nat.{ℕ, suc, ◌+◌, ◌-◌}
use mathlib.Core.Bool.{Bool, true, false}
use mathlib.Core.Path.{◌≡◌, refl}
use native.Mathlib.Omega.{arith}
use coro_http.Base.Tests.{ltb, leb, if◌then◌else◌}

-- `negsuc n` is -(n + 1).
pub data ℤ : Type 0 where
  pos : ℕ → ℤ
  negsuc : ℕ → ℤ

abbrev pub pos_part : ℤ → ℕ
pos_part (pos n) = n
pos_part (negsuc n) = 0

-- `n < z` for a counter that is not negative.
abbrev pub ltz : ℕ → ℤ → Bool
ltz n (pos m) = ltb n m
ltz n (negsuc m) = false

pub ltz-pos_part : (n : ℕ) (z : ℤ) → ltz n z ≡ ltb n (pos_part z)
ltz-pos_part n (pos m) = refl
ltz-pos_part n (negsuc m) = ground arith

-- `z - n`
unfoldable pub minus : ℤ → ℕ → ℤ
minus (pos m) n = if leb n m then pos (m - n) else negsuc (n - m - 1)
minus (negsuc m) n = negsuc (m + n)

-- `z < n`
unfoldable pub zlt : ℤ → ℕ → Bool
zlt (pos m) n = ltb m n
zlt (negsuc m) n = true

-- `n + z`
unfoldable pub plus : ℕ → ℤ → ℤ
plus n (pos m) = pos (n + m)
plus n (negsuc m) = minus (pos n) (suc m)
