-- ===== src/Common/Int.antt =====
-- Signed numbers, as far as the queries of the API have them.
use Prim.Native.Nat.{ℕ, min, max}

-- `negsuc n` is -(n + 1).
pub data ℤ : Type 0 where
  pos : ℕ → ℤ
  negsuc : ℕ → ℤ

-- `clamp(lo, hi)` between natural bounds.
abbrev pub clamp : ℕ → ℕ → ℤ → ℕ
clamp lo hi (pos n) = min (max lo n) hi
clamp lo hi (negsuc n) = lo

-- `max(0)`.
abbrev pub at_least_zero : ℤ → ℕ
at_least_zero (pos n) = n
at_least_zero (negsuc n) = 0
