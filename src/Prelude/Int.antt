-- ===== src/Prelude/Int.antt =====
-- Go's signed integers, where a negative value matters.
use Prim.Native.Nat.{ℕ}

-- `negsuc n` is -(n + 1).
pub data ℤ : Type 0 where
  pos : ℕ → ℤ
  negsuc : ℕ → ℤ
