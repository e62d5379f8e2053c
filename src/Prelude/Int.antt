-- ===== src/Prelude/Int.antt =====
-- The integers.
use Prim.Native.Nat.{ℕ}

-- An int64; `negsuc n` is -(n + 1).
pub data ℤ : Type 0 where
  pos : ℕ → ℤ
  negsuc : ℕ → ℤ
