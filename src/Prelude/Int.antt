-- ===== src/Prelude/Int.antt =====
-- Integers, where the source tests a sign before it uses a number.
use Prim.Native.Nat.{ℕ}

-- `negsuc n` is -(n + 1).
pub data ℤ : Type 0 where
  pos : ℕ → ℤ
  negsuc : ℕ → ℤ
