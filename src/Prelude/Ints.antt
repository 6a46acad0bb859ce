-- ===== src/Prelude/Ints.antt =====
-- A Go `int` that may be negative, over the native numbers.
use Prim.Native.Nat.{ℕ}

pub data ℤ : Type 0 where
  pos : ℕ → ℤ
  -- `negsuc n` is - (n + 1)
  negsuc : ℕ → ℤ
