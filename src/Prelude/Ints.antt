-- ===== src/Prelude/Ints.antt =====
-- Go's `int`, as a sign and a native number.
use Prim.Native.Nat.{ℕ}

pub data ℤ : Type 0 where
  pos : ℕ → ℤ
  negsuc : ℕ → ℤ
