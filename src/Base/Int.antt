-- ===== src/Base/Int.antt =====
-- Go's signed integers where the program passes them on from a request.
use Prim.Native.Nat.{ℕ}

-- `negsuc n` is -(n + 1).
pub data ℤ : Type 0 where
  pos : ℕ → ℤ
  negsuc : ℕ → ℤ
