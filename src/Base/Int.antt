-- ===== src/Base/Int.antt =====
-- Go's `int` and `time.Duration`, as integers. An operation that meets their bounds says so.
use Prim.Native.Nat.{ℕ}

-- `negsuc n` is -(n + 1).
pub data ℤ : Type 0 where
  pos : ℕ → ℤ
  negsuc : ℕ → ℤ
