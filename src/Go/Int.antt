-- ===== src/Go/Int.antt =====
-- Go's `int64`, for values that the program carries and never computes with.
use mt5_bridge.Prelude.{ℕ}

-- `negsuc n` is -(n + 1).
pub data ℤ : Type 0 where
  pos : ℕ → ℤ
  negsuc : ℕ → ℤ
