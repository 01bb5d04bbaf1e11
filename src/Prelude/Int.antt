-- ===== src/Prelude/Int.antt =====
-- Signed integers over the native numbers: the status codes of libs/inc/linber_ioctl.h.
use Prim.Native.Nat.{ℕ}

-- `negsuc n` is -(n + 1).
pub data ℤ : Type 0 where
  pos : ℕ → ℤ
  negsuc : ℕ → ℤ
