-- ===== src/Common/Int.antt =====
-- Integers over the native numbers, and the values that bit patterns stand for.
use Prim.Native.Nat.{ℕ, ◌-◌, ◌*◌, ◌^◌}
use yuyu.Common.Tests.{ltb, if◌then◌else◌}

-- `negsuc n` is -(n + 1).
pub data ℤ : Type 0 where
  pos : ℕ → ℤ
  negsuc : ℕ → ℤ

-- The signed number of a `w`-bit pattern in two's complement.
abbrev pub signed : ℕ → ℕ → ℤ
signed w x = if ltb (x * 2) (2 ^ w) then pos x else negsuc (2 ^ w - x - 1)
