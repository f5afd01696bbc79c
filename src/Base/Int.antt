-- ===== src/Base/Int.antt =====
-- Signed integers over the native numbers, and the integer that a word of `width` bits stands for.
use Prim.Native.Nat.{ℕ, ◌-◌, ◌^◌}
use toy_isa_v1_5_interpreter.Base.Tests.{ltb, if◌then◌else◌}

-- `negsuc n` is -(n + 1).
pub data ℤ : Type 0 where
  pos : ℕ → ℤ
  negsuc : ℕ → ℤ

-- The two's complement value of the low `width` bits.
abbrev pub to_signed : ℕ → ℕ → ℤ
to_signed width x = if ltb x (2 ^ (width - 1)) then pos x else negsuc (2 ^ width - x - 1)
