-- ===== src/Base/Int.antt =====
-- Signed integers, and the `int` that a 32-bit pattern stands for.
use Prim.Native.Nat.{ℕ, ◌-◌, ◌^◌}
use telemetrix_db.Base.Tests.{ltb, if◌then◌else◌}

-- `negsuc n` is -(n + 1).
pub data ℤ : Type 0 where
  pos : ℕ → ℤ
  negsuc : ℕ → ℤ

-- The conversion of a `uint32_t` to an `int`: two's complement.
abbrev pub to_int32 : ℕ → ℤ
to_int32 u = if ltb u (2 ^ 31) then ℤ.pos u else ℤ.negsuc (2 ^ 32 - 1 - u)
