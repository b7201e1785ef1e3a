-- ===== src/Base/Int.antt =====
-- Signed integers, and the reading of a byte as an `int8_t`.
use Prim.Native.Nat.{ℕ, zero, suc, ◌-◌}
use mathlib.Core.Bool.{Bool, true, false}
use ni_traktor_kontrol_f.Base.Tests.{ltb, if◌then◌else◌}

-- `negsuc n` is -(n + 1).
pub data ℤ : Type 0 where
  pos : ℕ → ℤ
  negsuc : ℕ → ℤ

-- The number that a bit pattern below 256 stands for.
abbrev pub int8 : ℕ → ℤ
int8 w = if ltb w 128 then pos w else negsuc (255 - w)

-- `z > 0`.
abbrev pub is_positive : ℤ → Bool
is_positive (pos zero) = false
is_positive (pos (suc n)) = true
is_positive (negsuc n) = false
