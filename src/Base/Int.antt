-- ===== src/Base/Int.antt =====
-- Python's integers: `negsuc n` is -(n + 1).
use Prim.Native.Nat.{ℕ, zero, suc}
use mathlib.Core.Bool.{Bool, false, ◌&&◌}
use centralite_ha.Base.Tests.{leb}

pub data ℤ : Type 0 where
  pos : ℕ → ℤ
  negsuc : ℕ → ℤ

-- -n
abbrev pub neg : ℕ → ℤ
neg zero = pos 0
neg (suc n) = negsuc n

-- 0 < z
abbrev pub is_positive : ℤ → Bool
is_positive (pos n) = leb 1 n
is_positive (negsuc n) = false

-- 1 <= z <= hi
abbrev pub within_one : ℕ → ℤ → Bool
within_one hi (pos n) = leb 1 n && leb n hi
within_one hi (negsuc n) = false

-- 0 <= z <= hi
abbrev pub within_zero : ℕ → ℤ → Bool
within_zero hi (pos n) = leb n hi
within_zero hi (negsuc n) = false
