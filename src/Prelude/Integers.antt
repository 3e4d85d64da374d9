-- ===== src/Prelude/Integers.antt =====
-- The signed integers that a few interfaces answer in, over the native numbers.
use Prim.Native.Nat.{ℕ, suc, ◌-◌}
use mathlib.Core.Bool.{Bool, true, false}
use poc_hydra_auth.Prelude.Tests.{leb, if◌then◌else◌}

-- `negsuc n` is the negative of n + 1.
pub data ℤ : Type 0 where
  pos : ℕ → ℤ
  negsuc : ℕ → ℤ

-- max(i, 0)
abbrev pub not_below_zero : ℤ → ℕ
not_below_zero (pos n) = n
not_below_zero (negsuc n) = 0

abbrev pub is_negative : ℤ → Bool
is_negative (pos n) = false
is_negative (negsuc n) = true

abbrev pub difference : ℕ → ℕ → ℤ
difference a b = if leb b a then pos (a - b) else negsuc (b - suc a)
