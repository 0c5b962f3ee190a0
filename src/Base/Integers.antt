-- ===== src/Base/Integers.antt =====
-- Signed integers, over the native numbers.
use Prim.Native.Nat.{ℕ, zero, suc, ◌+◌, ◌-◌, ◌*◌}
use mathlib.Core.Bool.{Bool}
use package.knox_iam_public.Base.Tests.{ltb, leb, if◌then◌else◌}

-- `negsuc n` is -(n + 1).
pub data ℤ : Type 0 where
  pos : ℕ → ℤ
  negsuc : ℕ → ℤ

infixl 6 ◌+ℤ◌
abbrev pub ◌+ℤ◌ : ℤ → ℤ → ℤ
pos a +ℤ pos b = pos (a + b)
pos a +ℤ negsuc b = if ltb b a then pos (a - suc b) else negsuc (b - a)
negsuc a +ℤ pos b = if ltb a b then pos (b - suc a) else negsuc (a - b)
negsuc a +ℤ negsuc b = negsuc (suc (a + b))

-- A number of times an integer.
abbrev pub times : ℕ → ℤ → ℤ
times n (pos a) = pos (n * a)
times zero (negsuc a) = pos 0
times (suc n) (negsuc a) = negsuc (suc n * suc a - 1)

-- Between two bounds, the lower one negative: -(low + 1) ≤ i ≤ high.
abbrev pub is_within : ℕ → ℕ → ℤ → Bool
is_within low high (pos a) = leb a high
is_within low high (negsuc a) = leb a low
