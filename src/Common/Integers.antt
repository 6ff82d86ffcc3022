-- ===== src/Common/Integers.antt =====
-- Go's int64 where the code subtracts: whole numbers over the native naturals. The counters stay far
-- below the range of int64.
use Prim.Native.Nat.{ℕ, ◌+◌, ◌-◌}
use mathlib.Core.Bool.{Bool, true, false}
use pgpulse.Common.Tests.{ltb, leb, if◌then◌else◌}
use pgpulse.Common.Float.{Float}

pub data ℤ : Type 0 where
  pos : ℕ → ℤ
  negsuc : ℕ → ℤ

-- The difference of two naturals.
abbrev pub difference : ℕ → ℕ → ℤ
difference a b = if leb b a then pos (a - b) else negsuc ((b - a) - 1)

infixl 60 ◌+ℤ◌
abbrev pub ◌+ℤ◌ : ℤ → ℤ → ℤ
pos a +ℤ pos b = pos (a + b)
pos a +ℤ negsuc b = difference a (b + 1)
negsuc a +ℤ pos b = difference b (a + 1)
negsuc a +ℤ negsuc b = negsuc ((a + b) + 1)

abbrev pub lt_int : ℤ → ℤ → Bool
lt_int (pos a) (pos b) = ltb a b
lt_int (pos a) (negsuc b) = false
lt_int (negsuc a) (pos b) = true
lt_int (negsuc a) (negsuc b) = ltb b a

-- float64(n)
abbrev pub float_of_int : {F : Type 0} ⦃f : Float F⦄ → ℤ → F
float_of_int ⦃f⦄ (pos n) = f.of_nat n
float_of_int ⦃f⦄ (negsuc n) = f.sub (f.of_nat 0) (f.of_nat (n + 1))
