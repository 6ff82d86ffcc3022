-- ===== src/Common/Float.antt =====
-- Go's float64: what the modelled code does with it, as an interface, and the facts of IEEE 754 on
-- which properties rely. NaN compares false with everything and differs from everything.
use mathlib.Core.Path.{◌≡◌}
use mathlib.Core.Bool.{Bool, true, false, ◌||◌}
use mathlib.Core.Option.{Option, none, some}
use Prim.Native.Nat.{ℕ, ◌+◌, ◌-◌, ◌*◌, ◌/◌}
use native.Mathlib.Omega.{arith}
use pgpulse.Common.Tests.{ltb, leb, ◌==◌}

pub record Float {ℓ} (F : Type ℓ) : Type ℓ where
  pub lt : F → F → Bool
  pub le : F → F → Bool
  pub eq : F → F → Bool
  pub add : F → F → F
  pub sub : F → F → F
  pub mul : F → F → F
  pub div : F → F → F
  pub of_nat : ℕ → F

-- A constant such as `0.85` is `decimal 85 100`: both are the number nearest to the quotient.
abbrev pub decimal : {F : Type 0} ⦃f : Float F⦄ → ℕ → ℕ → F
decimal ⦃f⦄ n m = f.div (f.of_nat n) (f.of_nat m)

-- Comparisons with NaN are false, and away from NaN the order is total.
pub record IsOrdered {ℓ} (F : Type ℓ) ⦃f : Float F⦄ : Type ℓ where
  pub le-eq-lt-or-eq : (x y : F) → f.le x y ≡ (f.lt x y || f.eq x y)
  pub lt_asymm : (x y : F) → f.lt x y ≡ true → f.lt y x ≡ false
  pub lt_irrefl_eq : (x y : F) → f.eq x y ≡ true → f.lt x y ≡ false
  pub eq_symm : (x y : F) → f.eq x y ≡ f.eq y x
  pub lt_trans : (x y z : F) → f.lt x y ≡ true → f.lt y z ≡ true → f.lt x z ≡ true

-- The laws can be met: naturals, with `none` for NaN.
abbrev pub Sample : Type 0
Sample = Option ℕ

abbrev pub on_numbers : (ℕ → ℕ → Bool) → Sample → Sample → Bool
on_numbers f (some a) (some b) = f a b
on_numbers f _ _ = false

abbrev pub lift_numbers : (ℕ → ℕ → ℕ) → Sample → Sample → Sample
lift_numbers f (some a) (some b) = some (f a b)
lift_numbers f _ _ = none

instance abbrev pub sample_float : Float Sample
sample_float = record {
  lt = on_numbers ltb;
  le = on_numbers leb;
  eq = on_numbers λ a b. a == b;
  add = lift_numbers λ a b. a + b;
  sub = lift_numbers λ a b. a - b;
  mul = lift_numbers λ a b. a * b;
  div = lift_numbers λ a b. a / b;
  of_nat = some;
}

pub Sample-IsOrdered : IsOrdered Sample
Sample-IsOrdered = ground arith
