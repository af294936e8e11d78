-- ===== src/Prelude/Double.antt =====
-- `double`, as the program uses it. The arithmetic itself is the processor's and the C library's, so
-- a type of doubles with its operations is a parameter of every component that computes with one.
use Prim.Native.Nat.{ℕ}
use mathlib.Core.Path.{◌≡◌}
use mathlib.Core.Bool.{Bool, true, false}
use rrdtool_1_x.Prelude.Int.{ℤ}

pub record Double (D : Type 0) : Type 0 where
  pub nan : D
  pub inf : D
  pub of_nat : ℕ → D  -- the conversion of an `unsigned long`
  pub to_nat : D → ℕ  -- the conversion to an `unsigned long`
  pub of_int : ℤ → D  -- the conversion of a `long`
  pub neg : D → D
  pub floor : D → D
  pub add : D → D → D
  pub sub : D → D → D
  pub mul : D → D → D
  pub div : D → D → D
  pub lt : D → D → Bool
  pub is_nan : D → Bool

-- What IEEE 754 says of NaN, of the infinities and of 0 and 1. The two zeros count as one value.
pub record IsIeee (D : Type 0) ⦃d : Double D⦄ : Type 0 where
  pub of_nat_not_nan : (n : ℕ) → d.is_nan (d.of_nat n) ≡ false
  pub inf_not_nan : d.is_nan d.inf ≡ false
  pub neg-inf_not_nan : d.is_nan (d.neg d.inf) ≡ false
  -- nothing lies beyond the infinities
  pub lt-inf : (x : D) → d.lt d.inf x ≡ false
  pub lt-neg_inf : (x : D) → d.lt x (d.neg d.inf) ≡ false
  -- 0 and 1 are neutral
  pub add-zero_right : (x : D) → d.add x (d.of_nat 0) ≡ x
  pub mul-one_right : (x : D) → d.mul x (d.of_nat 1) ≡ x
  -- a sum with a finite number is NaN only if the other number is
  pub add-finite_not_nan :
      (x y : D)
      → d.is_nan x ≡ false
      → d.lt (d.neg d.inf) y ≡ true
      → d.lt y d.inf ≡ true
      → d.is_nan (d.add x y) ≡ false
