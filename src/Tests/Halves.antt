-- ===== src/Tests/Halves.antt =====
-- A model of `double` to run the program on: NaN, the infinities and the multiples of one half. It
-- has the properties that the theorems ask of doubles.
use rrdtool_1_x.Prelude.{ℕ, suc, ◌+◌, ◌*◌, ◌/◌, ◌≡◌, refl, ap, Bool, true, false, arith, ltb}
use rrdtool_1_x.Prelude.Int.{ℤ, pos, negsuc, pos_part, neg_part, sub_ℕ, ◌+ℤ◌, quot_ℤ, ltb_ℤ}
use rrdtool_1_x.Prelude.Double.{Double, IsIeee}
use rrdtool_1_x.Update.Pdp.Rate.{IsExact}
use rrdtool_1_x.Update.Values.Counter.{IsExactDifference}

-- `half z` is z / 2.
pub data Num : Type 0 where
  not_a_number inf_pos inf_neg : Num
  half : ℤ → Num

abbrev twice : ℤ → ℤ
twice (pos n) = pos (2 * n)
twice (negsuc n) = negsuc (2 * n + 1)

abbrev minus : ℤ → ℤ
minus z = sub_ℕ (neg_part z) (pos_part z)

abbrev times : ℤ → ℕ → ℤ
times (pos a) n = pos (a * n)
times (negsuc a) n = sub_ℕ 0 (suc a * n)

-- products and quotients by numbers from 0 on
abbrev mul_num : Num → Num → Num
mul_num (half a) (half (pos n)) = half (quot_ℤ (times a n) 2)
mul_num inf_pos y = inf_pos
mul_num inf_neg y = inf_neg
mul_num _ _ = not_a_number

abbrev div_num : Num → Num → Num
div_num (half a) (half (pos (suc n))) = half (quot_ℤ (times a 2) (suc n))
div_num _ _ = not_a_number

abbrev add_num : Num → Num → Num
add_num (half a) (half b) = half (a +ℤ b)
add_num inf_pos (half b) = inf_pos
add_num inf_neg (half b) = inf_neg
add_num (half a) y = y
add_num inf_pos inf_pos = inf_pos
add_num inf_neg inf_neg = inf_neg
add_num _ _ = not_a_number

abbrev neg_num : Num → Num
neg_num (half a) = half (minus a)
neg_num inf_pos = inf_neg
neg_num inf_neg = inf_pos
neg_num not_a_number = not_a_number

abbrev lt_num : Num → Num → Bool
lt_num (half a) (half b) = ltb_ℤ a b
lt_num (half a) inf_pos = true
lt_num inf_neg inf_pos = true
lt_num inf_neg (half b) = true
lt_num _ _ = false

abbrev floor_num : Num → Num
floor_num (half (pos a)) = half (pos (a / 2 * 2))
floor_num (half (negsuc a)) = half (sub_ℕ 0 ((suc a + 1) / 2 * 2))
floor_num x = x

abbrev nat_num : Num → ℕ
nat_num (half z) = pos_part z / 2
nat_num _ = 0

abbrev nan_num : Num → Bool
nan_num not_a_number = true
nan_num _ = false

instance abbrev pub halves : Double Num
halves = record {
  nan = not_a_number;
  inf = inf_pos;
  of_nat = λ n. half (pos (2 * n));
  to_nat = nat_num;
  of_int = λ z. half (twice z);
  neg = neg_num;
  floor = floor_num;
  add = add_num;
  sub = λ x y. add_num x (neg_num y);
  mul = mul_num;
  div = div_num;
  lt = lt_num;
  is_nan = nan_num;
}

add_zero : (x : Num) → add_num x (half (pos 0)) ≡ x
unfolding ◌+ℤ◌
add_zero not_a_number = refl
add_zero inf_pos = refl
add_zero inf_neg = refl
add_zero (half (pos n)) = ground arith
add_zero (half (negsuc n)) = ground arith

mul_one : (x : Num) → mul_num x (half (pos 2)) ≡ x
unfolding quot_ℤ
mul_one not_a_number = refl
mul_one inf_pos = refl
mul_one inf_neg = refl
mul_one (half (pos n)) = ap (λ k. half (pos k)) (omega arith)
mul_one (half (negsuc n)) = ground arith

add_finite :
    (x y : Num)
    → nan_num x ≡ false
    → lt_num inf_neg y ≡ true
    → lt_num y inf_pos ≡ true
    → nan_num (add_num x y) ≡ false
add_finite x not_a_number h k l = cc
add_finite x inf_pos h k l = cc
add_finite x inf_neg h k l = cc
add_finite not_a_number (half b) h k l = cc
add_finite inf_pos (half b) h k l = refl
add_finite inf_neg (half b) h k l = refl
add_finite (half a) (half b) h k l = refl

lt_neg : (x : Num) → lt_num x inf_neg ≡ false
lt_neg not_a_number = refl
lt_neg inf_pos = refl
lt_neg inf_neg = refl
lt_neg (half a) = refl

pub halves-IsIeee : IsIeee Num
halves-IsIeee = record {
  of_nat_not_nan = λ n. refl;
  inf_not_nan = refl;
  neg-inf_not_nan = refl;
  lt-inf = λ x. refl;
  lt-neg_inf = lt_neg;
  add-zero_right = add_zero;
  mul-one_right = mul_one;
  add-finite_not_nan = add_finite;
}

add_nat : (a b : ℕ) → pos (2 * a) +ℤ pos (2 * b) ≡ pos (2 * (a + b))
unfolding ◌+ℤ◌
add_nat a b = ground arith

lt_half :
    (a b : ℕ)
    → lt_num (div_num (half (pos (2 * a))) (half (pos 4))) (half (pos (2 * b))) ≡ ltb a (2 * b)
unfolding quot_ℤ
lt_half a b = ground arith

pub halves-IsExact : IsExact Num
halves-IsExact = record {
  floor-of_nat = λ n h. ap (λ k. half (pos k)) (omega arith);
  to_nat-of_nat = λ n h. omega arith;
  add-of_nat = λ a b h. ap half (add_nat a b);
  lt-of_nat = λ a b h k. ground arith;
  lt-half = λ a b h k. lt_half a b;
}

lt_zero : (a b : ℕ) → ltb_ℤ (twice (sub_ℕ a b)) (pos 0) ≡ ltb a b
lt_zero a b = ground arith

add_difference : (a b c : ℕ) → twice (sub_ℕ a b) +ℤ pos (2 * c) ≡ twice (sub_ℕ (a + c) b)
unfolding ◌+ℤ◌
add_difference a b c = ground arith

pub halves-IsExactDifference : IsExactDifference Num
halves-IsExactDifference = record {
  lt-zero = λ a b h k. lt_zero a b;
  add-of_nat = λ a b c h k. ap half (add_difference a b c);
}
