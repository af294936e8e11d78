-- ===== src/Tests/Rpns.antt =====
-- The theorems on RPN expressions at concrete inputs.
use rrdtool_1_x.Prelude.{
  ℕ, zero, suc, ◌+◌, ◌-◌, ◌*◌, ◌/◌, ◌≤◌, ◌<◌, ◌≡◌, refl, ap, inl, inr, ◌⊎◌, Bool, true, false,
  Option, none, some, List, [], ◌∷◌, ◌++◌, map, arith, if◌then◌else◌, length, codes, str_eq, take,
  All,
}
use rrdtool_1_x.Prelude.Int.{ℤ, pos, negsuc, quot_ℤ, ltb_ℤ}
use rrdtool_1_x.Rpn.{
  Op, op_number, op_variable, op_add, op_lt, op_prev_other, Rpnp, RpnCdefds, Math,
}
use rrdtool_1_x.Rpn.Compact.{eq_double, shrt_min, shrt_max, rpn_compact, rpn_expand}
use rrdtool_1_x.Rpn.Compact.RoundTrip.{
  IsExactShort, IsShort, FitsShort, rpn_expand-compact, essence,
}
use rrdtool_1_x.Rpn.Ranges.{ran, wild, left_out}
use rrdtool_1_x.Rpn.Calc.{copy_elements}
use rrdtool_1_x.Rpn.Calc.Correct.{Expr, number, source, combine, if_else, postfix}
use rrdtool_1_x.Rpn.Calc.Room.{room_for, copy_elements_lem}
use rrdtool_1_x.Rpn.Compute.{compute_cdef}
use rrdtool_1_x.Rpn.Compute.Value.{variable_node}
use rrdtool_1_x.Rpn.Compute.Previous.{compute_cdef-Previous}
use rrdtool_1_x.Rpn.Parse.{rpn_parse, parse_cdef_ds}
use rrdtool_1_x.Rpn.Parse.Ends.{rpn_parse-IsEnded}
use rrdtool_1_x.Tests.Halves.{Num, half, not_a_number, inf_pos, inf_neg, halves}
use rrdtool_1_x.Tests.Small.{whole}

abbrev int_num : Num → ℤ
int_num (half z) = quot_ℤ z 2
int_num _ = pos 0

abbrev inf_sign : Num → ℤ
inf_sign inf_pos = pos 1
inf_sign inf_neg = negsuc 0
inf_sign _ = pos 0

abbrev insert_by : (Num → Num → ℤ) → Num → List Num → List Num
insert_by compare x [] = x ∷ []
insert_by compare x (y ∷ ys) =
    let later = insert_by compare x ys in
    if ltb_ℤ (pos 0) (compare x y) then y ∷ later else x ∷ y ∷ ys

abbrev sort_by : (Num → Num → ℤ) → List Num → List Num
sort_by compare [] = []
sort_by compare (x ∷ xs) = insert_by compare x (sort_by compare xs)

-- A stand-in for the C library: whole numbers only, on which rounding changes nothing.
instance abbrev halves_math : Math Num
halves_math = record {
  sin = λ x. not_a_number;
  cos = λ x. not_a_number;
  atan = λ x. not_a_number;
  log = λ x. not_a_number;
  exp = λ x. not_a_number;
  sqrt = λ x. not_a_number;
  ceil = λ x. x;
  round = λ x. x;
  atan2 = λ x y. not_a_number;
  pow = λ x y. not_a_number;
  fmod = λ x y. not_a_number;
  isinf = inf_sign;
  to_int = int_num;
  rad2deg = whole 57;
  deg2rad = whole 0;
  time = whole 0;
  qsort = sort_by;
}

floor_back : (z : ℤ) → IsShort z → halves.floor (halves.of_int z) ≡ halves.of_int z
floor_back (pos n) h = ap (λ k. half (pos k)) (ground arith)
floor_back (negsuc n) h = ground arith

int_back : (z : ℤ) → IsShort z → int_num (halves.of_int z) ≡ z
unfolding quot_ℤ
int_back (pos n) h = ground arith
int_back (negsuc n) h = ground arith

halves-IsExactShort : IsExactShort Num
halves-IsExactShort = record { floor-of_int = floor_back; to_int-of_int = int_back }

-- "a,3,LT,a,3,+,a,IF": a + 3 where a is below 3, and else a
abbrev sample : Expr Num
sample =
    if_else (combine op_lt (source 0) (number (whole 3)))
      (combine op_add (source 0) (number (whole 3))) (source 0)

abbrev two : List Num
two = whole 2 ∷ []

abbrev stored_sample : List RpnCdefds
stored_sample = elim (rpn_compact (postfix (variable_node two) sample)) [ ran cdef ↦ cdef | _ ↦ [] ]

sample_stored : rpn_compact (postfix (variable_node two) sample) ≡ ran stored_sample
unfolding rpn_compact postfix rrdtool_1_x.Rpn.Compact.compact_nodes
    rrdtool_1_x.Rpn.Compact.compact_node rrdtool_1_x.Rpn.Compact.compact_val
    rrdtool_1_x.Rpn.Compact.blank rrdtool_1_x.Rpn.Compact.as_short quot_ℤ
sample_stored = refl

zero-IsShort : IsShort (pos 0)
zero-IsShort = (omega arith, omega arith)

sample_fits : All FitsShort (postfix (variable_node two) sample)
unfolding postfix rrdtool_1_x.Rpn.Compact.blank
sample_fits = (
  (zero-IsShort, λ h. cc),
  (
    (zero-IsShort, λ h. (pos 3, (omega arith, omega arith), refl)),
    (
      (zero-IsShort, λ h. cc),
      (
        (zero-IsShort, λ h. cc),
        (
          (zero-IsShort, λ h. (pos 3, (omega arith, omega arith), refl)),
          ((zero-IsShort, λ h. cc), ((zero-IsShort, λ h. cc), ((zero-IsShort, λ h. cc), tt))),
        ),
      ),
    ),
  ),
)

rpn_expand_example :
    (length (postfix (variable_node two) sample) ≤ 19)
    × (rpn_expand stored_sample ≡ map essence (postfix (variable_node two) sample))
rpn_expand_example =
    rpn_expand-compact halves-IsExactShort (postfix (variable_node two) sample) sample_fits
      sample_stored

-- numbers of one digit
abbrev read_number : List ℕ → Option Num
read_number (c ∷ []) = some (whole (c - 48))
read_number _ = none

abbrev a_only : List ℕ → Option ℕ
a_only name = if str_eq (codes "a") name then some 0 else none

rpn_parse_example : ¬ (rpn_parse a_only read_number (codes "a,3,+") ≡ left_out)
rpn_parse_example = rpn_parse-IsEnded read_number a_only (codes "a,3,+")

abbrev parsed_sum : List RpnCdefds
parsed_sum =
    record { op = op_variable; val = pos 0 }
    ∷ record { op = op_number; val = pos 3 }
    ∷ record { op = op_add; val = pos 0 }
    ∷ []

sum_parsed : parse_cdef_ds a_only read_number (codes "a,3,+") ≡ ran parsed_sum
unfolding rrdtool_1_x.Rpn.Parse.strip_prefix rrdtool_1_x.Rpn.Parse.at_end
    rrdtool_1_x.Rpn.Parse.match_op rrdtool_1_x.Rpn.Parse.match_ops rrdtool_1_x.Rpn.Parse.span
    rrdtool_1_x.Rpn.Parse.number_char rrdtool_1_x.Rpn.Parse.name_char
    rrdtool_1_x.Rpn.Parse.forbidden rrdtool_1_x.Rpn.Parse.number_ended
    rrdtool_1_x.Rpn.Parse.number_of rrdtool_1_x.Rpn.Parse.number_token
    rrdtool_1_x.Rpn.Parse.any_forbidden rrdtool_1_x.Rpn.Parse.store_cdef
    rrdtool_1_x.Rpn.Parse.prev_name rrdtool_1_x.Rpn.Parse.name_token
    rrdtool_1_x.Rpn.Parse.later_token rrdtool_1_x.Rpn.Parse.prev_token
    rrdtool_1_x.Rpn.Parse.parse_token rrdtool_1_x.Rpn.Parse.after_token
    rrdtool_1_x.Rpn.Parse.parse_loop rpn_parse parse_cdef_ds rrdtool_1_x.Rpn.Compact.as_short
    rrdtool_1_x.Rpn.Compact.compact_val rrdtool_1_x.Rpn.Compact.compact_node
    rrdtool_1_x.Rpn.Compact.compact_nodes rpn_compact rrdtool_1_x.Rpn.Compact.blank
    rrdtool_1_x.Rpn.Compact.expand_node rpn_expand str_eq quot_ℤ
sum_parsed = refl

-- "PREV(a)"
abbrev previous_a : List RpnCdefds
previous_a = record { op = op_prev_other; val = pos 0 } ∷ []

previous_parsed : parse_cdef_ds a_only read_number (codes "PREV(a)") ≡ ran previous_a
unfolding rrdtool_1_x.Rpn.Parse.strip_prefix rrdtool_1_x.Rpn.Parse.at_end
    rrdtool_1_x.Rpn.Parse.match_op rrdtool_1_x.Rpn.Parse.match_ops rrdtool_1_x.Rpn.Parse.span
    rrdtool_1_x.Rpn.Parse.number_char rrdtool_1_x.Rpn.Parse.name_char
    rrdtool_1_x.Rpn.Parse.forbidden rrdtool_1_x.Rpn.Parse.number_ended
    rrdtool_1_x.Rpn.Parse.number_of rrdtool_1_x.Rpn.Parse.number_token
    rrdtool_1_x.Rpn.Parse.any_forbidden rrdtool_1_x.Rpn.Parse.store_cdef
    rrdtool_1_x.Rpn.Parse.prev_name rrdtool_1_x.Rpn.Parse.name_token
    rrdtool_1_x.Rpn.Parse.later_token rrdtool_1_x.Rpn.Parse.prev_token
    rrdtool_1_x.Rpn.Parse.parse_token rrdtool_1_x.Rpn.Parse.after_token
    rrdtool_1_x.Rpn.Parse.parse_loop rpn_parse parse_cdef_ds rrdtool_1_x.Rpn.Compact.as_short
    rrdtool_1_x.Rpn.Compact.compact_val rrdtool_1_x.Rpn.Compact.compact_node
    rrdtool_1_x.Rpn.Compact.compact_nodes rpn_compact rrdtool_1_x.Rpn.Compact.blank
    rrdtool_1_x.Rpn.Compact.expand_node rpn_expand str_eq quot_ℤ
previous_parsed = refl

compute_cdef_fails_example : ¬ (compute_cdef previous_a two 1 10 ≡ ran (whole 2))
compute_cdef_fails_example = compute_cdef-Previous previous_a two 1 10 (inl refl)

-- Three elements on a stack of 4 places: a copy of two ends at the place 4, the first past the end.
abbrev three : List Num
three = whole 1 ∷ whole 2 ∷ whole 3 ∷ []

copy_elements_example :
    ((3 + 2 - 1 < room_for 2 three 4)
      × (copy_elements 2 three 4 ≡ ran (take 2 three ++ three, room_for 2 three 4)))
    ⊎ ((room_for 2 three 4 ≡ 3 + 2 - 1) × (copy_elements 2 three 4 ≡ wild))
copy_elements_example = copy_elements_lem 2 three 4 (omega arith)
