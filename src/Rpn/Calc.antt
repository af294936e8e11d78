-- ===== src/Rpn/Calc.antt =====
-- `rpn_calc` of src/rrd_rpncalc.c. The operators of the calendar, `PREDICT`, `TREND` and `ROLL` are
-- left out. A node is run once, so that the pointers that move on for the next run stay as they are.
pub mod Correct
pub mod Room
pub mod Median
use rrdtool_1_x.Prelude.{
  ℕ, zero, suc, ◌+◌, ◌-◌, Bool, not, ◌&&◌, ◌||◌, Option, none, some, List, [], ◌∷◌, ◌++◌, ltb, leb,
  ◌==◌, if◌then◌else◌, length, get_elem?, set, take,
}
use rrdtool_1_x.Prelude.Int.{ℤ, pos, negsuc}
use rrdtool_1_x.Prelude.Double.{Double}
use rrdtool_1_x.Rpn.{
  op_number, op_variable, op_inf, op_prev, op_neginf, op_unkn, op_now, op_time, op_add, op_mod,
  op_sub, op_mul, op_div, op_sin, op_dup, op_exc, op_pop, op_cos, op_log, op_exp, op_lt, op_le,
  op_gt, op_ge, op_eq, op_if, op_min, op_max, op_limit, op_floor, op_ceil, op_un, op_end, op_ne,
  op_isinf, op_prev_other, op_count, op_atan, op_sqrt, op_sort, op_rev, op_atan2, op_rad2deg,
  op_deg2rad, op_avg, op_abs, op_addnan, op_minnan, op_maxnan, op_median, op_depth, op_copy,
  op_index, op_stepwidth, op_smin, op_smax, op_stdev, op_percent, op_pow, op_round, Op, Rpnp, Math,
}
use rrdtool_1_x.Rpn.Ranges.{
  Failure, stack_underflow, vdef_in_rpn, bad_percentile, final_stack_size, Run, ran, failed, wild,
  left_out, ◌>>=◌, found, need, sort_elements, reverse_elements, average_elements, median_elements,
  stdev_elements, extreme_elements, percent, with_count, index,
}

-- the arguments of `rpn_calc`; `output_idx` is not negative
pub record Call (D : Type 0) : Type 0 where
  pub data_idx : ℕ
  pub output : List D
  pub output_idx : ℕ
  pub step_width : ℕ

-- one more block where fewer than five places may be left
unfoldable pub grow : ℕ → ℕ → ℕ
grow depth dc_stacksize = if ltb dc_stacksize (depth + 4) then dc_stacksize + 1000 else dc_stacksize

-- the loop that makes room for a copy, on fuel: each round adds a block
unfoldable pub copy_room : ℕ → ℕ → ℕ → ℕ
copy_room zero wanted dc_stacksize = dc_stacksize
copy_room (suc n) wanted dc_stacksize =
    let more = copy_room n wanted (dc_stacksize + 1000) in
    if ltb dc_stacksize wanted then more else dc_stacksize

module _ {D : Type 0} where
  abbrev pub unary : (D → D) → List D → Run (List D)
  unary f (x ∷ s) = ran (f x ∷ s)
  unary f [] = failed stack_underflow

  abbrev pub binary : (D → D → D) → List D → Run (List D)
  binary f (y ∷ x ∷ s) = ran (f x y ∷ s)
  binary f _ = failed stack_underflow

  abbrev pub ternary : (D → D → D → D) → List D → Run (List D)
  ternary f (z ∷ y ∷ x ∷ s) = ran (f x y z ∷ s)
  ternary f _ = failed stack_underflow

  -- The copies end at the place that is their number above the old top, `length s - 1`.
  unfoldable pub copy_elements : ℕ → List D → ℕ → Run (List D × ℕ)
  copy_elements n s dc_stacksize =
      let size = copy_room (length s + n) (length s + n - 1) dc_stacksize in
      if ltb (length s + n - 1) size || n == 0 then ran (take n s ++ s, size) else wild

  -- `previous` of `PREV`
  unfoldable pub previous : Call D → D → Run D
  previous c nan =
      if c.output_idx == 0 then ran nan else found (get_elem? c.output (c.output_idx - 1))

module _ {D : Type 0} ⦃d : Double D⦄ where
  open d use {nan, of_nat, lt, is_nan}

  abbrev pub truth : Bool → D
  truth b = if b then of_nat 1 else of_nat 0

  -- an unknown operand is the result
  unfoldable pub nan_or : (D → D → D) → D → D → D
  nan_or f x y = if is_nan x then x else if is_nan y then y else f x y

  -- an unknown operand is left out
  unfoldable pub known_or : (D → D → D) → D → D → D
  known_or f x y = if is_nan x then y else if is_nan y then x else f x y

  abbrev pub lesser : D → D → D
  lesser x y = if lt y x then y else x

  abbrev pub greater : D → D → D
  greater x y = if lt x y then y else x

  abbrev pub same : D → D → Bool
  same x y = not (is_nan x) && not (is_nan y) && not (lt x y) && not (lt y x)

  unfoldable pub choose : D → D → D → D
  choose x y z = if is_nan x || same x (of_nat 0) then z else y

  unfoldable pub within_limits : D → D → D → D
  within_limits x y z =
      if is_nan x
      then x
      else if is_nan y
      then y
      else if is_nan z
      then z
      else if lt x y
      then nan
      else if lt z x
      then nan
      else x

  abbrev pub fabs_double : D → D
  fabs_double x = if lt x (of_nat 0) then d.neg x else x

  -- The value of a variable, or of one row before it.
  unfoldable pub variable : Rpnp D → Run D
  variable r =
      if r.ds_cnt == 0 then failed vdef_in_rpn else found (get_elem? r.data_array r.data_idx)

  unfoldable pub variable_before : Rpnp D → Call D → Run D
  variable_before r c =
      if r.ds_cnt == 0
      then failed vdef_in_rpn
      else if c.output_idx == 0
      then ran nan
      else if ltb r.data_idx r.ds_cnt
      then wild
      else found (get_elem? r.data_array (r.data_idx - r.ds_cnt))

  abbrev pub push : List D → D → Run (List D)
  push s v = ran (v ∷ s)

module _ {D : Type 0} ⦃d : Double D⦄ ⦃m : Math D⦄ where
  -- the functions of one operand
  unfoldable pub unary_of : Op → Option (D → D)
  unary_of op_sin = some m.sin
  unary_of op_cos = some m.cos
  unary_of op_atan = some m.atan
  unary_of op_log = some m.log
  unary_of op_exp = some m.exp
  unary_of op_sqrt = some m.sqrt
  unary_of op_ceil = some m.ceil
  unary_of op_floor = some d.floor
  unary_of op_round = some m.round
  unary_of op_abs = some fabs_double
  unary_of op_rad2deg = some (d.mul m.rad2deg)
  unary_of op_deg2rad = some (d.mul m.deg2rad)
  unary_of op_un = some (λ x. truth (d.is_nan x))
  unary_of op_isinf = some (λ x. truth (infinite (m.isinf x)))
    where
      infinite : ℤ → Bool
      infinite (pos zero) = Bool.false
      infinite _ = Bool.true
  unary_of _ = none

  -- and of two
  unfoldable pub binary_of : Op → Option (D → D → D)
  binary_of op_add = some d.add
  binary_of op_sub = some d.sub
  binary_of op_mul = some d.mul
  binary_of op_div = some d.div
  binary_of op_mod = some m.fmod
  binary_of op_pow = some m.pow
  binary_of op_atan2 = some m.atan2
  binary_of op_addnan = some (known_or d.add)
  binary_of op_lt = some (nan_or (λ x y. truth (d.lt x y)))
  binary_of op_le = some (nan_or (λ x y. truth (not (d.lt y x))))
  binary_of op_gt = some (nan_or (λ x y. truth (d.lt y x)))
  binary_of op_ge = some (nan_or (λ x y. truth (not (d.lt x y))))
  binary_of op_ne = some (nan_or (λ x y. truth (not (same x y))))
  binary_of op_eq = some (nan_or (λ x y. truth (same x y)))
  binary_of op_min = some (nan_or lesser)
  binary_of op_minnan = some (known_or lesser)
  binary_of op_max = some (nan_or greater)
  binary_of op_maxnan = some (known_or greater)
  binary_of _ = none

  unfoldable pub apply_op : Option (D → D) → Option (D → D → D) → List D → Run (List D)
  apply_op (some f) g s = unary f s
  apply_op none (some g) s = binary g s
  apply_op none none s = left_out

  unfoldable pub operate : Op → Rpnp D → Call D → List D → Run (List D)
  operate op_number r c s = push s r.val
  operate op_variable r c s = variable r >>= push s
  operate op_prev_other r c s = variable_before r c >>= push s
  operate op_stepwidth r c s = push s (d.of_nat c.step_width)
  operate op_count r c s = push s (d.of_nat (c.output_idx + 1))
  operate op_prev r c s = previous c d.nan >>= push s
  operate op_unkn r c s = push s d.nan
  operate op_inf r c s = push s d.inf
  operate op_neginf r c s = push s (d.neg d.inf)
  operate op_now r c s = push s m.time
  operate op_time r c s = push s (d.of_nat c.data_idx)
  operate op_depth r c s = push s (d.of_nat (length s))
  operate op_dup r c [] = failed stack_underflow
  operate op_dup r c (x ∷ s) = ran (x ∷ x ∷ s)
  operate op_pop r c [] = failed stack_underflow
  operate op_pop r c (x ∷ s) = ran s
  operate op_exc r c (y ∷ x ∷ s) = ran (x ∷ y ∷ s)
  operate op_exc r c _ = failed stack_underflow
  operate op_if r c s = ternary choose s
  operate op_limit r c s = ternary within_limits s
  operate op_sort r c s = with_count sort_elements s
  operate op_rev r c s = with_count reverse_elements s
  operate op_avg r c s = with_count average_elements s
  operate op_median r c s = with_count median_elements s
  operate op_stdev r c s = with_count stdev_elements s
  operate op_smax r c s = with_count (extreme_elements (λ v best. d.lt best v)) s
  operate op_smin r c s = with_count (extreme_elements d.lt) s
  operate op_percent r c s = percent s
  operate op_index r c s = index s
  operate op_end r c s = ran s
  operate op r c s = apply_op (unary_of op) (binary_of op) s

  unfoldable pub copy_number : ℤ → List D → ℕ → Run (List D × ℕ)
  copy_number (negsuc n) s dc_stacksize = wild
  copy_number (pos n) s dc_stacksize = need (pos n) s >>= λ s'. copy_elements n s' dc_stacksize

  -- `COPY` pops its number without a look at the stack.
  unfoldable pub rpn_step : Op → Rpnp D → Call D → List D → ℕ → Run (List D × ℕ)
  rpn_step op_copy r c [] dc_stacksize = wild
  rpn_step op_copy r c (x ∷ s) dc_stacksize = copy_number (m.to_int x) s dc_stacksize
  rpn_step op r c s dc_stacksize = operate op r c s >>= λ s'. ran (s', dc_stacksize)

  unfoldable pub rpn_loop : List (Rpnp D) → Call D → List D → ℕ → Run (List D)
  rpn_loop [] c s dc_stacksize = ran s
  rpn_loop (r ∷ rpnp) c s dc_stacksize =
      rpn_step r.op r c s (grow (length s) dc_stacksize) >>= λ (s', size). rpn_loop rpnp c s' size

  unfoldable pub final_value : List D → Run D
  final_value (x ∷ []) = ran x
  final_value _ = failed final_stack_size

  -- the value for `output[output_idx]`, on a stack of `dc_stacksize` places
  unfoldable pub rpn_calc : List (Rpnp D) → Call D → ℕ → Run D
  rpn_calc rpnp c dc_stacksize = rpn_loop rpnp c [] dc_stacksize >>= final_value
