-- ===== src/Update/Consolidate.antt =====
-- The consolidation of PDPs into the open row of an archive, for one data source: `update_cdp` of
-- src/rrd_update.c and the functions that it calls.
pub mod Period
pub mod Extremes
use rrdtool_1_x.Prelude.{ℕ, ◌%◌, ◌||◌, ◌==◌, if◌then◌else◌, add_u64, sub_u64}
use rrdtool_1_x.Prelude.Double.{Double}
use rrdtool_1_x.Format.{Cf, average, minimum, maximum, Cdp}

module _ {D : Type 0} ⦃d : Double D⦄ where
  open d use {nan, inf, of_nat, neg, add, mul, div, lt, is_nan}

  -- the macro IFDNAN
  abbrev pub if_dnan : D → D → D
  if_dnan x y = if is_nan x then y else x

  unfoldable pub initialize_cdp_val : Cdp D → Cf → D → ℕ → ℕ → Cdp D
  initialize_cdp_val scratch average pdp_temp_val start pdp_cnt =
      let cum_val = if_dnan scratch.val (of_nat 0) in
      let cur_val = if_dnan pdp_temp_val (of_nat 0) in
      record scratch {
        primary_val =
            div (add cum_val (mul cur_val (of_nat start)))
              (of_nat (sub_u64 pdp_cnt scratch.unkn_pdp_cnt));
      }
  initialize_cdp_val scratch maximum pdp_temp_val start pdp_cnt =
      let cum_val = if_dnan scratch.val (neg inf) in
      let cur_val = if_dnan pdp_temp_val (neg inf) in
      record scratch { primary_val = if lt cum_val cur_val then cur_val else cum_val }
  initialize_cdp_val scratch minimum pdp_temp_val start pdp_cnt =
      let cum_val = if_dnan scratch.val inf in
      let cur_val = if_dnan pdp_temp_val inf in
      record scratch { primary_val = if lt cur_val cum_val then cur_val else cum_val }
  initialize_cdp_val scratch _ pdp_temp_val start pdp_cnt = record scratch {
    primary_val = pdp_temp_val;
  }

  -- the value with which the next row starts when it holds no known PDP
  unfoldable pub carry_unknown : Cf → D
  carry_unknown maximum = neg inf
  carry_unknown minimum = inf
  carry_unknown average = of_nat 0
  carry_unknown _ = nan

  unfoldable pub carry_known : Cf → D → ℕ → D
  carry_known average pdp_temp_val pdp_into_cdp_cnt = mul pdp_temp_val (of_nat pdp_into_cdp_cnt)
  carry_known _ pdp_temp_val pdp_into_cdp_cnt = pdp_temp_val

  unfoldable pub initialize_carry_over : D → Cf → ℕ → ℕ → ℕ → D
  unfolding carry_unknown carry_known
  initialize_carry_over pdp_temp_val current_cf elapsed_pdp_st start pdp_cnt =
      let pdp_into_cdp_cnt = sub_u64 elapsed_pdp_st start % pdp_cnt in
      if (pdp_into_cdp_cnt == 0) || is_nan pdp_temp_val
      then carry_unknown current_cf
      else carry_known current_cf pdp_temp_val pdp_into_cdp_cnt

  -- a further PDP where the row already holds a value, and where it holds none
  unfoldable pub calculate_known : Cf → D → D → ℕ → D
  calculate_known average cdp_val pdp_temp_val elapsed_pdp_st =
      add cdp_val (mul pdp_temp_val (of_nat elapsed_pdp_st))
  calculate_known minimum cdp_val pdp_temp_val elapsed_pdp_st =
      if lt pdp_temp_val cdp_val then pdp_temp_val else cdp_val
  calculate_known maximum cdp_val pdp_temp_val elapsed_pdp_st =
      if lt cdp_val pdp_temp_val then pdp_temp_val else cdp_val
  calculate_known _ cdp_val pdp_temp_val elapsed_pdp_st = pdp_temp_val

  unfoldable pub calculate_first : Cf → D → ℕ → D
  calculate_first average pdp_temp_val elapsed_pdp_st = mul pdp_temp_val (of_nat elapsed_pdp_st)
  calculate_first _ pdp_temp_val elapsed_pdp_st = pdp_temp_val

  unfoldable pub calculate_cdp_val : D → D → ℕ → Cf → D
  unfolding calculate_known calculate_first
  calculate_cdp_val cdp_val pdp_temp_val elapsed_pdp_st current_cf =
      if is_nan cdp_val
      then calculate_first current_cf pdp_temp_val elapsed_pdp_st
      else calculate_known current_cf cdp_val pdp_temp_val elapsed_pdp_st

  -- `update_cdp` where at least one row is written (`rra_step_cnt` is not 0), statement by statement
  unfoldable pub close_row : Cdp D → Cf → D → ℕ → ℕ → ℕ → D → Cdp D
  close_row scratch current_cf pdp_temp_val elapsed_pdp_st start pdp_cnt xff =
      let unknown = is_nan pdp_temp_val in
      let filled : Cdp D =
        if unknown
        then record scratch {
          unkn_pdp_cnt = add_u64 scratch.unkn_pdp_cnt start;
          secondary_val = nan;
        }
        else record scratch { secondary_val = pdp_temp_val } in
      let valued : Cdp D =
        if lt (mul (of_nat pdp_cnt) xff) (of_nat filled.unkn_pdp_cnt)
        then record filled { primary_val = nan }
        else initialize_cdp_val filled current_cf pdp_temp_val start pdp_cnt in
      record valued {
        val = initialize_carry_over pdp_temp_val current_cf elapsed_pdp_st start pdp_cnt;
        unkn_pdp_cnt = if unknown then sub_u64 elapsed_pdp_st start % pdp_cnt else 0;
      }

  -- `update_cdp` where the row stays open
  unfoldable pub extend_row : Cdp D → Cf → D → ℕ → Cdp D
  extend_row scratch current_cf pdp_temp_val elapsed_pdp_st =
      if is_nan pdp_temp_val
      then record scratch { unkn_pdp_cnt = add_u64 scratch.unkn_pdp_cnt elapsed_pdp_st }
      else record scratch {
        val = calculate_cdp_val scratch.val pdp_temp_val elapsed_pdp_st current_cf;
      }

  unfoldable pub update_cdp : Cdp D → Cf → D → ℕ → ℕ → ℕ → ℕ → D → Cdp D
  update_cdp scratch current_cf pdp_temp_val rra_step_cnt elapsed_pdp_st start pdp_cnt xff =
      if rra_step_cnt == 0
      then extend_row scratch current_cf pdp_temp_val elapsed_pdp_st
      else close_row scratch current_cf pdp_temp_val elapsed_pdp_st start pdp_cnt xff
