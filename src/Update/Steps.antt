-- ===== src/Update/Steps.antt =====
-- How many primary data points (PDPs) and rows an update closes: `calculate_elapsed_steps` of
-- src/rrd_update.c, and the row counts that `update_all_cdp_prep` takes from its result.
pub mod Count
use rrdtool_1_x.Prelude.{ℕ, ◌+◌, ◌-◌, ◌/◌, ◌%◌, ◌^◌, min, ltb, leb, if◌then◌else◌, add_u64, sub_u64}
use rrdtool_1_x.Prelude.Double.{Double}
use rrdtool_1_x.Format.{Rrd}

-- The `int` that the function returns, as the caller's `unsigned long` takes it.
unfoldable pub int_as_ulong : ℕ → ℕ
int_as_ulong n = let low = n % 2 ^ 32 in if ltb low (2 ^ 31) then low else low + (2 ^ 64 - 2 ^ 32)

-- When the current PDP was started, and when the last one ended.
unfoldable pub pdp_st : ℕ → ℕ → ℕ
pdp_st time pdp_step = sub_u64 time (time % pdp_step)

pub record Elapsed (D : Type 0) : Type 0 where
  pub elapsed_pdp_st : ℕ
  pub pre_int : D
  pub post_int : D
  pub proc_pdp_cnt : ℕ

module _ {D : Type 0} ⦃d : Double D⦄ where
  open d use {of_nat, add, sub, div}

  -- 1e6f is exactly a million. In the first branch `occu_pdp_st` is past `last_up`.
  unfoldable pub calculate_elapsed_steps : Rrd D → ℕ → ℕ → D → Elapsed D
  unfolding int_as_ulong pdp_st
  calculate_elapsed_steps rrd current_time current_time_usec interval =
      let proc_pdp_st = pdp_st rrd.last_up rrd.pdp_step in
      let occu_pdp_age = current_time % rrd.pdp_step in
      let occu_pdp_st = pdp_st current_time rrd.pdp_step in
      let passed = ltb proc_pdp_st occu_pdp_st in
      record {
        elapsed_pdp_st = int_as_ulong (sub_u64 occu_pdp_st proc_pdp_st / rrd.pdp_step);
        pre_int =
            if passed
            then sub (of_nat (occu_pdp_st - rrd.last_up))
                (div (of_nat rrd.last_up_usec) (of_nat 1_000_000))
            else interval;
        post_int =
            if passed
            then add (of_nat occu_pdp_age) (div (of_nat current_time_usec) (of_nat 1_000_000))
            else of_nat 0;
        proc_pdp_cnt = proc_pdp_st / rrd.pdp_step;
      }

-- `start_pdp_offset`: how many PDPs the open row of an archive still wants.
unfoldable pub start_pdp_offset : ℕ → ℕ → ℕ
start_pdp_offset pdp_cnt proc_pdp_cnt = sub_u64 pdp_cnt (proc_pdp_cnt % pdp_cnt)

-- `rra_step_cnt[rra_idx]`: how many rows are to be written.
unfoldable pub rra_step_cnt : ℕ → ℕ → ℕ → ℕ → ℕ
rra_step_cnt elapsed_pdp_st start pdp_cnt row_cnt =
    if leb start elapsed_pdp_st
    then min (add_u64 (sub_u64 elapsed_pdp_st start / pdp_cnt) 1) row_cnt
    else 0
