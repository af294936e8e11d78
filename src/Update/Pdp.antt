-- ===== src/Update/Pdp.antt =====
-- Primary data points: `simple_update`, `process_pdp_st` and `process_all_pdp_st` of
-- src/rrd_update.c, which gather what the data sources report between two step boundaries.
pub mod Rate
use rrdtool_1_x.Prelude.{
  ◌>>=◌, ℕ, ◌+◌, ◌-◌, ◌%◌, ◌^◌, Bool, true, false, ◌||◌, Option, some, List, [], ◌∷◌, ◌++◌, ltb,
  if◌then◌else◌, sub_u64, mul_u64,
}
use rrdtool_1_x.Prelude.Int.{ℤ, pos, negsuc}
use rrdtool_1_x.Prelude.Double.{Double}
use rrdtool_1_x.Format.{Dst, computed, dst_conv, DataSource}

-- `(signed) n` of an `unsigned long`
unfoldable pub as_int : ℕ → ℤ
as_int n = let low = n % 2 ^ 32 in if ltb low (2 ^ 31) then pos low else negsuc (2 ^ 32 - low - 1)

abbrev pub is_computed : Option Dst → Bool
is_computed (some computed) = true
is_computed _ = false

module _ {D : Type 0} ⦃d : Double D⦄ where
  open d use {nan, of_nat, of_int, to_nat, floor, add, sub, mul, div, lt, is_nan}

  -- `simple_update` for one data source
  unfoldable pub gather : D → DataSource D → D → DataSource D
  gather interval s pdp_new =
      if is_nan pdp_new
      then record s { unkn_sec_cnt = to_nat (add (of_nat s.unkn_sec_cnt) (floor interval)) }
      else if is_nan s.pdp_val
      then record s { pdp_val = pdp_new }
      else record s { pdp_val = add s.pdp_val pdp_new }

  unfoldable pub simple_update : D → List (DataSource D) → List D → List (DataSource D)
  simple_update interval (s ∷ sources) (v ∷ pdp_new) =
      gather interval s v ∷ simple_update interval sources pdp_new
  simple_update interval sources _ = sources

  -- the part of a reading before the boundary joins the open PDP
  unfoldable pub close_val : DataSource D → D → D → D → D
  close_val s pdp_new interval pre_int =
      if is_nan pdp_new
      then s.pdp_val
      else add (if is_nan s.pdp_val then of_nat 0 else s.pdp_val)
          (mul (div pdp_new interval) pre_int)

  -- `pdp_temp[ds_idx]`: the rate over the steps that end now, or unknown
  unfoldable pub pdp_rate : DataSource D → D → D → D → ℕ → ℕ → D
  unfolding close_val
  pdp_rate s pdp_new interval pre_int diff_pdp_st pdp_step =
      let pre_unknown = if is_nan pdp_new then pre_int else of_nat 0 in
      if lt (of_nat s.mrhb_cnt) interval
        || lt (div (of_nat pdp_step) (of_nat 2)) (of_int (as_int s.unkn_sec_cnt))
      then nan
      else div (close_val s pdp_new interval pre_int)
          (sub (of_nat (sub_u64 diff_pdp_st s.unkn_sec_cnt)) pre_unknown)

  -- the part of a reading after the boundary opens the next PDP
  unfoldable pub reopen : DataSource D → D → D → D → DataSource D
  reopen s pdp_new interval post_int =
      if is_nan pdp_new
      then record s { unkn_sec_cnt = to_nat (floor post_int); pdp_val = nan }
      else record s { unkn_sec_cnt = 0; pdp_val = mul (div pdp_new interval) post_int }

  -- How a COMPUTE data source is worked out from the rates of the data sources before it:
  -- `rpn_expand`, the substitution of the rates and `rpn_calc`. `none` is their failure.
  module _ (compute : DataSource D → List D → ℕ → Option D) where
    -- `process_pdp_st`, given the rates of the data sources before this one
    unfoldable pub process_pdp_st :
        DataSource D → List D → D → D → D → D → ℕ → ℕ → Option (DataSource D × D)
    process_pdp_st s earlier pdp_new interval pre_int post_int diff_pdp_st pdp_step =
        let rate = pdp_rate s pdp_new interval pre_int diff_pdp_st pdp_step in
        let after = reopen s pdp_new interval post_int in
        do
          v ← if is_computed (dst_conv s.dst) then compute s earlier pdp_step else some rate
          some (after, v)

    -- `process_all_pdp_st`, with the rates found so far
    unfoldable pub process_all_from :
        List D
        → List (DataSource D)
        → List D
        → D
        → D
        → D
        → ℕ
        → ℕ
        → Option (List (DataSource D) × List D)
    process_all_from rates (s ∷ sources) (v ∷ pdp_new) interval pre_int post_int diff pdp_step = do
      (s', rate) ← process_pdp_st s rates v interval pre_int post_int diff pdp_step
      (sources', rates') ←
          process_all_from (rates ++ rate ∷ []) sources pdp_new interval pre_int post_int diff
            pdp_step
      some (s' ∷ sources', rates')
    process_all_from rates sources _ interval pre_int post_int diff pdp_step = some (sources, rates)

    unfoldable pub process_all_pdp_st :
        ℕ → List (DataSource D) → D → D → D → ℕ → List D → Option (List (DataSource D) × List D)
    process_all_pdp_st pdp_step sources interval pre_int post_int elapsed_pdp_st pdp_new =
        process_all_from [] sources pdp_new interval pre_int post_int
          (mul_u64 elapsed_pdp_st pdp_step) pdp_step
