-- ===== src/Hw/Predict.antt =====
-- `update_hwpredict`, `update_seasonal` and `update_devpredict` of src/rrd_hw_update.c.
use rrdtool_1_x.Prelude.{
  ◌>>=◌, ℕ, Bool, ◌||◌, Option, some, List, ltb, if◌then◌else◌, add_u64, get_elem?,
}
use rrdtool_1_x.Prelude.Double.{Double}
use rrdtool_1_x.Format.{Cdp, Rra}
use rrdtool_1_x.Update.Write.{ScratchIdx, scratch_val, Pending}
use rrdtool_1_x.Hw.{put_scratch, get_cdp, put_cdp, get_rra, HwFunctions}

module _ {D : Type 0} where
  -- A seasonal value of the current step: an archive that has been updated already has moved it to
  -- its last value.
  abbrev pub current_seasonal : Bool → Cdp D → D
  current_seasonal updated c = if updated then c.hw_last_intercept else c.hw_intercept

  -- the coefficients of the current prediction, saved
  abbrev pub save_coefs : Cdp D → Cdp D
  save_coefs c = record c {
    hw_last_intercept = c.hw_intercept;
    hw_last_slope = c.hw_slope;
    last_null_count = c.null_count;
  }

  -- the seasonal value moves on to the next one
  abbrev pub shift_seasonal : Cdp D → D → Cdp D
  shift_seasonal c next = record c { hw_last_intercept = c.hw_intercept; hw_intercept = next }

  unfoldable pub update_devpredict :
      List (Pending D) → ℕ → ℕ → ScratchIdx → Option (List (Pending D))
  update_devpredict ps rra_idx ds_idx k = do
    rra ← get_rra ps rra_idx
    s ← get_cdp ps rra.dependent_rra_idx ds_idx
    c ← get_cdp ps rra_idx ds_idx
    some (
        put_cdp ps rra_idx ds_idx
          (put_scratch k (current_seasonal (ltb rra.dependent_rra_idx rra_idx) s) c))

module _ {D : Type 0} ⦃d : Double D⦄ where
  open d use {nan, of_nat, is_nan}

  unfoldable pub init_slope_intercept : ScratchIdx → Cdp D → Cdp D
  init_slope_intercept k c = record c {
    hw_intercept = scratch_val k c;
    hw_last_intercept = scratch_val k c;
    hw_slope = of_nat 0;
    hw_last_slope = of_nat 0;
    null_count = 1;
    last_null_count = 1;
  }

  -- bootstrap initialization of slope and intercept
  unfoldable pub bootstrap : ScratchIdx → Cdp D → Cdp D
  bootstrap k c =
      if is_nan c.hw_intercept
      then (if is_nan (scratch_val k c) then c else init_slope_intercept k c)
      else c

  -- the intercept, and then the slope, from the new value
  unfoldable pub learn : HwFunctions D → Rra D → D → ScratchIdx → Cdp D → Cdp D
  learn functions rra seasonal_coef k c =
      if is_nan (scratch_val k c)
      then record c { null_count = add_u64 c.null_count 1 }
      else (let c' = record c {
        hw_intercept = functions.intercept rra.hw_alpha (scratch_val k c) seasonal_coef c;
      } in
          record c' { hw_slope = functions.slope rra.hw_beta c'; null_count = 1 })

  unfoldable pub predict_cdp : HwFunctions D → Rra D → D → ScratchIdx → Cdp D → Cdp D
  predict_cdp functions rra seasonal_coef k c =
      if is_nan c.hw_intercept || is_nan c.hw_slope || is_nan seasonal_coef
      then put_scratch k nan (bootstrap k c)
      else put_scratch k (functions.predict c.hw_intercept c.hw_slope c.null_count seasonal_coef)
          (learn functions rra seasonal_coef k c)

  unfoldable pub update_hwpredict :
      HwFunctions D → List (Pending D) → ℕ → ℕ → ScratchIdx → Option (List (Pending D))
  update_hwpredict functions ps rra_idx ds_idx k = do
    rra ← get_rra ps rra_idx
    c ← get_cdp ps rra_idx ds_idx
    s ← get_cdp (put_cdp ps rra_idx ds_idx (save_coefs c)) rra.dependent_rra_idx ds_idx
    some (
        put_cdp (put_cdp ps rra_idx ds_idx (save_coefs c)) rra_idx ds_idx (
          predict_cdp functions rra (current_seasonal (ltb rra.dependent_rra_idx rra_idx) s) k
            (save_coefs c)))

  -- The seasonal coefficient for the disk, from the observed value: where the HWPREDICT archive has
  -- been updated already,
  unfoldable pub seasonal_after : HwFunctions D → Rra D → Cdp D → D → D → D
  seasonal_after functions rra coefs seasonal observed =
      if is_nan coefs.hw_last_intercept || is_nan coefs.hw_last_slope
      then nan
      else if is_nan seasonal
      then functions.init_seasonality observed coefs.hw_last_intercept
      else functions.seasonality rra.hw_alpha observed coefs.hw_intercept seasonal

  -- and where it has not.
  unfoldable pub seasonal_before : HwFunctions D → Rra D → Rra D → Cdp D → D → D → D
  seasonal_before functions rra hw_rra coefs seasonal observed =
      if is_nan coefs.hw_intercept || is_nan coefs.hw_slope
      then functions.identity
      else if is_nan seasonal
      then functions.init_seasonality observed coefs.hw_intercept
      else functions.seasonality rra.hw_alpha observed
          (functions.intercept hw_rra.hw_alpha observed seasonal coefs) seasonal

  unfoldable pub seasonal_value : HwFunctions D → ℕ → Rra D → Rra D → Cdp D → D → D → D
  seasonal_value functions rra_idx rra hw_rra coefs seasonal observed =
      if is_nan observed
      then seasonal
      else if ltb rra.dependent_rra_idx rra_idx
      then seasonal_after functions rra coefs seasonal observed
      else seasonal_before functions rra hw_rra coefs seasonal observed

  unfoldable pub update_seasonal :
      HwFunctions D → List (Pending D) → ℕ → ℕ → ScratchIdx → List D → Option (List (Pending D))
  update_seasonal functions ps rra_idx ds_idx k seasonal_coef = do
    rra ← get_rra ps rra_idx
    hw_rra ← get_rra ps rra.dependent_rra_idx
    c ← get_cdp ps rra_idx ds_idx
    next ← get_elem? seasonal_coef ds_idx
    coefs ← get_cdp (put_cdp ps rra_idx ds_idx (shift_seasonal c next)) rra.dependent_rra_idx ds_idx
    some (
        put_cdp (put_cdp ps rra_idx ds_idx (shift_seasonal c next)) rra_idx ds_idx (
          put_scratch k
            (seasonal_value functions rra_idx rra hw_rra coefs c.hw_intercept (scratch_val k c))
            (shift_seasonal c next)))
