-- ===== src/Hw.antt =====
-- Holt-Winters prediction: src/rrd_hw_math.c, src/rrd_hw_update.c, and of src/rrd_hw.c
-- `update_aberrant_CF`, `apply_smoother` (Smooth, Queue) and `reset_aberrant_coefficients` (Reset).
-- An entry of `cdp_prep` is found by its archive and its data source; `none` is the use of an index
-- outside.
pub mod Predict
pub mod Deviation
pub mod Aberrant
pub mod Layout
pub mod Window
pub mod Failure
pub mod Queue
pub mod Smooth
pub mod Reset
use rrdtool_1_x.Prelude.{
  ◌>>=◌, ℕ, zero, suc, ◌+◌, ◌<◌, Bool, true, false, ◌&&◌, ◌||◌, not, Option, none, some, List, [],
  ◌∷◌, ltb, if◌then◌else◌, add_u64, get_elem?, set,
}
use rrdtool_1_x.Prelude.Double.{Double}
use rrdtool_1_x.Format.{
  Cf, average, minimum, maximum, last, hwpredict, seasonal, devpredict, devseasonal, failures,
  mhwpredict, rrd_cf_conv, Cdp, Rra,
}
use rrdtool_1_x.Update.Write.{ScratchIdx, primary, secondary, scratch_val, Pending}
use rrdtool_1_x.Update.Pdp.{as_int}

module _ {D : Type 0} where
  abbrev pub put_scratch : ScratchIdx → D → Cdp D → Cdp D
  put_scratch primary v c = record c { primary_val = v }
  put_scratch secondary v c = record c { secondary_val = v }

  -- `rrd->cdp_prep[rra_idx * ds_cnt + ds_idx]`
  unfoldable pub get_cdp : List (Pending D) → ℕ → ℕ → Option (Cdp D)
  get_cdp ps rra_idx ds_idx = do p ← get_elem? ps rra_idx; get_elem? p.rra.cdps ds_idx

  unfoldable pub put_cdp : List (Pending D) → ℕ → ℕ → Cdp D → List (Pending D)
  put_cdp [] rra_idx ds_idx c = []
  put_cdp (p ∷ ps) zero ds_idx c =
      record p { rra = record p.rra { cdps = set p.rra.cdps ds_idx c } } ∷ ps
  put_cdp (p ∷ ps) (suc rra_idx) ds_idx c = p ∷ put_cdp ps rra_idx ds_idx c

  abbrev pub get_rra : List (Pending D) → ℕ → Option (Rra D)
  get_rra ps rra_idx = do p ← get_elem? ps rra_idx; some p.rra

-- `hw_functions_t`
pub record HwFunctions (D : Type 0) : Type 0 where
  pub predict : D → D → ℕ → D → D
  pub intercept : D → D → D → Cdp D → D
  pub slope : D → Cdp D → D
  pub seasonality : D → D → D → D → D
  pub init_seasonality : D → D → D
  pub seasonal_deviation : D → D → D → D → D
  pub init_seasonal_deviation : D → D → D
  pub identity : D

module _ {D : Type 0} ⦃d : Double D⦄ where
  open d use {nan, of_nat, of_int, neg, add, sub, mul, div, lt, is_nan}

  abbrev pub fabs : D → D
  fabs x = if lt x (of_nat 0) then neg x else x

  -- `x <= 0`
  abbrev pub not_positive : D → Bool
  not_positive x = not (lt (of_nat 0) x) && not (is_nan x)

  unfoldable pub hw_additive_calculate_prediction : D → D → ℕ → D → D
  hw_additive_calculate_prediction intercept slope null_count seasonal_coef =
      add (add intercept (mul slope (of_int (as_int null_count)))) seasonal_coef

  -- `a * x + (1 - a) * y`
  unfoldable pub blend : D → D → D → D
  blend a x y = add (mul a x) (mul (sub (of_nat 1) a) y)

  -- the baseline that is expected now
  abbrev pub baseline : Cdp D → D
  baseline coefs = add coefs.hw_intercept (mul coefs.hw_slope (of_nat coefs.null_count))

  unfoldable pub hw_additive_calculate_intercept : D → D → D → Cdp D → D
  hw_additive_calculate_intercept alpha observed seasonal_coef coefs =
      blend alpha (sub observed seasonal_coef) (baseline coefs)

  unfoldable pub hw_additive_calculate_seasonality : D → D → D → D → D
  hw_additive_calculate_seasonality gamma observed intercept seasonal_coef =
      blend gamma (sub observed intercept) seasonal_coef

  unfoldable pub hw_multiplicative_calculate_prediction : D → D → ℕ → D → D
  hw_multiplicative_calculate_prediction intercept slope null_count seasonal_coef =
      mul (add intercept (mul slope (of_int (as_int null_count)))) seasonal_coef

  unfoldable pub hw_multiplicative_calculate_intercept : D → D → D → Cdp D → D
  hw_multiplicative_calculate_intercept alpha observed seasonal_coef coefs =
      if not_positive seasonal_coef
      then nan
      else blend alpha (div observed seasonal_coef) (baseline coefs)

  unfoldable pub hw_multiplicative_calculate_seasonality : D → D → D → D → D
  hw_multiplicative_calculate_seasonality gamma observed intercept seasonal_coef =
      if not_positive intercept then nan else blend gamma (div observed intercept) seasonal_coef

  unfoldable pub hw_multiplicative_init_seasonality : D → D → D
  hw_multiplicative_init_seasonality seasonal_coef intercept =
      if not_positive intercept then nan else div seasonal_coef intercept

  unfoldable pub hw_calculate_slope : D → Cdp D → D
  hw_calculate_slope beta coefs =
      blend beta (sub coefs.hw_intercept coefs.hw_last_intercept) coefs.hw_slope

  unfoldable pub hw_calculate_seasonal_deviation : D → D → D → D → D
  hw_calculate_seasonal_deviation gamma prediction observed before =
      blend gamma (fabs (sub prediction observed)) before

  unfoldable pub hw_additive_functions : HwFunctions D
  hw_additive_functions = record {
    predict = hw_additive_calculate_prediction;
    intercept = hw_additive_calculate_intercept;
    slope = hw_calculate_slope;
    seasonality = hw_additive_calculate_seasonality;
    init_seasonality = sub;
    seasonal_deviation = hw_calculate_seasonal_deviation;
    init_seasonal_deviation = λ prediction observed. fabs (sub prediction observed);
    identity = of_nat 0;
  }

  unfoldable pub hw_multiplicative_functions : HwFunctions D
  hw_multiplicative_functions = record {
    predict = hw_multiplicative_calculate_prediction;
    intercept = hw_multiplicative_calculate_intercept;
    slope = hw_calculate_slope;
    seasonality = hw_multiplicative_calculate_seasonality;
    init_seasonality = hw_multiplicative_init_seasonality;
    seasonal_deviation = hw_calculate_seasonal_deviation;
    init_seasonal_deviation = λ prediction observed. fabs (sub prediction observed);
    identity = of_nat 1;
  }
