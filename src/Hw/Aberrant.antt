-- ===== src/Hw/Aberrant.antt =====
-- `update_aberrant_CF` of src/rrd_hw.c, and the first contents of `cdp_prep` there.
use rrdtool_1_x.Prelude.{◌>>=◌, ℕ, Option, none, some, List}
use rrdtool_1_x.Prelude.Double.{Double}
use rrdtool_1_x.Format.{
  Cf, hwpredict, seasonal, devpredict, devseasonal, failures, mhwpredict, rrd_cf_conv, Cdp,
}
use rrdtool_1_x.Update.Write.{ScratchIdx, Pending}
use rrdtool_1_x.Hw.{
  put_scratch, get_cdp, put_cdp, get_rra, HwFunctions, hw_additive_functions,
  hw_multiplicative_functions,
}
use rrdtool_1_x.Hw.Predict.{update_devpredict, update_hwpredict, update_seasonal}
use rrdtool_1_x.Hw.Deviation.{update_devseasonal, update_failures}

module _ {D : Type 0} ⦃d : Double D⦄ where
  unfoldable pub init_hwpredict_cdp : Cdp D → Cdp D
  init_hwpredict_cdp cdp = record cdp {
    hw_intercept = d.nan;
    hw_last_intercept = d.nan;
    hw_slope = d.nan;
    hw_last_slope = d.nan;
    null_count = 1;
    last_null_count = 1;
  }

  unfoldable pub init_seasonal_cdp : Cdp D → Cdp D
  init_seasonal_cdp cdp = record cdp {
    hw_intercept = d.nan;
    hw_last_intercept = d.nan;
    null_count = 1;
  }

  -- the functions for an archive that depends on one with this consolidation function
  unfoldable pub functions_of : Option Cf → Option (HwFunctions D)
  functions_of (some hwpredict) = some hw_additive_functions
  functions_of (some mhwpredict) = some hw_multiplicative_functions
  functions_of _ = none

  -- `rrd_cf_conv(rrd->rra_def[hw_dep_idx(rrd, rra_idx)].cf_nam)`
  unfoldable pub dependent_functions : List (Pending D) → ℕ → Option (Option (HwFunctions D))
  dependent_functions ps rra_idx = do
    rra ← get_rra ps rra_idx
    dep ← get_rra ps rra.dependent_rra_idx
    some (functions_of (rrd_cf_conv dep.cf_nam))

  -- With no functions the value stays as it is; the caller ignores the -1.
  unfoldable pub with_functions :
      Option (HwFunctions D)
      → List (Pending D)
      → (HwFunctions D → Option (List (Pending D)))
      → Option (List (Pending D))
  with_functions none ps update = some ps
  with_functions (some functions) ps update = update functions

  unfoldable pub aberrant_switch :
      Cf → List (Pending D) → ℕ → ℕ → ScratchIdx → List D → Option (List (Pending D))
  aberrant_switch hwpredict ps rra_idx ds_idx k coef =
      update_hwpredict hw_additive_functions ps rra_idx ds_idx k
  aberrant_switch mhwpredict ps rra_idx ds_idx k coef =
      update_hwpredict hw_multiplicative_functions ps rra_idx ds_idx k
  aberrant_switch devpredict ps rra_idx ds_idx k coef = update_devpredict ps rra_idx ds_idx k
  aberrant_switch seasonal ps rra_idx ds_idx k coef = do
    fs ← dependent_functions ps rra_idx
    with_functions fs ps λ f. update_seasonal f ps rra_idx ds_idx k coef
  aberrant_switch devseasonal ps rra_idx ds_idx k coef = do
    fs ← dependent_functions ps rra_idx
    with_functions fs ps λ f. update_devseasonal f ps rra_idx ds_idx k coef
  aberrant_switch failures ps rra_idx ds_idx k coef = do
    rra ← get_rra ps rra_idx
    fs ← dependent_functions ps rra.dependent_rra_idx
    with_functions fs ps λ f. update_failures f ps rra_idx ds_idx k
  aberrant_switch _ ps rra_idx ds_idx k coef = some ps

  unfoldable pub update_aberrant_cf :
      List (Pending D) → D → Cf → ℕ → ℕ → ScratchIdx → List D → Option (List (Pending D))
  update_aberrant_cf ps pdp_val cf rra_idx ds_idx k seasonal_coef = do
    c ← get_cdp ps rra_idx ds_idx
    aberrant_switch cf (put_cdp ps rra_idx ds_idx (put_scratch k pdp_val c)) rra_idx ds_idx k
        seasonal_coef
