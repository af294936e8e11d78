-- ===== src/Hw/Reset.antt =====
-- `reset_aberrant_coefficients` of src/rrd_hw.c.
pub mod Rows
pub mod Sources
use rrdtool_1_x.Prelude.{
  ◌>>=◌, ℕ, zero, suc, ◌+◌, ◌*◌, ◌-◌, Option, none, some, List, [], ◌∷◌, get_elem?, set,
}
use rrdtool_1_x.Prelude.Double.{Double}
use rrdtool_1_x.Format.{
  Cf, hwpredict, mhwpredict, seasonal, devseasonal, failures, rrd_cf_conv, Cdp, Rra,
}
use rrdtool_1_x.Store.{File, rrd_seek, rrd_write}
use rrdtool_1_x.Update.Prepare.{erase_violations}
use rrdtool_1_x.Hw.Aberrant.{init_hwpredict_cdp}

module _ {D : Type 0} ⦃d : Double D⦄ where
  -- NaN for one data source, in each of the rows from the position of the file on
  unfoldable pub reset_rows : ℕ → ℕ → File D → Option (File D)
  reset_rows ds_cnt zero f = some f
  reset_rows ds_cnt (suc n) f = do
    f' ← rrd_write f d.nan
    reset_rows ds_cnt n (rrd_seek f' (f'.pos + (ds_cnt - 1)))

  -- one archive that starts at `rra_start`, by its consolidation function
  unfoldable pub reset_rra :
      Option Cf → ℕ → ℕ → ℕ → Rra D → Cdp D → File D → Option (Cdp D × File D)
  reset_rra (some hwpredict) ds_cnt ds_idx rra_start rra cdp f = some (init_hwpredict_cdp cdp, f)
  reset_rra (some mhwpredict) ds_cnt ds_idx rra_start rra cdp f = some (init_hwpredict_cdp cdp, f)
  reset_rra (some seasonal) ds_cnt ds_idx rra_start rra cdp f = do
    f' ← reset_rows ds_cnt rra.row_cnt (rrd_seek f (rra_start + ds_idx))
    some (record cdp { hw_intercept = d.nan; hw_last_intercept = d.nan }, f')
  reset_rra (some devseasonal) ds_cnt ds_idx rra_start rra cdp f = do
    f' ← reset_rows ds_cnt rra.row_cnt (rrd_seek f (rra_start + ds_idx))
    some (record cdp { hw_intercept = d.nan; hw_last_intercept = d.nan }, f')
  reset_rra (some failures) ds_cnt ds_idx rra_start rra cdp f =
      some (record cdp { violations = erase_violations rra.window_len cdp.violations }, f)
  reset_rra _ ds_cnt ds_idx rra_start rra cdp f = some (cdp, f)

  -- The archives from `rra_start` on. The entries are those of the mapped file, so that there is
  -- nothing to write for them at the end.
  unfoldable pub reset_rras : ℕ → ℕ → ℕ → List (Rra D) → File D → Option (List (Rra D) × File D)
  reset_rras ds_cnt ds_idx rra_start [] f = some ([], f)
  reset_rras ds_cnt ds_idx rra_start (rra ∷ rras) f = do
    cdp ← get_elem? rra.cdps ds_idx
    (cdp', f') ← reset_rra (rrd_cf_conv rra.cf_nam) ds_cnt ds_idx rra_start rra cdp f
    (rras', f'') ← reset_rras ds_cnt ds_idx (rra_start + rra.row_cnt * ds_cnt) rras f'
    some (record rra { cdps = set rra.cdps ds_idx cdp' } ∷ rras', f'')

  unfoldable pub reset_aberrant_coefficients :
      ℕ → List (Rra D) → ℕ → File D → Option (List (Rra D) × File D)
  reset_aberrant_coefficients ds_cnt rras ds_idx f = reset_rras ds_cnt ds_idx 0 rras f
