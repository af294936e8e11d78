-- ===== src/Update/Aberrant.antt =====
-- `update_aberrant_cdps` of src/rrd_update.c: the Holt-Winters predictions of all archives of one PDP.
pub mod Shape
use rrdtool_1_x.Prelude.{◌>>=◌, ℕ, suc, ◌+◌, ◌*◌, Option, some, List, [], ◌∷◌, ◌==◌, if◌then◌else◌}
use rrdtool_1_x.Prelude.Double.{Double}
use rrdtool_1_x.Format.{Cf, rrd_cf_conv}
use rrdtool_1_x.Update.Write.{ScratchIdx, primary, secondary, Pending}
use rrdtool_1_x.Update.Prepare.{is_seasonal, lookup_seasonal, Progress}
use rrdtool_1_x.Hw.Aberrant.{update_aberrant_cf}

module _ {D : Type 0} where
  -- the next seasonal coefficients, for a seasonal archive
  unfoldable pub next_seasonal : Pending D → Cf → ℕ → ℕ → ℕ → Progress D → Option (Progress D)
  next_seasonal q cf ds_cnt rra_start offset p =
      if is_seasonal cf
      then (do
        (coef, f) ← lookup_seasonal q.rra ds_cnt rra_start p.file offset
        some (record p { file = f; seasonal_coef = coef }))
      else some p

module _ {D : Type 0} ⦃d : Double D⦄ where
  -- the loop over the data sources within each RRA
  unfoldable pub aberrant_sources :
      List (Pending D) → List D → Cf → ℕ → ℕ → ScratchIdx → List D → Option (List (Pending D))
  aberrant_sources ps [] cf rra_idx ds_idx scratch_idx coef = some ps
  aberrant_sources ps (v ∷ pdp_temp) cf rra_idx ds_idx scratch_idx coef = do
    ps' ← update_aberrant_cf ps v cf rra_idx ds_idx scratch_idx coef
    aberrant_sources ps' pdp_temp cf rra_idx (suc ds_idx) scratch_idx coef

  -- The loop over the archives, of which `qs` are those that remain, as they were before. The
  -- definitions and row pointers in them do not change.
  unfoldable pub aberrant_rras :
      List (Pending D)
      → List (Pending D)
      → List D
      → ℕ
      → ℕ
      → ℕ
      → ScratchIdx
      → ℕ
      → Progress D
      → Option (List (Pending D) × Progress D)
  aberrant_rras [] ps pdp_temp ds_cnt rra_idx rra_start scratch_idx offset p = some (ps, p)
  aberrant_rras (q ∷ qs) ps pdp_temp ds_cnt rra_idx rra_start scratch_idx offset p =
      if q.rra.pdp_cnt == 1
      then (do
        cf ← rrd_cf_conv q.rra.cf_nam
        p' ← next_seasonal q cf ds_cnt rra_start offset p
        ps' ← aberrant_sources ps pdp_temp cf rra_idx 0 scratch_idx p'.seasonal_coef
        aberrant_rras qs ps' pdp_temp ds_cnt (suc rra_idx) (rra_start + q.rra.row_cnt * ds_cnt)
            scratch_idx offset p')
      else aberrant_rras qs ps pdp_temp ds_cnt (suc rra_idx) (rra_start + q.rra.row_cnt * ds_cnt)
          scratch_idx offset p

  -- Only the first two steps are predicted, and none where more have elapsed.
  unfoldable pub update_aberrant_cdps :
      List (Pending D) → ℕ → ℕ → List D → Progress D → Option (List (Pending D) × Progress D)
  update_aberrant_cdps ps ds_cnt elapsed_pdp_st pdp_temp p =
      if elapsed_pdp_st == 1
      then aberrant_rras ps ps pdp_temp ds_cnt 0 0 primary (elapsed_pdp_st + 1) p
      else if elapsed_pdp_st == 2
      then (do
        (ps', p') ← aberrant_rras ps ps pdp_temp ds_cnt 0 0 primary (elapsed_pdp_st + 1) p
        aberrant_rras ps' ps' pdp_temp ds_cnt 0 0 secondary (elapsed_pdp_st + 2) p')
      else some (ps, p)
