-- ===== src/Update/Prepare.antt =====
-- Making the rows ready: `update_all_cdp_prep`, `update_cdp_prep`, `reset_cdp` and
-- `do_schedule_smooth` of src/rrd_update.c, with `lookup_seasonal` and `erase_violations` of
-- src/rrd_hw.c.
pub mod Ready
pub mod Reads
pub mod Schedule
use rrdtool_1_x.Prelude.{
  ◌>>=◌, ℕ, zero, suc, ◌+◌, ◌*◌, ◌%◌, Bool, true, false, ◌&&◌, ◌||◌, Option, none, some, List, [],
  ◌∷◌, ltb, leb, if◌then◌else◌, add_u64, sub_u64, get_elem?,
}
use rrdtool_1_x.Prelude.Double.{Double}
use rrdtool_1_x.Format.{
  Cf, average, minimum, maximum, last, hwpredict, seasonal, devpredict, devseasonal, failures,
  mhwpredict, rrd_cf_conv, Cdp, Rra,
}
use rrdtool_1_x.Store.{File, rrd_seek, rrd_read}
use rrdtool_1_x.Update.Steps.{start_pdp_offset, rra_step_cnt}
use rrdtool_1_x.Update.Consolidate.{update_cdp}
use rrdtool_1_x.Update.Write.{Pending}

-- `erase_violations` of a FAILURES archive: the first `window_len` entries become 0
unfoldable pub erase_violations : ℕ → List ℕ → List ℕ
erase_violations zero vs = vs
erase_violations (suc n) [] = []
erase_violations (suc n) (v ∷ vs) = 0 ∷ erase_violations n vs

-- BURNIN_CYCLES
abbrev pub burnin_cycles : ℕ
burnin_cycles = 3

-- the position in the seasonal cycle after the update
abbrev pub reached : {D : Type 0} → Rra D → ℕ → ℕ
reached rra elapsed_pdp_st = add_u64 rra.cur_row elapsed_pdp_st

-- The test of `do_schedule_smooth` after the burn-in.
unfoldable pub smooth_due : {D : Type 0} → Rra D → ℕ → Bool
smooth_due rra elapsed_pdp_st =
    if ltb rra.cur_row rra.seasonal_smooth_idx
    then leb rra.seasonal_smooth_idx (reached rra elapsed_pdp_st)
    else leb rra.row_cnt (reached rra elapsed_pdp_st)
      && leb (add_u64 rra.row_cnt rra.seasonal_smooth_idx) (reached rra elapsed_pdp_st)

-- `do_schedule_smooth`, over the archive's entries of `cdp_prep`: the burn-in is counted in the
-- first one.
unfoldable pub schedule_smooth : {D : Type 0} → Rra D → List (Cdp D) → ℕ → Bool × Rra D
schedule_smooth rra [] elapsed_pdp_st = (false, rra)
schedule_smooth rra (c ∷ cdps) elapsed_pdp_st =
    if ltb burnin_cycles c.null_count
    then (smooth_due rra elapsed_pdp_st, rra)
    else if leb rra.row_cnt (reached rra elapsed_pdp_st)
    then (
      ltb 0 (add_u64 c.null_count 1),
      record rra { cdps = record c { null_count = add_u64 c.null_count 1 } ∷ cdps },
    )
    else (false, rra)

unfoldable pub do_schedule_smooth : {D : Type 0} → Rra D → ℕ → Bool × Rra D
do_schedule_smooth rra elapsed_pdp_st = schedule_smooth rra rra.cdps elapsed_pdp_st

abbrev pub is_seasonal : Cf → Bool
is_seasonal seasonal = true
is_seasonal devseasonal = true
is_seasonal _ = false

-- the call of `do_schedule_smooth`, for a seasonal archive only; it changes no more than `cdps`
abbrev pub smooth_step : {D : Type 0} → Bool → Rra D → ℕ → Bool × Rra D
smooth_step true rra elapsed = do_schedule_smooth rra elapsed
smooth_step false rra elapsed = (false, rra)

module _ {D : Type 0} where
  unfoldable pub read_values : ℕ → File D → Option (List D × File D)
  read_values zero f = some ([], f)
  read_values (suc n) f = do (v, f') ← rrd_read f; (vs, f'') ← read_values n f'; some (v ∷ vs, f'')

  -- the row `offset` after `cur_row`, round the ring
  unfoldable pub lookup_seasonal : Rra D → ℕ → ℕ → File D → ℕ → Option (List D × File D)
  lookup_seasonal rra ds_cnt rra_start f offset =
      let ahead = add_u64 rra.cur_row offset in
      let row_idx = if leb rra.row_cnt ahead then ahead % rra.row_cnt else ahead in
      read_values ds_cnt (rrd_seek f (rra_start + row_idx * ds_cnt))

-- what the loop over the archives carries on: the file, the two vectors of seasonal coefficients
-- (empty before they are allocated) and whether to smooth
pub record Progress (D : Type 0) : Type 0 where
  pub file : File D
  pub last_seasonal_coef : List D
  pub seasonal_coef : List D
  pub smooth : Bool

module _ {D : Type 0} ⦃d : Double D⦄ where
  open d use {nan, of_nat}

  abbrev pub both_values : Cdp D → D → Cdp D
  both_values c v = record c { primary_val = v; secondary_val = v }

  -- `none` where a seasonal archive reads a coefficient that no lookup has provided.
  unfoldable pub reset_cdp : Cdp D → Cf → ℕ → ℕ → D → Option D → Option D → Option (Cdp D)
  reset_cdp c seasonal window elapsed temp (some before) (some now) =
      some (record c { hw_last_intercept = before; hw_intercept = now })
  reset_cdp c devseasonal window elapsed temp (some before) (some now) =
      some (record c { hw_last_intercept = before; hw_intercept = now })
  reset_cdp c seasonal window elapsed temp _ _ = none
  reset_cdp c devseasonal window elapsed temp _ _ = none
  reset_cdp c hwpredict window elapsed temp before now = some (
      both_values
        (record c {
          null_count = add_u64 c.null_count elapsed;
          last_null_count = add_u64 c.last_null_count (sub_u64 elapsed 1);
        })
        nan)
  reset_cdp c mhwpredict window elapsed temp before now = some (
      both_values
        (record c {
          null_count = add_u64 c.null_count elapsed;
          last_null_count = add_u64 c.last_null_count (sub_u64 elapsed 1);
        })
        nan)
  reset_cdp c devpredict window elapsed temp before now = some (both_values c nan)
  reset_cdp c failures window elapsed temp before now =
      some (both_values (record c { violations = erase_violations window c.violations }) (of_nat 0))
  reset_cdp c average window elapsed temp before now = some (both_values c temp)
  reset_cdp c minimum window elapsed temp before now = some (both_values c temp)
  reset_cdp c maximum window elapsed temp before now = some (both_values c temp)
  reset_cdp c last window elapsed temp before now = some (both_values c temp)

  -- the body of the loop of `update_cdp_prep`, for data source `ds_idx`
  unfoldable pub prepare_cdp : Rra D → Cf → ℕ → ℕ → ℕ → Progress D → ℕ → Cdp D → D → Option (Cdp D)
  prepare_cdp rra cf elapsed start step_cnt p ds_idx c temp =
      if ltb 1 rra.pdp_cnt
      then some (update_cdp c cf temp step_cnt elapsed start rra.pdp_cnt rra.xff)
      else if ltb 2 elapsed
      then reset_cdp c cf rra.window_len elapsed temp (get_elem? p.last_seasonal_coef ds_idx)
          (get_elem? p.seasonal_coef ds_idx)
      else some c

  unfoldable pub update_cdp_prep :
      Rra D → Cf → ℕ → ℕ → ℕ → Progress D → ℕ → List (Cdp D) → List D → Option (List (Cdp D))
  update_cdp_prep rra cf elapsed start step_cnt p ds_idx (c ∷ cdps) (v ∷ pdp_temp) = do
    c' ← prepare_cdp rra cf elapsed start step_cnt p ds_idx c v
    cs ← update_cdp_prep rra cf elapsed start step_cnt p (suc ds_idx) cdps pdp_temp
    some (c' ∷ cs)
  update_cdp_prep rra cf elapsed start step_cnt p ds_idx cdps _ = some cdps

  -- the two lookups of a bulk update of a seasonal archive
  unfoldable pub skip_ahead : Rra D → ℕ → ℕ → ℕ → Progress D → Option (Progress D)
  skip_ahead rra ds_cnt rra_start elapsed p = do
    (before, f) ← lookup_seasonal rra ds_cnt rra_start p.file elapsed
    (now, f') ← lookup_seasonal rra ds_cnt rra_start f (add_u64 elapsed 1)
    some (record p { file = f'; last_seasonal_coef = before; seasonal_coef = now })

  -- `update_all_cdp_prep` for one archive
  unfoldable pub prepare_rra :
      Rra D → ℕ → ℕ → ℕ → ℕ → List D → Progress D → Option (Pending D × Progress D)
  prepare_rra rra ds_cnt rra_start elapsed proc_pdp_cnt pdp_temp p = do
    cf ← rrd_cf_conv rra.cf_nam
    let start = start_pdp_offset rra.pdp_cnt proc_pdp_cnt
    let step_cnt = rra_step_cnt elapsed start rra.pdp_cnt rra.row_cnt
    let skip = is_seasonal cf && ltb 1 step_cnt
    let smoothing = smooth_step (is_seasonal cf) rra elapsed
    p' ← if skip then skip_ahead rra ds_cnt rra_start elapsed p else some p
    cdps ← update_cdp_prep rra cf elapsed start step_cnt p' 0 smoothing.1.cdps pdp_temp
    some (
      record { rra = record rra { cdps = cdps }; step_cnt = step_cnt; skip_update = skip },
      record p' { smooth = p'.smooth || smoothing.0 },
    )

  unfoldable pub update_all_cdp_prep :
      List (Rra D) → ℕ → ℕ → ℕ → ℕ → List D → Progress D → Option (List (Pending D) × Progress D)
  update_all_cdp_prep [] ds_cnt rra_start elapsed proc_pdp_cnt pdp_temp p = some ([], p)
  update_all_cdp_prep (rra ∷ rras) ds_cnt rra_start elapsed proc_pdp_cnt pdp_temp p = do
    (pending, p') ← prepare_rra rra ds_cnt rra_start elapsed proc_pdp_cnt pdp_temp p
    (rest, p'') ←
        update_all_cdp_prep rras ds_cnt (rra_start + rra.row_cnt * ds_cnt) elapsed proc_pdp_cnt
          pdp_temp p'
    some (pending ∷ rest, p'')
