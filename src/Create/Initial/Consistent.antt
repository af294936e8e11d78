-- ===== src/Create/Initial/Consistent.antt =====
-- A new database is consistent: what an update asks for holds from the start.
use rrdtool_1_x.Prelude.{
  ℕ, suc, ◌*◌, ◌<◌, ◌≡◌, ap, List, [], ◌∷◌, arith, length, length-map, length-replicate, All, map,
  word,
}
use rrdtool_1_x.Prelude.Double.{Double}
use mathlib.Core.Path.{subst}
use native.Mathlib.Nat.{mod-lt, add-mul}
use rrdtool_1_x.Format.{DataSource, Rra, Rrd}
use rrdtool_1_x.Update.Prepare.Ready.{IsWellFormed, rows_of}
use rrdtool_1_x.Update.Process.{State}
use rrdtool_1_x.Update.Process.Safe.{IsConsistent}
use rrdtool_1_x.Create.Initial.{
  zero_cdp, init_cdp, rrd_select_initial_row, reset_pdp_prep, init_rra, init_rras, total_rows,
  rrd_init_data,
}

module _ {D : Type 0} ⦃d : Double D⦄ where
  -- an archive of some rows, of some PDPs each
  pub record IsDefined (rra : Rra D) : Type 0 where
    pub some_rows : 0 < rra.row_cnt
    pub rows_fit : rra.row_cnt < word
    pub some_pdps : 0 < rra.pdp_cnt
    pub pdps_fit : rra.pdp_cnt < word

  init_rras-AllWellFormed :
      (last_up step : ℕ) (sources : List (DataSource D)) (random : ℕ → ℕ) (i : ℕ)
      (rras : List (Rra D))
      → All IsDefined rras
      → All (IsWellFormed (length sources)) (init_rras last_up step sources random i rras)
  unfolding init_rras init_rra rrd_select_initial_row
  init_rras-AllWellFormed last_up step sources random i [] h = tt
  init_rras-AllWellFormed last_up step sources random i (rra ∷ rras) (defined, h) = (
    record {
      row_inside = mod-lt (random i) defined.some_rows;
      rows_fit = defined.rows_fit;
      pdps_fit = (defined.some_pdps, defined.pdps_fit);
      one_each = length-map sources (λ s. init_cdp last_up step rra s zero_cdp);
    },
    init_rras-AllWellFormed last_up step sources random (suc i) rras h,
  )

  rows_of-init_rras :
      (last_up step : ℕ) (sources : List (DataSource D)) (random : ℕ → ℕ) (i : ℕ)
      (rras : List (Rra D)) (ds_cnt : ℕ)
      → rows_of ds_cnt (init_rras last_up step sources random i rras) ≡ total_rows rras * ds_cnt
  unfolding init_rras init_rra
  rows_of-init_rras last_up step sources random i [] ds_cnt = omega arith
  rows_of-init_rras last_up step sources random i (rra ∷ rras) ds_cnt = omega (
    arith,
    rows_of-init_rras last_up step sources random (suc i) rras ds_cnt,
    add-mul rra.row_cnt (total_rows rras) ds_cnt,
  )

  -- Where each archive has some rows of some PDPs, the header and the values that `rrd_init_data`
  -- makes, whatever the numbers drawn for the row pointers, are a consistent database: one entry for
  -- each data source in every archive, the row pointers inside, and as many values as the archives
  -- have in all.
  pub rrd_init_data-IsConsistent :
      (random : ℕ → ℕ) (rrd : Rrd D) (st : State D)
      → All IsDefined rrd.archives
      → st.rrd ≡ (rrd_init_data random rrd).0
      → st.progress.file.cells ≡ (rrd_init_data random rrd).1
      → IsConsistent (length rrd.sources) (total_rows rrd.archives * length rrd.sources) st
  unfolding rrd_init_data
  rrd_init_data-IsConsistent random rrd st defined header values =
      let sources = map (reset_pdp_prep rrd.last_up rrd.pdp_step) rrd.sources in
      let number : length sources ≡ length rrd.sources =
        length-map rrd.sources (reset_pdp_prep rrd.last_up rrd.pdp_step) in
      let well =
        init_rras-AllWellFormed rrd.last_up rrd.pdp_step sources random 0 rrd.archives defined in
      rw header (record {
        each_source = number;
        well_formed =
            subst
              (λ n.
                All (IsWellFormed n)
                  (init_rras rrd.last_up rrd.pdp_step sources random 0 rrd.archives))
              number well;
        extent_known =
            rows_of-init_rras rrd.last_up rrd.pdp_step sources random 0 rrd.archives
              (length rrd.sources);
        room = omega (
          arith,
          ap length values,
          length-replicate (total_rows rrd.archives * length sources) d.nan,
          ap (λ n. total_rows rrd.archives * n) number,
        );
      })
