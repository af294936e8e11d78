-- ===== src/Create/Initial.antt =====
-- The contents of a new database: `reset_pdp_prep`, `init_cdp`, `rrd_init_data` and
-- `create_hw_contingent_rras` of src/rrd_create.c, and `rrd_select_initial_row` of src/rrd_open.c. The
-- definitions are given; the rest is not there before.
pub mod Consistent
pub mod Startup
pub mod Contingent
use rrdtool_1_x.Prelude.{
  ℕ, zero, suc, ◌+◌, ◌*◌, ◌-◌, ◌/◌, ◌%◌, Bool, true, false, Option, none, some, List, [], ◌∷◌, ◌++◌,
  map, replicate, length, set, sub_u64, mul_u64, codes,
}
use rrdtool_1_x.Prelude.Double.{Double}
use rrdtool_1_x.Format.{
  Cf, average, minimum, maximum, last, hwpredict, seasonal, devpredict, devseasonal, failures,
  mhwpredict, rrd_cf_conv, DataSource, Cdp, Rra, Rrd,
}
use rrdtool_1_x.Hw.Aberrant.{init_hwpredict_cdp, init_seasonal_cdp}

-- "startup missing pdp count"
unfoldable pub startup_pdp_cnt : ℕ → ℕ → ℕ → ℕ → ℕ
startup_pdp_cnt last_up unkn_sec_cnt pdp_step pdp_cnt =
    (sub_u64 last_up unkn_sec_cnt % mul_u64 pdp_step pdp_cnt) / pdp_step

module _ {D : Type 0} ⦃d : Double D⦄ where
  open d use {nan, of_nat}

  unfoldable pub reset_pdp_prep : ℕ → ℕ → DataSource D → DataSource D
  reset_pdp_prep last_up pdp_step s = record s {
    last_ds = codes "U";
    pdp_val = nan;
    unkn_sec_cnt = last_up % pdp_step;
  }

  -- what `calloc` gives: each of the ten words of `scratch` has eight bytes
  abbrev pub zero_cdp : Cdp D
  zero_cdp = record {
    val = of_nat 0;
    unkn_pdp_cnt = 0;
    hw_intercept = of_nat 0;
    hw_last_intercept = of_nat 0;
    hw_slope = of_nat 0;
    hw_last_slope = of_nat 0;
    null_count = 0;
    last_null_count = 0;
    primary_val = of_nat 0;
    secondary_val = of_nat 0;
    violations = replicate 80 0;
  }

  unfoldable pub init_cdp_by : Option Cf → ℕ → ℕ → Rra D → DataSource D → Cdp D → Cdp D
  unfolding startup_pdp_cnt
  init_cdp_by (some hwpredict) last_up pdp_step rra s cdp = init_hwpredict_cdp cdp
  init_cdp_by (some mhwpredict) last_up pdp_step rra s cdp = init_hwpredict_cdp cdp
  init_cdp_by (some seasonal) last_up pdp_step rra s cdp = init_seasonal_cdp cdp
  init_cdp_by (some devseasonal) last_up pdp_step rra s cdp = init_seasonal_cdp cdp
  init_cdp_by (some failures) last_up pdp_step rra s cdp = zero_cdp
  init_cdp_by _ last_up pdp_step rra s cdp = record cdp {
    val = nan;
    unkn_pdp_cnt = startup_pdp_cnt last_up s.unkn_sec_cnt pdp_step rra.pdp_cnt;
  }

  unfoldable pub init_cdp : ℕ → ℕ → Rra D → DataSource D → Cdp D → Cdp D
  unfolding init_cdp_by
  init_cdp last_up pdp_step rra s cdp =
      init_cdp_by (rrd_cf_conv rra.cf_nam) last_up pdp_step rra s cdp

  -- `random` is what `rrd_random` returns.
  unfoldable pub rrd_select_initial_row : ℕ → Rra D → ℕ
  rrd_select_initial_row random rra = random % rra.row_cnt

  -- one archive: its entries, and its row pointer
  unfoldable pub init_rra : ℕ → ℕ → List (DataSource D) → ℕ → Rra D → Rra D
  unfolding init_cdp rrd_select_initial_row
  init_rra last_up pdp_step sources random rra = record rra {
    cdps = map (λ s. init_cdp last_up pdp_step rra s zero_cdp) sources;
    cur_row = rrd_select_initial_row random rra;
  }

  -- the archives from index `i` on; `random i` is the number drawn for archive `i`
  unfoldable pub init_rras : ℕ → ℕ → List (DataSource D) → (ℕ → ℕ) → ℕ → List (Rra D) → List (Rra D)
  unfolding init_rra
  init_rras last_up pdp_step sources random i [] = []
  init_rras last_up pdp_step sources random i (rra ∷ rras) =
      init_rra last_up pdp_step sources (random i) rra
      ∷ init_rras last_up pdp_step sources random (suc i) rras

  abbrev pub total_rows : List (Rra D) → ℕ
  total_rows [] = 0
  total_rows (rra ∷ rras) = rra.row_cnt + total_rows rras

  -- the header, and the values of all archives
  unfoldable pub rrd_init_data : (ℕ → ℕ) → Rrd D → Rrd D × List D
  unfolding reset_pdp_prep init_rras
  rrd_init_data random rrd =
      let sources = map (reset_pdp_prep rrd.last_up rrd.pdp_step) rrd.sources in
      (
        record rrd {
          sources = sources;
          archives = init_rras rrd.last_up rrd.pdp_step sources random 0 rrd.archives;
        },
        replicate (total_rows rrd.archives * length sources) nan,
      )

  -- what `memset` gives; the row pointer and the entries come later
  abbrev pub zero_rra : Rra D
  zero_rra = record {
    cf_nam = [];
    row_cnt = 0;
    pdp_cnt = 0;
    xff = of_nat 0;
    hw_alpha = of_nat 0;
    hw_beta = of_nat 0;
    dependent_rra_idx = 0;
    seasonal_smooth_idx = 0;
    window_len = 0;
    failure_threshold = 0;
    cur_row = 0;
    cdps = [];
  }

  -- the four archives that go with the HWPREDICT archive `hw_rra`, the last of the list
  unfoldable pub contingent_rras : ℕ → Rra D → ℕ → ℕ → List (Rra D)
  contingent_rras hw_index hw_rra period hash =
      record zero_rra {
        cf_nam = codes "SEASONAL";
        row_cnt = period;
        seasonal_smooth_idx = hash % period;
        pdp_cnt = 1;
        hw_alpha = hw_rra.hw_alpha;
        dependent_rra_idx = hw_index;
      }
      ∷ record zero_rra {
        cf_nam = codes "DEVSEASONAL";
        row_cnt = period;
        seasonal_smooth_idx = hash % period;
        pdp_cnt = 1;
        hw_alpha = hw_rra.hw_alpha;
        dependent_rra_idx = hw_index;
      }
      ∷ record zero_rra {
        cf_nam = codes "DEVPREDICT";
        row_cnt = hw_rra.row_cnt;
        pdp_cnt = 1;
        dependent_rra_idx = hw_index + 2;
      }
      ∷ record zero_rra {
        cf_nam = codes "FAILURES";
        row_cnt = period;
        pdp_cnt = 1;
        hw_alpha = of_nat 2;
        hw_beta = of_nat 2;
        failure_threshold = 7;
        window_len = 9;
        dependent_rra_idx = hw_index + 2;
      }
      ∷ []

  -- `rras` are the archives before the HWPREDICT one.
  unfoldable pub create_hw_contingent_rras : List (Rra D) → Rra D → ℕ → ℕ → List (Rra D)
  unfolding contingent_rras
  create_hw_contingent_rras rras hw_rra period hash =
      rras
      ++ (record hw_rra { dependent_rra_idx = length rras + 1 }
          ∷ contingent_rras (length rras) hw_rra period hash)
