-- ===== src/Tests/Small.antt =====
-- A small database for the tests: one data source, an archive of 3 rows of one PDP and one of 2 rows
-- of two, and a file of five values.
use rrdtool_1_x.Prelude.{ℕ, ◌*◌, List, [], ◌∷◌, codes}
use rrdtool_1_x.Prelude.Int.{pos}
use rrdtool_1_x.Format.{Cdp, DataSource, Rra, Rrd}
use rrdtool_1_x.Store.{File}
use rrdtool_1_x.Tests.Halves.{Num, half}

abbrev pub whole : ℕ → Num
whole n = half (pos (2 * n))

abbrev pub empty_cdp : Cdp Num
empty_cdp = record {
  val = whole 0;
  unkn_pdp_cnt = 0;
  hw_intercept = whole 0;
  hw_last_intercept = whole 0;
  hw_slope = whole 0;
  hw_last_slope = whole 0;
  null_count = 0;
  last_null_count = 0;
  primary_val = whole 0;
  secondary_val = whole 0;
  violations = [];
}

abbrev pub speed : DataSource Num
speed = record {
  ds_nam = codes "speed";
  dst = codes "GAUGE";
  mrhb_cnt = 100;
  min_val = whole 0;
  max_val = whole 1000;
  last_ds = codes "U";
  unkn_sec_cnt = 0;
  pdp_val = whole 0;
}

abbrev pub rra_of : List ℕ → ℕ → ℕ → Rra Num
rra_of cf row_cnt pdp_cnt = record {
  cf_nam = cf;
  row_cnt = row_cnt;
  pdp_cnt = pdp_cnt;
  xff = half (pos 1);
  hw_alpha = half (pos 1);
  hw_beta = half (pos 1);
  dependent_rra_idx = 0;
  seasonal_smooth_idx = 0;
  window_len = 0;
  failure_threshold = 0;
  cur_row = 0;
  cdps = empty_cdp ∷ [];
}

abbrev pub each_step : Rra Num
each_step = rra_of (codes "AVERAGE") 3 1

abbrev pub every_other : Rra Num
every_other = rra_of (codes "MAX") 2 2

abbrev pub five : File Num
five = record { pos = 0; cells = whole 0 ∷ whole 0 ∷ whole 0 ∷ whole 0 ∷ whole 0 ∷ [] }

abbrev pub small : Rrd Num
small = record {
  pdp_step = 10;
  last_up = 100;
  last_up_usec = 0;
  sources = speed ∷ [];
  archives = each_step ∷ every_other ∷ [];
}
