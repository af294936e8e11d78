-- ===== src/Format.antt =====
-- The round-robin database format of src/rrd_format.h and src/rrd_format.c: the header records, and
-- the names of data source types and consolidation functions.
-- Entry i of `ds_def` and of `pdp_prep` is one `DataSource`; entry i of `rra_def` and of `rra_ptr`,
-- with its `ds_cnt` entries of `cdp_prep`, is one `Rra`.
pub mod Names
use rrdtool_1_x.Prelude.{ℕ, Option, none, some, List, [], ◌∷◌, codes, str_eq, if◌then◌else◌}

-- `enum dst_en`
pub data Dst : Type 0 where
  counter absolute gauge derive computed dcounter dderive : Dst

-- `enum cf_en`
pub data Cf : Type 0 where
  average minimum maximum last hwpredict seasonal devpredict devseasonal failures mhwpredict : Cf

-- `none` is the -1 that is returned with an error set.
unfoldable pub dst_conv : List ℕ → Option Dst
dst_conv string =
    if str_eq (codes "COUNTER") string
    then some counter
    else if str_eq (codes "ABSOLUTE") string
    then some absolute
    else if str_eq (codes "GAUGE") string
    then some gauge
    else if str_eq (codes "DERIVE") string
    then some derive
    else if str_eq (codes "COMPUTE") string
    then some computed
    else if str_eq (codes "DCOUNTER") string
    then some dcounter
    else if str_eq (codes "DDERIVE") string
    then some dderive
    else none

unfoldable pub rrd_cf_conv : List ℕ → Option Cf
rrd_cf_conv string =
    if str_eq (codes "AVERAGE") string
    then some average
    else if str_eq (codes "MIN") string
    then some minimum
    else if str_eq (codes "MAX") string
    then some maximum
    else if str_eq (codes "LAST") string
    then some last
    else if str_eq (codes "HWPREDICT") string
    then some hwpredict
    else if str_eq (codes "MHWPREDICT") string
    then some mhwpredict
    else if str_eq (codes "DEVPREDICT") string
    then some devpredict
    else if str_eq (codes "SEASONAL") string
    then some seasonal
    else if str_eq (codes "DEVSEASONAL") string
    then some devseasonal
    else if str_eq (codes "FAILURES") string
    then some failures
    else none

unfoldable pub cf_to_string : Cf → List ℕ
cf_to_string average = codes "AVERAGE"
cf_to_string minimum = codes "MIN"
cf_to_string maximum = codes "MAX"
cf_to_string last = codes "LAST"
cf_to_string hwpredict = codes "HWPREDICT"
cf_to_string seasonal = codes "SEASONAL"
cf_to_string devpredict = codes "DEVPREDICT"
cf_to_string devseasonal = codes "DEVSEASONAL"
cf_to_string failures = codes "FAILURES"
cf_to_string mhwpredict = codes "MHWPREDICT"

-- `ds_def_t` and `pdp_prep_t` of one data source. The members of the unions `par` and `scratch` that
-- the program reads are fields. `last_ds` ends before its NUL.
pub record DataSource (D : Type 0) : Type 0 where
  pub ds_nam : List ℕ
  pub dst : List ℕ
  pub mrhb_cnt : ℕ
  pub min_val : D
  pub max_val : D
  pub last_ds : List ℕ
  pub unkn_sec_cnt : ℕ
  pub pdp_val : D

-- `cdp_prep_t`: the ten words of `scratch`. Those with two names (`CDP_hw_seasonal`, ...) have one
-- field. A FAILURES archive reads the same bytes as an array of violations, kept apart here.
pub record Cdp (D : Type 0) : Type 0 where
  pub val : D
  pub unkn_pdp_cnt : ℕ
  pub hw_intercept : D  -- also CDP_hw_seasonal, CDP_seasonal_deviation
  pub hw_last_intercept : D  -- also CDP_hw_last_seasonal, CDP_last_seasonal_deviation
  pub hw_slope : D
  pub hw_last_slope : D
  pub null_count : ℕ  -- also CDP_init_seasonal
  pub last_null_count : ℕ
  pub primary_val : D
  pub secondary_val : D
  pub violations : List ℕ

-- `rra_def_t`, `rra_ptr_t` and the row of `cdp_prep` of one archive.
pub record Rra (D : Type 0) : Type 0 where
  pub cf_nam : List ℕ
  pub row_cnt : ℕ
  pub pdp_cnt : ℕ
  pub xff : D
  pub hw_alpha : D  -- also RRA_seasonal_gamma, RRA_delta_pos
  pub hw_beta : D  -- also RRA_seasonal_smoothing_window, RRA_delta_neg
  pub dependent_rra_idx : ℕ
  pub seasonal_smooth_idx : ℕ
  pub window_len : ℕ
  pub failure_threshold : ℕ
  pub cur_row : ℕ
  pub cdps : List (Cdp D)

-- `rrd_t`, with `stat_head` and `live_head` in it. `ds_cnt` is the length of `sources`, `rra_cnt`
-- that of `archives`. Times are from 1970 on.
pub record Rrd (D : Type 0) : Type 0 where
  pub pdp_step : ℕ
  pub last_up : ℕ
  pub last_up_usec : ℕ
  pub sources : List (DataSource D)
  pub archives : List (Rra D)

-- `ds_match`, from index `i` on; `none` is -1 with an error set.
unfoldable pub ds_match_from : {D : Type 0} → List (DataSource D) → List ℕ → ℕ → Option ℕ
ds_match_from [] ds_nam i = none
ds_match_from (s ∷ sources) ds_nam i =
    if str_eq ds_nam s.ds_nam then some i else ds_match_from sources ds_nam (ℕ.suc i)

unfoldable pub ds_match : {D : Type 0} → Rrd D → List ℕ → Option ℕ
unfolding ds_match_from
ds_match rrd ds_nam = ds_match_from rrd.sources ds_nam 0
