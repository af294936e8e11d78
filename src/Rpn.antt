-- ===== src/Rpn.antt =====
-- RPN expressions: src/rrd_rpncalc.h and src/rrd_rpncalc.c. A sequence of nodes is the list of
-- those before its OP_END.
pub mod Compact
pub mod Ranges
pub mod Calc
pub mod Compute
pub mod Parse
use rrdtool_1_x.Prelude.{ℕ, List}
use rrdtool_1_x.Prelude.Int.{ℤ}

-- `enum op_en`
pub data Op : Type 0 where
  op_number op_variable op_inf op_prev op_neginf op_unkn op_now op_time op_add op_mod : Op
  op_sub op_mul op_div op_sin op_dup op_exc op_pop op_cos op_log op_exp op_lt op_le op_gt : Op
  op_ge op_eq op_if op_min op_max op_limit op_floor op_ceil op_un op_end op_ltime op_ne : Op
  op_isinf op_prev_other op_count op_atan op_sqrt op_sort op_rev op_trend op_trendnan : Op
  op_atan2 op_rad2deg op_deg2rad op_predict op_predictsigma op_avg op_abs op_addnan : Op
  op_minnan op_maxnan op_median op_predictperc op_depth op_copy op_roll op_index : Op
  op_stepwidth op_newday op_newweek op_newmonth op_newyear op_smin op_smax op_stdev : Op
  op_percent op_pow op_round : Op

-- `rpnp_t`. The pointer `data` is a place in an array.
pub record Rpnp (D : Type 0) : Type 0 where
  pub op : Op
  pub val : D
  pub ptr : ℤ
  pub data_array : List D
  pub data_idx : ℕ
  pub ds_cnt : ℕ
  pub step : ℕ

-- `rpn_cdefds_t`. `op` is stored in one byte, which holds every value of the enumeration.
pub record RpnCdefds : Type 0 where
  pub op : Op
  pub val : ℤ

-- The C library's functions on doubles, its sort of the array of doubles and its clock.
pub record Math (D : Type 0) : Type 0 where
  pub sin : D → D
  pub cos : D → D
  pub atan : D → D
  pub log : D → D
  pub exp : D → D
  pub sqrt : D → D
  pub ceil : D → D
  pub round : D → D
  pub atan2 : D → D → D
  pub pow : D → D → D
  pub fmod : D → D → D
  pub isinf : D → ℤ
  pub to_int : D → ℤ  -- the conversion to an `int`
  pub rad2deg : D  -- 57.29577951
  pub deg2rad : D  -- 0.0174532952
  pub time : D
  pub qsort : (D → D → ℤ) → List D → List D
