-- ===== src/Tests/Steps.antt =====
-- Counts of steps and rows, times, and the difference of two readings.
use rrdtool_1_x.Prelude.{ℕ, ◌+◌, ◌≤◌, ◌^◌, ◌≡◌, ◌⊎◌, true, false, some, List, arith, All, codes}
use rrdtool_1_x.Prelude.Int.{pos}
use rrdtool_1_x.Diff.{rrd_diff, overrun}
use rrdtool_1_x.Diff.Value.{IsDigit, meaning, rrd_diff_lem, rrd_diff_overruns}
use rrdtool_1_x.Update.Steps.{calculate_elapsed_steps, rra_step_cnt, start_pdp_offset}
use rrdtool_1_x.Update.Steps.Count.{rra_step_cnt_lem, elapsed_pdp_st_lem}
use rrdtool_1_x.Tests.Halves.{halves}
use rrdtool_1_x.Tests.Small.{whole, small}

rra_step_cnt_example : rra_step_cnt 7 (start_pdp_offset 3 10) 3 5 ≡ 2
rra_step_cnt_example = rra_step_cnt_lem 10 7 3 5 (omega arith) (omega arith) (omega arith)

elapsed_pdp_st_example :
    let e = calculate_elapsed_steps small 125 0 (whole 25) in
    (e.elapsed_pdp_st ≡ 2) × (e.proc_pdp_cnt ≡ 10) × (e.proc_pdp_cnt + e.elapsed_pdp_st ≡ 12)
elapsed_pdp_st_example =
    elapsed_pdp_st_lem small 125 0 (whole 25) (omega arith) (omega arith) (omega arith)
      (omega arith)

digits_12 : All IsDigit (codes "12")
digits_12 = ((omega arith, omega arith), ((omega arith, omega arith), tt))

digits_5 : All IsDigit (codes "5")
digits_5 = ((omega arith, omega arith), tt)

rrd_diff_example : meaning (rrd_diff (codes "-5") (codes "-12")) ≡ some (pos 7)
rrd_diff_example =
    rrd_diff_lem true (codes "5") (codes "12") digits_5 digits_12 (omega arith) (omega arith)
      (omega arith) (omega arith)

abbrev long : List ℕ
long = codes "10000000000000000000000000000"

zero_digits : (n : ℕ) → All IsDigit (rrdtool_1_x.Prelude.replicate n b'0')
zero_digits ℕ.zero = tt
zero_digits (ℕ.suc n) = ((omega arith, omega arith), zero_digits n)

digits_long : All IsDigit long
digits_long = ((omega arith, omega arith), zero_digits 28)

rrd_diff_overruns_example :
    ((29 ≤ 29) ⊎ (29 ≤ 2) → rrd_diff long (codes "12") ≡ overrun)
    × (rrd_diff long (codes "12") ≡ overrun → (29 ≤ 29) ⊎ (29 ≤ 2))
rrd_diff_overruns_example =
    rrd_diff_overruns false long (codes "12") digits_long digits_12 (omega arith) (omega arith)
      (omega arith) (omega arith)
