-- ===== src/Tests/Databases.antt =====
-- The theorems on the making and the resizing of databases at concrete inputs.
use rrdtool_1_x.Prelude.{
  ℕ, suc, ◌+◌, ◌*◌, ◌%◌, ◌≤◌, ◌<◌, ◌≡◌, refl, ap, ◌||◌, Bool, true, false, some, List, [], ◌∷◌,
  arith, replicate, codes, All,
}
use rrdtool_1_x.Prelude.Int.{pos}
use rrdtool_1_x.Format.{Rra}
use rrdtool_1_x.Update.Process.{State}
use rrdtool_1_x.Update.Process.Safe.{IsConsistent}
use rrdtool_1_x.Hw.Smooth.{apply_smoother}
use rrdtool_1_x.Create.Coverage.{Interval, interval, add_coverage}
use rrdtool_1_x.Create.Coverage.Cover.{covers}
use rrdtool_1_x.Create.Coverage.Add.{Added, add_coverage-Added}
use rrdtool_1_x.Create.Coverage.Recount.{add_coverage-recounts}
use rrdtool_1_x.Create.Times.{end_time_for_row, row_for_time}
use rrdtool_1_x.Create.Times.Rows.{row_for_time-end_time}
use rrdtool_1_x.Create.Initial.{rrd_init_data, create_hw_contingent_rras}
use rrdtool_1_x.Create.Initial.Consistent.{IsDefined, rrd_init_data-IsConsistent}
use rrdtool_1_x.Create.Initial.Contingent.{contingent_rras-unsmoothed}
use rrdtool_1_x.Resize.{grow}
use rrdtool_1_x.Tests.Halves.{Num, half, halves}
use rrdtool_1_x.Tests.Small.{whole, small, each_step, five, rra_of}

-- the multiples of ten
abbrev IsTen : ℕ → Type 0
IsTen n = n % 10 ≡ 0

tens_spaced : (p q : ℕ) → IsTen p → IsTen q → p < q → suc p < q
tens_spaced p q h k l = omega arith

-- From 100 to 140 the seconds from 111 to 120 are covered; then those from 101 to 130 are added.
add_coverage_example :
    (out : List Interval) × (newly : ℕ) × (add_coverage
        (interval false 101 110)
        (interval true 111 120 ∷ interval false 121 140 ∷ [])
        101
        130
      ≡ some (out, pos newly))
    × Added IsTen 100 140 101 130
        (interval false 101 110 ∷ interval true 111 120 ∷ interval false 121 140 ∷ [])
        out
        newly
add_coverage_example =
    add_coverage-Added IsTen tens_spaced 100 140 100 130 (interval false 101 110)
      (interval true 111 120 ∷ interval false 121 140 ∷ []) refl refl refl refl (omega arith)
      (omega arith)
      (refl, omega arith, refl, (refl, omega arith, refl, (refl, omega arith, refl, refl)))

add_coverage-recounts_example :
    (covers (interval false 1 5 ∷ interval true (5 + 1) 20 ∷ []) 10 ≡ true)
    × (out : List Interval) × (add_coverage
          (interval false 1 5)
          (interval true (5 + 1) 20 ∷ [])
          10
          10
        ≡ some (out, pos 1))
add_coverage-recounts_example =
    add_coverage-recounts 1 5 10 20 (omega arith) (omega arith) (omega arith)

-- the row after the newest of three
row_for_time_example :
    (e : ℕ) × (end_time_for_row small each_step (pos 0) (pos 1) ≡ pos e)
    × (e % (1 * 10) ≡ 0)
    × ((t : ℕ) → t ≤ e → e < t + 1 * 10 → row_for_time small each_step (pos 0) (pos t) ≡ pos 1)
row_for_time_example =
    row_for_time-end_time small each_step 0 1 (omega arith) (omega arith) (omega arith)
      (omega arith) (omega arith) (omega arith) (omega arith)

abbrev drawn : ℕ → ℕ
drawn i = i + 7

small_IsDefined : All IsDefined small.archives
small_IsDefined = (
  record {
    some_rows = omega arith;
    rows_fit = omega arith;
    some_pdps = omega arith;
    pdps_fit = omega arith;
  },
  (
    record {
      some_rows = omega arith;
      rows_fit = omega arith;
      some_pdps = omega arith;
      pdps_fit = omega arith;
    },
    tt,
  ),
)

abbrev made : State Num
made = record {
  rrd = (rrd_init_data drawn small).0;
  progress = record {
    file = record { pos = 0; cells = (rrd_init_data drawn small).1 };
    last_seasonal_coef = [];
    seasonal_coef = [];
    smooth = false;
  };
  summary = rrdtool_1_x.Prelude.none;
}

rrd_init_data_example : IsConsistent 1 5 made
rrd_init_data_example = rrd_init_data-IsConsistent drawn small made small_IsDefined refl refl

abbrev predicting : Rra Num
predicting = rra_of (codes "MHWPREDICT") 20 1

contingent_rras_example :
    let all = create_hw_contingent_rras (each_step ∷ []) predicting 4 9 in
    (apply_smoother (λ n. replicate n (whole 0)) 4 all (1 + 1) 1 0 five ≡ some (all, five))
    × (apply_smoother (λ n. replicate n (whole 0)) 4 all (1 + 2) 1 0 five ≡ some (all, five))
unfolding rrdtool_1_x.Prelude.Int.quot_ℤ
contingent_rras_example =
    contingent_rras-unsmoothed (each_step ∷ []) predicting 4 9 (λ n. replicate n (whole 0)) 4 1 0
      five (omega arith) refl (λ n. ap (λ m. half (pos m)) (omega arith)) refl refl

-- three rows, the row pointer at the last, and two rows of another archive
abbrev at_last : Rra Num
at_last = record each_step { cur_row = 2 }

abbrev resized_values : List Num
resized_values = whole 1 ∷ whole 2 ∷ whole 3 ∷ whole 7 ∷ whole 8 ∷ []
