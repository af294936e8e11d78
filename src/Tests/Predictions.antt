-- ===== src/Tests/Predictions.antt =====
-- The theorems on the Holt-Winters prediction at concrete inputs.
use rrdtool_1_x.Prelude.{
  ℕ, ◌+◌, ◌≤◌, ◌<◌, ◌≡◌, refl, Option, none, some, List, [], ◌∷◌, arith, leb, codes, take, false,
  replicate,
}
use rrdtool_1_x.Format.{Cdp, Rra}
use rrdtool_1_x.Update.Write.{primary, Pending}
use rrdtool_1_x.Update.Prepare.Schedule.{DueWithin, DueWithin-cycle}
use rrdtool_1_x.Hw.{get_cdp, hw_additive_functions}
use rrdtool_1_x.Hw.Deviation.{record_violation, update_failures}
use rrdtool_1_x.Hw.Window.{Shows, total, record_violation-Shows}
use rrdtool_1_x.Hw.Failure.{Decided, update_failures-Decided}
use rrdtool_1_x.Store.{File}
use rrdtool_1_x.Hw.Smooth.{apply_smoother}
use rrdtool_1_x.Hw.Smooth.Frame.{SameOutside, apply_smoother-SameOutside}
use rrdtool_1_x.Hw.Reset.{reset_aberrant_coefficients}
use rrdtool_1_x.Hw.Reset.Sources.{Spares, reset_aberrant_coefficients-Spares}
use rrdtool_1_x.Hw.Queue.{FifoQueue, queue_alloc}
use rrdtool_1_x.Hw.Queue.Order.{
  QueueOp, pushing, popping, Holds, run_queue, run_list, queue_alloc-Holds, run_queue-Holds,
}
use rrdtool_1_x.Tests.Halves.{Num, halves}
use rrdtool_1_x.Tests.Small.{whole, empty_cdp, rra_of}

-- an archive that depends on another, with its entry
abbrev predicting : List ℕ → ℕ → Cdp Num → Pending Num
predicting cf dependent cdp = record {
  rra = record (rra_of cf 4 1) {
    dependent_rra_idx = dependent;
    window_len = 3;
    failure_threshold = 2;
    cdps = cdp ∷ [];
  };
  step_cnt = 1;
  skip_update = false;
}

-- the entry of FAILURES: the observed value is 9, and one of three readings was a violation
abbrev watched : Cdp Num
watched = record empty_cdp { primary_val = whole 9; violations = 1 ∷ 0 ∷ 0 ∷ [] }

-- HWPREDICT, SEASONAL, DEVSEASONAL and FAILURES: the prediction is 4, the deviation is 1
abbrev system : List (Pending Num)
system =
    predicting (codes "HWPREDICT") 1
      (record empty_cdp { hw_last_intercept = whole 4; hw_intercept = whole 4 })
    ∷ predicting (codes "SEASONAL") 0 empty_cdp
    ∷ predicting (codes "DEVSEASONAL") 0
        (record empty_cdp { hw_last_intercept = whole 1; hw_intercept = whole 1 })
    ∷ predicting (codes "FAILURES") 2 watched
    ∷ []

abbrev decided : List (Pending Num)
decided = elim (update_failures hw_additive_functions system 3 0 primary) [
  | none ↦ []
  | some ps ↦ ps
]

deciding : update_failures hw_additive_functions system 3 0 primary ≡ some decided
unfolding rrdtool_1_x.Hw.get_cdp rrdtool_1_x.Hw.put_cdp
    rrdtool_1_x.Hw.hw_additive_calculate_prediction rrdtool_1_x.Hw.blend
    rrdtool_1_x.Hw.hw_additive_calculate_intercept rrdtool_1_x.Hw.hw_additive_calculate_seasonality
    rrdtool_1_x.Hw.hw_multiplicative_calculate_prediction
    rrdtool_1_x.Hw.hw_multiplicative_calculate_intercept
    rrdtool_1_x.Hw.hw_multiplicative_calculate_seasonality
    rrdtool_1_x.Hw.hw_multiplicative_init_seasonality rrdtool_1_x.Hw.hw_calculate_slope
    rrdtool_1_x.Hw.hw_calculate_seasonal_deviation rrdtool_1_x.Hw.hw_additive_functions
    rrdtool_1_x.Hw.hw_multiplicative_functions rrdtool_1_x.Hw.Deviation.count_violation
    rrdtool_1_x.Hw.Deviation.shift_violations rrdtool_1_x.Hw.Deviation.record_violation
    rrdtool_1_x.Hw.Deviation.known_prediction rrdtool_1_x.Hw.Deviation.deviation_value
    rrdtool_1_x.Hw.Deviation.update_devseasonal rrdtool_1_x.Hw.Deviation.hw_is_violation
    rrdtool_1_x.Hw.Deviation.any_prediction rrdtool_1_x.Hw.Deviation.violation_of
    rrdtool_1_x.Hw.Deviation.find_violation rrdtool_1_x.Hw.Deviation.update_failures
    rrdtool_1_x.Update.Pdp.as_int rrdtool_1_x.Prelude.Int.◌+ℤ◌ rrdtool_1_x.Prelude.Int.quot_ℤ
deciding = refl

found_entry : get_cdp system 3 0 ≡ some watched
unfolding get_cdp
found_entry = refl

watched_Shows : Shows 3 watched.violations (1 ∷ 0 ∷ 0 ∷ [])
watched_Shows = record {
  newest = refl;
  room = omega arith;
  bits = (omega arith, (omega arith, (omega arith, tt)));
}

abbrev failures_rra : Rra Num
failures_rra = (predicting (codes "FAILURES") 2 watched).rra

update_failures_example :
    (after : Cdp Num) × (get_cdp decided 3 0 ≡ some after)
    × Decided hw_additive_functions system 3 0 failures_rra primary watched (1 ∷ 0 ∷ 0 ∷ []) after
update_failures_example =
    update_failures-Decided hw_additive_functions system 3 0 primary failures_rra watched
      (1 ∷ 0 ∷ 0 ∷ []) refl found_entry (omega arith) (omega arith) watched_Shows deciding

record_violation_example :
    (vs' : List ℕ) × (record_violation 3 (1 ∷ 0 ∷ 0 ∷ []) 1
      ≡ some (vs', total (take 3 (1 ∷ 1 ∷ 0 ∷ 0 ∷ []))))
    × Shows 3 vs' (1 ∷ 1 ∷ 0 ∷ 0 ∷ [])
record_violation_example =
    record_violation-Shows 3 (1 ∷ 0 ∷ 0 ∷ []) (1 ∷ 0 ∷ 0 ∷ []) 1 (omega arith) (omega arith)
      (omega arith) watched_Shows

abbrev cycle : Rra Num
cycle = record (rra_of (codes "SEASONAL") 4 1) { seasonal_smooth_idx = 2; cur_row = 3 }

-- From row 3 of 4, one step and then three.
DueWithin-cycle_example : DueWithin cycle (1 ∷ 3 ∷ [])
DueWithin-cycle_example =
    DueWithin-cycle cycle (1 ∷ 3 ∷ []) (omega arith) (omega arith) (omega arith)
      (omega arith, (omega arith, tt)) (omega arith)

-- a queue of three places, and some use of it
abbrev three_places : FifoQueue ℕ
three_places = queue_alloc (0 ∷ 0 ∷ 0 ∷ []) 3

abbrev round_the_ring : List (QueueOp ℕ)
round_the_ring =
    pushing 5 ∷ pushing 6 ∷ popping ∷ pushing 7 ∷ pushing 8 ∷ popping ∷ popping ∷ pushing 9 ∷ []

-- on a list: 5, 6 and 7 are popped, 8 and 9 are left
listed : run_list three_places.capacity round_the_ring [] ≡ some (5 ∷ 6 ∷ 7 ∷ [], 8 ∷ 9 ∷ [])
unfolding run_list queue_alloc
listed = refl

run_queue_example :
    (q : FifoQueue ℕ) × (run_queue round_the_ring three_places ≡ some (5 ∷ 6 ∷ 7 ∷ [], q))
    × Holds q (8 ∷ 9 ∷ [])
run_queue_example =
    run_queue-Holds round_the_ring three_places [] {out = 5 ∷ 6 ∷ 7 ∷ []} {ys = 8 ∷ 9 ∷ []}
      (queue_alloc-Holds (0 ∷ 0 ∷ 0 ∷ []) 3 refl (omega arith)) listed

-- two rows of DEVSEASONAL, from the second place of the file on, and a window of three rows
abbrev deviations_rra : Rra Num
deviations_rra = record (rra_of (codes "DEVSEASONAL") 2 1) { hw_beta = whole 1 }

abbrev rough : File Num
rough = record { pos = 0; cells = whole 9 ∷ whole 3 ∷ whole 6 ∷ whole 8 ∷ [] }

abbrev uninitialized : ℕ → List Num
uninitialized n = replicate n (whole 0)

-- the means of 6, 3, 6 and of 3, 6, 3
smoothing :
    apply_smoother uninitialized 4 (deviations_rra ∷ []) 0 1 1 rough
    ≡ some (
      deviations_rra ∷ [],
      record { pos = 3; cells = whole 9 ∷ whole 5 ∷ whole 4 ∷ whole 8 ∷ [] },
    )
unfolding apply_smoother rrdtool_1_x.Hw.Smooth.smooth_values rrdtool_1_x.Hw.Smooth.smooth_by_cf
    rrdtool_1_x.Hw.Smooth.move_windows rrdtool_1_x.Hw.Smooth.move_window
    rrdtool_1_x.Hw.Smooth.first_terms rrdtool_1_x.Hw.Smooth.first_term
    rrdtool_1_x.Hw.Smooth.read_known rrdtool_1_x.Hw.Smooth.smooth_offset
    rrdtool_1_x.Hw.Smooth.write_values rrdtool_1_x.Hw.Smooth.each_column rrdtool_1_x.Hw.Queue.my_mod
    queue_alloc rrdtool_1_x.Hw.Queue.queue_push rrdtool_1_x.Hw.Queue.queue_pop
    rrdtool_1_x.Store.rrd_seek rrdtool_1_x.Store.rrd_read rrdtool_1_x.Store.rrd_write
    rrdtool_1_x.Format.rrd_cf_conv rrdtool_1_x.Prelude.Int.quot_ℤ rrdtool_1_x.Prelude.str_eq
    rrdtool_1_x.Prelude.Int.◌+ℤ◌
smoothing = refl

apply_smoother_example : SameOutside 1 3 rough.cells (whole 9 ∷ whole 5 ∷ whole 4 ∷ whole 8 ∷ [])
apply_smoother_example =
    apply_smoother-SameOutside uninitialized 4 (deviations_rra ∷ []) 0 1 1 rough deviations_rra refl
      smoothing

-- two data sources and two rows, of which the second data source is reset
abbrev shared_rra : Rra Num
shared_rra = record (rra_of (codes "DEVSEASONAL") 2 1) { cdps = empty_cdp ∷ empty_cdp ∷ [] }

reset_aberrant_coefficients_example :
    (rras : List (Rra Num)) × (f : File Num) × (reset_aberrant_coefficients 2
        (shared_rra ∷ [])
        1
        rough
      ≡ some (rras, f))
    × Spares 2 1 rough.cells f.cells
reset_aberrant_coefficients_example =
    reset_aberrant_coefficients-Spares 2 1 (omega arith) (shared_rra ∷ []) rough (refl, tt)
      (omega arith)
