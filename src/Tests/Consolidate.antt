-- ===== src/Tests/Consolidate.antt =====
-- A row of two PDPs, for each consolidation function, and the rate of a PDP.
use rrdtool_1_x.Prelude.{◌≡◌, refl, [], ◌∷◌, arith, All}
use rrdtool_1_x.Prelude.Int.{pos}
use rrdtool_1_x.Format.{average, minimum, maximum, last, Cdp}
use rrdtool_1_x.Update.Consolidate.Period.{feed, IsFresh}
use rrdtool_1_x.Update.Consolidate.Extremes.{KnownIsFinite, maximum_period, average_period}
use rrdtool_1_x.Update.Values.{catch_overflow}
use rrdtool_1_x.Update.Values.Counter.{catch_overflow_lem}
use rrdtool_1_x.Tests.Halves.{
  Num, halves, half, not_a_number, inf_pos, inf_neg, halves-IsIeee, halves-IsExactDifference,
}
use rrdtool_1_x.Tests.Small.{whole, empty_cdp}

abbrev starting : Num → Cdp Num
starting v = record empty_cdp { val = v }

starting-IsFresh_maximum : IsFresh maximum (starting inf_neg)
unfolding rrdtool_1_x.Update.Consolidate.carry_unknown
starting-IsFresh_maximum = record { val_empty = refl; none_unknown = refl }

starting-IsFresh_minimum : IsFresh minimum (starting inf_pos)
unfolding rrdtool_1_x.Update.Consolidate.carry_unknown
starting-IsFresh_minimum = record { val_empty = refl; none_unknown = refl }

starting-IsFresh-last : IsFresh last (starting not_a_number)
unfolding rrdtool_1_x.Update.Consolidate.carry_unknown
starting-IsFresh-last = record { val_empty = refl; none_unknown = refl }

starting-IsFresh_average : IsFresh average (starting (whole 0))
unfolding rrdtool_1_x.Update.Consolidate.carry_unknown
starting-IsFresh_average = record { val_empty = refl; none_unknown = refl }

maximum_period_example :
    let c = feed maximum 2 3 (half (pos 1)) 0 (whole 7 ∷ whole 5 ∷ []) (starting inf_neg) in
    (c.primary_val ≡ whole 7) × IsFresh maximum c
unfolding rrdtool_1_x.Prelude.Int.quot_ℤ
maximum_period_example =
    maximum_period halves-IsIeee 2 3 (half (pos 1)) (omega arith) (omega arith) (omega arith) 0
      (whole 7 ∷ []) (whole 5) (starting inf_neg) starting-IsFresh_maximum refl refl

sevens_finite : All (KnownIsFinite halves-IsIeee) (whole 7 ∷ [])
sevens_finite = ((λ h. (refl, refl)), tt)

average_period_example :
    let c = feed average 2 3 (half (pos 1)) 0 (whole 7 ∷ whole 5 ∷ []) (starting (whole 0)) in
    (c.primary_val ≡ whole 6) × IsFresh average c
unfolding rrdtool_1_x.Prelude.Int.quot_ℤ rrdtool_1_x.Prelude.Int.◌+ℤ◌
average_period_example =
    average_period halves-IsIeee 2 3 (half (pos 1)) (omega arith) (omega arith) (omega arith) 0
      (whole 7 ∷ []) (whole 5) (starting (whole 0)) starting-IsFresh_average sevens_finite refl refl

-- From 4294967295 to 4 is five steps up, of which four are counted.
catch_overflow_example :
    catch_overflow (halves.of_int (rrdtool_1_x.Prelude.Int.sub_ℕ 4 4294967295)) ≡ whole 4
catch_overflow_example =
    catch_overflow_lem halves-IsExactDifference 4 4294967295 (omega arith) (omega arith)
