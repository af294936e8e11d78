-- ===== src/Fetch/Choice.antt =====
-- The archive that `rrd_fetch_fn` reads.
use rrdtool_1_x.Prelude.{ℕ, ◌+◌, ◌*◌, ◌-◌, ◌%◌, ◌≤◌, ◌≡◌, true, List, word, ◌<◌}
use rrdtool_1_x.Format.{Cf, Rra, Rrd}
use rrdtool_1_x.Fetch.{handles, Best, consider, consider_from}

module _ {D : Type 0} (rrd : Rrd D) (cf_idx : Cf) (start end_time step : ℕ) where
  -- how far the step of the archive's rows is from the wanted one
  abbrev pub diff_of : Rra D → ℕ
  diff_of rra = let rows = rra.pdp_cnt * rrd.pdp_step in (step - rows) + (rows - step)

  -- an archive for the function that reaches back to the start: from the last whole row, all its
  -- rows go back to the start or beyond it
  abbrev pub IsFull : Rra D → Type 0
  IsFull rra =
      (handles cf_idx rra ≡ true)
      × (rrd.last_up - rrd.last_up % (rra.pdp_cnt * rrd.pdp_step)
          ≤ start + rra.pdp_cnt * rra.row_cnt * rrd.pdp_step)

  -- the seconds of a row and of all rows fit an `unsigned long`
  abbrev pub Fits : Rra D → Type 0
  Fits rra =
      (rra.pdp_cnt * rrd.pdp_step < word)
      × (rra.pdp_cnt * rra.row_cnt < word)
      × (rra.pdp_cnt * rra.row_cnt * rrd.pdp_step < word)

  abbrev last_row : Rra D → ℕ
  last_row rra = rrd.last_up - rrd.last_up % (rra.pdp_cnt * rrd.pdp_step)

  abbrev rows_back : Rra D → ℕ
  rows_back rra = rra.pdp_cnt * rra.row_cnt * rrd.pdp_step

  abbrev run : ℕ → List (Rra D) → Best → Best
  run i rras b = consider_from rrd cf_idx start end_time step i rras b

  abbrev one : ℕ → Rra D → Best → Best
  one i rra b = consider rrd cf_idx start end_time step i rra b
