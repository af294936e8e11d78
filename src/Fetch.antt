-- ===== src/Fetch.antt =====
-- `rrd_fetch_fn` of src/rrd_fetch.c on an open database: the choice of an archive, the real times
-- and the reading of its rows; and the answers of src/rrd_first.c and src/rrd_last.c.
-- The file is a `File`, whose positions count from the end of the header.
pub mod Choice
pub mod Rows
pub mod Times
use rrdtool_1_x.Prelude.{
  ◌>>=◌, ℕ, zero, suc, ◌+◌, ◌-◌, ◌*◌, ◌%◌, Bool, false, ◌&&◌, ◌||◌, not, Option, none, some, List,
  [], ◌∷◌, ◌++◌, ltb, leb, ◌==◌, if◌then◌else◌, length, get_elem?, replicate, mul_u64,
}
use rrdtool_1_x.Prelude.Int.{ℤ, pos, pos_part, sub_ℕ, ◌+ℤ◌, ◌-ℤ◌, quot_ℤ, ltb_ℤ}
use rrdtool_1_x.Prelude.Double.{Double}
use rrdtool_1_x.Format.{
  Cf, average, minimum, maximum, last, hwpredict, seasonal, devpredict, devseasonal, failures,
  mhwpredict, rrd_cf_conv, Rra, Rrd,
}
use rrdtool_1_x.Store.{File, rrd_seek}
use rrdtool_1_x.Update.Prepare.{read_values}

-- the numbers of `enum cf_en`
unfoldable pub cf_number : Cf → ℕ
cf_number average = 0
cf_number minimum = 1
cf_number maximum = 2
cf_number last = 3
cf_number hwpredict = 4
cf_number seasonal = 5
cf_number devpredict = 6
cf_number devseasonal = 7
cf_number failures = 8
cf_number mhwpredict = 9

abbrev pub is_plain : Cf → Bool
is_plain cf = ltb (cf_number cf) 4

-- `enum cf_en` of an archive; `none`, for an unknown name, equals nothing
abbrev pub same_cf : Option Cf → Cf → Bool
same_cf none cf_idx = false
same_cf (some cf) cf_idx = cf_number cf == cf_number cf_idx

abbrev pub plain_cf : Option Cf → Bool
plain_cf none = false
plain_cf (some cf) = is_plain cf

-- whether an archive is looked at for a function
unfoldable pub handles : {D : Type 0} → Cf → Rra D → Bool
handles cf_idx rra =
    let rratype = rrd_cf_conv rra.cf_nam in
    same_cf rratype cf_idx || ((rra.pdp_cnt == 1) && (is_plain cf_idx && plain_cf rratype))

unfoldable pub labs_diff : ℕ → ℕ → ℕ
labs_diff a b = if leb a b then b - a else a - b

-- the best archives so far, with the number that each was chosen by
pub record Best : Type 0 where
  pub full : Option (ℕ × ℕ)
  pub part : Option (ℤ × ℕ × ℕ)

unfoldable pub offer_full : ℕ → ℕ → Option (ℕ × ℕ) → Option (ℕ × ℕ)
offer_full diff i none = some (diff, i)
offer_full diff i (some (best, j)) = if ltb diff best then some (diff, i) else some (best, j)

abbrev pub eq_ℤ : ℤ → ℤ → Bool
eq_ℤ a b = not (ltb_ℤ a b) && not (ltb_ℤ b a)

unfoldable pub offer_part : ℤ → ℕ → ℕ → Option (ℤ × ℕ × ℕ) → Option (ℤ × ℕ × ℕ)
offer_part match diff i none = some (match, diff, i)
offer_part match diff i (some (best, best_diff, j)) =
    if ltb_ℤ best match || (eq_ℤ best match && ltb diff best_diff)
    then some (match, diff, i)
    else some (best, best_diff, j)

-- "lets see how the matching went": a full match before a partial one
unfoldable pub pick : Option (ℕ × ℕ) → Option (ℤ × ℕ × ℕ) → Option ℕ
pick (some (_, i)) part = some i
pick none (some (_, _, i)) = some i
pick none none = none

module _ {D : Type 0} (rrd : Rrd D) where
  -- the step of an archive's rows
  abbrev pub row_step : Rra D → ℕ
  row_step rra = mul_u64 rra.pdp_cnt rrd.pdp_step

  -- the end of the last row that is written
  unfoldable pub cal_end : Rra D → ℕ
  cal_end rra = rrd.last_up - rrd.last_up % row_step rra

  unfoldable pub cal_start : Rra D → ℤ
  cal_start rra = sub_ℕ (cal_end rra) (mul_u64 (mul_u64 rra.pdp_cnt rra.row_cnt) rrd.pdp_step)

  module _ (cf_idx : Cf) (start end_time step : ℕ) where
    unfoldable pub step_diff : Rra D → ℕ
    step_diff rra = labs_diff step (rrd.pdp_step * rra.pdp_cnt)

    -- `cal_start <= *start`
    unfoldable pub covers : Rra D → Bool
    covers rra = not (ltb_ℤ (pos start) (cal_start rra))

    -- the body of the loop, for archive `i`; `tmp_match` is what of the wanted time it has
    unfoldable pub consider : ℕ → Rra D → Best → Best
    consider i rra b =
        if handles cf_idx rra
        then (if covers rra
            then record b { full = offer_full (step_diff rra) i b.full }
            else record b {
              part =
                  offer_part (sub_ℕ end_time start -ℤ (cal_start rra -ℤ pos start)) (step_diff rra)
                    i b.part;
            })
        else b

    unfoldable pub consider_from : ℕ → List (Rra D) → Best → Best
    consider_from i [] b = b
    consider_from i (rra ∷ rras) b = consider_from (suc i) rras (consider i rra b)

    -- `none` where no archive matches the function
    unfoldable pub chosen_rra : Option ℕ
    unfolding pick
    chosen_rra =
        let b = consider_from 0 rrd.archives (record { full = none; part = none }) in
        pick b.full b.part

-- the real start and end for a step
unfoldable pub real_start : ℕ → ℕ → ℕ
real_start start step = start - start % step

unfoldable pub real_end : ℕ → ℕ → ℕ
real_end end_time step = end_time + (step - end_time % step)

-- `rra_base`, as a number of values
unfoldable pub rra_base : {D : Type 0} → List (Rra D) → ℕ → ℕ → ℕ
rra_base rras zero ds_cnt = 0
rra_base [] (suc i) ds_cnt = 0
rra_base (rra ∷ rras) (suc i) ds_cnt = ds_cnt * rra.row_cnt + rra_base rras i ds_cnt

-- what `rrd_fetch_fn` gives back
pub record Fetched (D : Type 0) : Type 0 where
  pub start : ℕ
  pub end_time : ℕ
  pub step : ℕ
  pub data_rows : List D

module _ {D : Type 0} ⦃d : Double D⦄ where
  open d use {nan}

  -- The loop over the rows, `n` of them to go from row `i` of the archive on.
  module _ (base ds_cnt row_cnt : ℕ) where
    unfoldable pub fetch_rows : ℕ → ℤ → ℕ → File D → Option (List D)
    fetch_rows zero i rra_pointer f = some []
    fetch_rows (suc n) i rra_pointer f =
        if ltb_ℤ i (pos 0) || not (ltb_ℤ i (pos row_cnt))
        then (do
          rest ← fetch_rows n (i +ℤ pos 1) rra_pointer f
          some (replicate ds_cnt nan ++ rest))
        else (let wraps = leb row_cnt rra_pointer in
            let at = if wraps then rra_pointer - row_cnt else rra_pointer in
            let sought = if wraps then rrd_seek f (base + at * ds_cnt) else f in
            do
              (row, f') ← read_values ds_cnt sought
              rest ← fetch_rows n (i +ℤ pos 1) (suc at) f'
              some (row ++ rest))

  -- from the chosen archive on
  unfoldable pub fetch_from : Rrd D → File D → Rra D → ℕ → ℕ → ℕ → ℕ → Option (List D)
  fetch_from rrd f rra base start end_time step =
      let ds_cnt = length rrd.sources in
      let rra_end_time = rrd.last_up - rrd.last_up % step in
      let rra_start_time = sub_ℕ rra_end_time (step * (rra.row_cnt - 1)) in
      let start_offset = quot_ℤ (pos (start + step) -ℤ rra_start_time) step in
      let end_offset = quot_ℤ (sub_ℕ rra_end_time end_time) step in
      let seeks =
        leb start rra_end_time && not (ltb_ℤ (pos end_time) (rra_start_time -ℤ pos step)) in
      let rra_pointer = (rra.cur_row + 1 + pos_part start_offset) % rra.row_cnt in
      fetch_rows base ds_cnt rra.row_cnt
        (pos_part ((pos rra.row_cnt -ℤ end_offset) -ℤ start_offset)) start_offset
        (if seeks then rra_pointer else 0)
        (if seeks then rrd_seek f (base + rra_pointer * ds_cnt) else f)

  unfoldable pub rrd_fetch_fn : Rrd D → File D → Cf → ℕ → ℕ → ℕ → Option (Fetched D)
  rrd_fetch_fn rrd f cf_idx start end_time step = do
    i ← chosen_rra rrd cf_idx start end_time step
    rra ← get_elem? rrd.archives i
    let real_step = rrd.pdp_step * rra.pdp_cnt
    let from = real_start start real_step
    let to = real_end end_time real_step
    rows ← fetch_from rrd f rra (rra_base rrd.archives i (length rrd.sources)) from to real_step
    some (record { start = from; end_time = to; step = real_step; data_rows = rows })

-- `rrd_first_r`, `none` for an invalid index: the time of the oldest row
unfoldable pub rrd_first_r : {D : Type 0} → Rrd D → ℕ → Option ℤ
rrd_first_r rrd rraindex = do
  rra ← get_elem? rrd.archives rraindex
  some (sub_ℕ (cal_end rrd rra) (mul_u64 (mul_u64 (rra.row_cnt - 1) rra.pdp_cnt) rrd.pdp_step))

unfoldable pub rrd_last_r : {D : Type 0} → Rrd D → ℕ
rrd_last_r rrd = rrd.last_up
