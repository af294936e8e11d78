-- ===== src/Create/Times/Rows.antt =====
-- The rows of an archive and the times at which they end.
use rrdtool_1_x.Prelude.{
  ℕ, suc, ◌+◌, ◌*◌, ◌-◌, ◌/◌, ◌%◌, ◌^◌, ◌≤◌, ◌<◌, ◌≡◌, sym, ap, ◌∙◌, true, false, arith, ltb, leb,
  if◌then◌else◌, word, mul_u64_fits,
}
use rrdtool_1_x.Prelude.Int.{pos, pos_part, ◌+ℤ◌, ◌-ℤ◌}
use native.Mathlib.Nat.{
  mod-lt, mod-eq_of_lt, mul-add-mod_self_right, mul-mod_left, div-add-mod', div-eq_of_lt-le,
  le-div_iff_mul-le, add-mul,
}
use native.Mathlib.Decide.{ℕ_discrete}
use rrdtool_1_x.Format.{Rra, Rrd}
use rrdtool_1_x.Update.Pdp.{as_int}
use rrdtool_1_x.Create.Times.{
  ◌*ℤ◌, div_ℤ, rem_ℤ, positive_mod, timeslot, end_time_for_row, slot_end, latest, word_of, wrap_int,
  row_for_aligned, row_for_time,
}

pub as_int_fits : (n : ℕ) → n < 2 ^ 31 → as_int n ≡ pos n
unfolding as_int
as_int_fits n h = ground arith

as_int-le : (n : ℕ) → pos_part (as_int n) ≤ n
unfolding as_int
as_int-le n = ground arith

pos-sub_pos : (a b : ℕ) → b ≤ a → pos a -ℤ pos b ≡ pos (a - b)
unfolding ◌-ℤ◌
pos-sub_pos a b h = ground arith

pos-mul_pos : (a b : ℕ) → pos a *ℤ pos b ≡ pos (a * b)
unfolding ◌*ℤ◌
pos-mul_pos a b = ground arith

-- one of the `rows` rows, so many rows before another
abbrev pub before : ℕ → ℕ → ℕ → ℕ
before rows x y = if leb y x then x - y else x + rows - y

before-lt : (rows x y : ℕ) → x < rows → y < rows → before rows x y < rows
before-lt rows x y h k = ground arith

before_twice : (rows x y : ℕ) → x < rows → y < rows → before rows x (before rows x y) ≡ y
before_twice rows x y h k = ground arith

positive_mod_near :
    (rows x y : ℕ)
    → x < rows
    → y < rows
    → positive_mod (pos x -ℤ pos y) (pos rows) ≡ pos (before rows x y)
unfolding positive_mod rem_ℤ ◌-ℤ◌ ◌+ℤ◌
positive_mod_near rows x y h k =
    ground
      (arith, mod-eq_of_lt {n = x - y} {m = rows}, mod-eq_of_lt {n = suc (y - x - 1)} {m = rows})

rem_ℤ-pos : (a b : ℕ) → rem_ℤ (pos a) (pos b) ≡ pos (a % b)
unfolding rem_ℤ
rem_ℤ-pos a b = ap (λ n. pos (a % n)) (omega arith)

slot_end-multiple : (m ts : ℕ) → slot_end (pos (m * ts)) (pos ts) ≡ pos (m * ts)
slot_end-multiple m ts =
    let even = rem_ℤ-pos (m * ts) ts ∙ ap pos (mul-mod_left m ts) in ground (arith, even)

-- A time in a slot is moved to its end.
slot_end_lem :
    (m r ts : ℕ) → 0 < r → r ≤ ts → slot_end (pos (m * ts + r)) (pos ts) ≡ pos (m * ts + ts)
unfolding ◌+ℤ◌ ◌-ℤ◌
slot_end_lem m r ts some_time inside = elim (ℕ_discrete r ts) [
  | yes whole ↦
      let next : m * ts + r ≡ suc m * ts = omega (arith, whole) in
      ap (λ t. slot_end (pos t) (pos ts)) next ∙ slot_end-multiple (suc m) ts ∙ ap pos (omega arith)
  | no part ↦
      let rest =
        rem_ℤ-pos (m * ts + r) ts
        ∙ ap pos (mul-add-mod_self_right m ts r ∙ mod-eq_of_lt {n = r} {m = ts} (omega arith)) in
      rw rest (ground (arith, some_time, inside))
]

latest_lem : (last_up m ts : ℕ) → latest last_up (pos (m * ts)) (pos ts) ≡ pos last_up
latest_lem last_up m ts =
    let even = rem_ℤ-pos (m * ts) ts ∙ ap pos (mul-mod_left m ts) in ground (arith, even)

wrap_int_fits : (n : ℕ) → n < 2 ^ 31 → wrap_int (pos n) ≡ pos n
unfolding wrap_int
wrap_int_fits n h = ap as_int (mod-eq_of_lt {n = n} {m = word} (omega (arith, h))) ∙ as_int_fits n h

module _ {D : Type 0} (rrd : Rrd D) (rra : Rra D) where
  abbrev slot_length : ℕ
  slot_length = rra.pdp_cnt * rrd.pdp_step

  abbrev whole_slots : ℕ
  whole_slots = rrd.last_up / slot_length

  module _ (cur row : ℕ) (positive : 0 < slot_length) (slot_fits : slot_length < 2 ^ 31)
      (rows_fit : rra.row_cnt < 2 ^ 31) (cur_inside : cur < rra.row_cnt)
      (row_inside : row < rra.row_cnt) (time_fits : rrd.last_up < 2 ^ 31)
      (old_enough : rra.row_cnt * slot_length ≤ rrd.last_up) where
    past : ℕ
    past = before rra.row_cnt cur row

    slot_lem : timeslot rrd.pdp_step rra ≡ pos slot_length
    slot_lem =
        ap as_int (mul_u64_fits rra.pdp_cnt rrd.pdp_step (omega (arith, slot_fits)))
        ∙ as_int_fits slot_length slot_fits

    slots_lem :
        (rra.row_cnt ≤ whole_slots)
        × (whole_slots * slot_length + rrd.last_up % slot_length ≡ rrd.last_up)
    slots_lem = ((le-div_iff_mul-le positive).1 old_enough, div-add-mod' rrd.last_up slot_length)

    past_slots : (whole_slots - past) * slot_length + past * slot_length ≡ whole_slots * slot_length
    unfolding past
    past_slots =
        let few = before-lt rra.row_cnt cur row cur_inside row_inside in
        sym (add-mul (whole_slots - past) past slot_length)
        ∙ ap (λ n. n * slot_length) (omega (arith, slots_lem.0, few))

    end_time_lem :
        end_time_for_row rrd rra (pos cur) (pos row) ≡ pos ((whole_slots - past) * slot_length)
    unfolding end_time_for_row past
    end_time_lem =
        let rest = rem_ℤ-pos rrd.last_up slot_length in
        let rows = as_int_fits rra.row_cnt rows_fit in
        let near = positive_mod_near rra.row_cnt cur row cur_inside row_inside in
        rw
          (
            slot_lem,
            rows,
            near,
            rest,
            pos-mul_pos past slot_length,
            wrap_int_fits (past * slot_length) (omega (arith, slots_lem.1, past_slots, time_fits)),
            pos-sub_pos rrd.last_up (rrd.last_up % slot_length) (omega arith),
            pos-sub_pos (rrd.last_up - rrd.last_up % slot_length) (past * slot_length)
                (omega (arith, slots_lem.1, past_slots)),
          )
          (ap pos (omega (arith, slots_lem.1, past_slots)))

    past_time :
        as_int (
          word_of
            (div_ℤ (pos rrd.last_up -ℤ pos ((whole_slots - past) * slot_length)) (pos slot_length)))
        ≡ pos past
    unfolding div_ℤ past
    past_time =
        let few = before-lt rra.row_cnt cur row cur_inside row_inside in
        let left : rrd.last_up - (whole_slots - past) * slot_length
            ≡ past * slot_length + rrd.last_up % slot_length =
          omega (arith, slots_lem.1, past_slots) in
        let whole : (past * slot_length + rrd.last_up % slot_length) / slot_length ≡ past =
          div-eq_of_lt-le slot_length (omega arith)
            (omega (arith, add-mul past 1 slot_length, mod-lt rrd.last_up positive)) in
        rw
          (
            pos-sub_pos rrd.last_up ((whole_slots - past) * slot_length)
                (omega (arith, slots_lem.1, past_slots)),
            left,
            whole,
          )
          (ap as_int (mod-eq_of_lt (omega (arith, few, rows_fit)))
            ∙ as_int_fits past (omega (arith, few, rows_fit)))

    row_for_aligned_lem :
        row_for_aligned rra
          (pos cur)
          (pos rrd.last_up)
          (pos ((whole_slots - past) * slot_length))
          (pos slot_length)
        ≡ pos row
    unfolding row_for_aligned past
    row_for_aligned_lem =
        let few = before-lt rra.row_cnt cur row cur_inside row_inside in
        let rows = as_int_fits rra.row_cnt rows_fit in
        let near =
          positive_mod_near rra.row_cnt cur past cur_inside few
          ∙ ap pos (before_twice rra.row_cnt cur row cur_inside row_inside) in
        let size : past * slot_length + slot_length ≤ rra.row_cnt * slot_length =
          grind (arith, few) in
        let back = rra.row_cnt * slot_length in
        let old : ltb (rrd.last_up - back) ((whole_slots - past) * slot_length) ≡ true =
          ground (arith, slots_lem.1, past_slots, size, old_enough, mod-lt rrd.last_up positive) in
        let now : ltb rrd.last_up ((whole_slots - past) * slot_length) ≡ false =
          ground (arith, slots_lem.1, past_slots) in
        rw
          (
            rows,
            past_time,
            near,
            pos-mul_pos rra.row_cnt slot_length,
            wrap_int_fits back (omega (arith, old_enough, time_fits)),
            wrap_int_fits rrd.last_up time_fits,
            pos-sub_pos rrd.last_up back old_enough,
            wrap_int_fits (rrd.last_up - back) (omega (arith, time_fits)),
          )
          (ground (arith, now, old, few))

    -- The row that is found for a time of the slot of a row is that row. The slot is the `slot_length`
    -- seconds up to the end time of the row, which is a multiple of it and not before 1970. The
    -- conditions: a slot of some seconds, and its length and the number of rows fit an `int`; both
    -- rows are inside; the time of the last update fits an `int`; the archive does not reach back
    -- beyond 1970.
    pub row_for_time-end_time :
        (e : ℕ) × (end_time_for_row rrd rra (pos cur) (pos row) ≡ pos e)
        × (e % slot_length ≡ 0)
        × ((t : ℕ) → t ≤ e → e < t + slot_length → row_for_time rrd rra (pos cur) (pos t) ≡ pos row)
    unfolding row_for_time past
    row_for_time-end_time =
        let few = before-lt rra.row_cnt cur row cur_inside row_inside in
        let k = whole_slots - past in
        let slots : k ≡ suc (k - 1) = omega (arith, slots_lem.0, few) in
        let one_less : (k - 1) * slot_length + slot_length ≡ k * slot_length =
          omega (arith, ap (λ n. n * slot_length) slots) in
        (
          k * slot_length,
          end_time_lem,
          mul-mod_left k slot_length,
          λ t early late.
              let r = t - (k - 1) * slot_length in
              let place : t ≡ (k - 1) * slot_length + r = omega (arith, early, late, one_less) in
              let aligned : slot_end (pos t) (pos slot_length) ≡ pos (k * slot_length) =
                ap (λ n. slot_end (pos n) (pos slot_length)) place
                ∙ slot_end_lem (k - 1) r slot_length (omega (arith, early, late, one_less))
                    (omega (arith, early, late, one_less))
                ∙ ap pos one_less in
              rw (slot_lem, aligned, latest_lem rrd.last_up k slot_length) row_for_aligned_lem,
        )
