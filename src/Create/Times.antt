-- ===== src/Create/Times.antt =====
-- `positive_mod`, `end_time_for_row`, `end_time_for_row_simple` and `row_for_time` of
-- src/rrd_create.c. `int` and `time_t` are integers, and what is converted to an `int` goes through
-- `as_int`.
pub mod Rows
use rrdtool_1_x.Prelude.{
  ◌>>=◌, ℕ, zero, suc, ◌+◌, ◌*◌, ◌-◌, ◌/◌, ◌%◌, Bool, true, false, Option, none, some, ltb, leb,
  ◌==◌, not, if◌then◌else◌, word, mul_u64, get_elem?,
}
use rrdtool_1_x.Prelude.Int.{ℤ, pos, negsuc, pos_part, neg_part, sub_ℕ, ◌+ℤ◌, ◌-ℤ◌, ltb_ℤ}
use rrdtool_1_x.Format.{Rra, Rrd}
use rrdtool_1_x.Update.Pdp.{as_int}

abbrev pub abs_ℤ : ℤ → ℕ
abs_ℤ a = pos_part a + neg_part a

-- C's `*`, `/` and `%` on integers, the quotient rounded toward zero
infixl 70 ◌*ℤ◌
unfoldable pub ◌*ℤ◌ : ℤ → ℤ → ℤ
a *ℤ b =
    sub_ℕ (pos_part a * pos_part b + neg_part a * neg_part b)
      (pos_part a * neg_part b + neg_part a * pos_part b)

unfoldable pub div_ℤ : ℤ → ℤ → ℤ
div_ℤ (pos a) (pos b) = pos (a / b)
div_ℤ (pos a) (negsuc b) = sub_ℕ 0 (a / suc b)
div_ℤ (negsuc a) (pos b) = sub_ℕ 0 (suc a / b)
div_ℤ (negsuc a) (negsuc b) = pos (suc a / suc b)

unfoldable pub rem_ℤ : ℤ → ℤ → ℤ
rem_ℤ (pos a) b = pos (a % abs_ℤ b)
rem_ℤ (negsuc a) b = sub_ℕ 0 (suc a % abs_ℤ b)

unfoldable pub positive_mod : ℤ → ℤ → ℤ
positive_mod a b = let x = rem_ℤ a b in if ltb_ℤ x (pos 0) then x +ℤ b else x

-- the bits of a `time_t`
abbrev pub word_of : ℤ → ℕ
word_of (pos n) = n % word
word_of (negsuc n) = word - 1 - n % word

-- the time of the end of the slot, and the latest time, which moves on if that is not a multiple
abbrev pub slot_end : ℤ → ℤ → ℤ
slot_end req_time slot =
    let delta = rem_ℤ req_time slot in
    if ltb_ℤ (pos 0) delta then req_time +ℤ (slot -ℤ delta) else req_time

abbrev pub latest : ℕ → ℤ → ℤ → ℤ
latest last_up req_time slot =
    let delta = rem_ℤ req_time slot in
    if ltb_ℤ (pos 0) delta then pos last_up +ℤ (slot -ℤ delta) else pos last_up

-- what an `int` keeps of a number: overflow wraps round
unfoldable pub wrap_int : ℤ → ℤ
wrap_int z = as_int (word_of z)

module _ {D : Type 0} where
  -- `int timeslot`
  abbrev pub timeslot : ℕ → Rra D → ℤ
  timeslot pdp_step rra = as_int (mul_u64 rra.pdp_cnt pdp_step)

  unfoldable pub end_time_for_row : Rrd D → Rra D → ℤ → ℤ → ℤ
  unfolding positive_mod
  end_time_for_row rrd rra cur_row row =
      let slot = timeslot rrd.pdp_step rra in
      let past_cnt = positive_mod (cur_row -ℤ row) (as_int rra.row_cnt) in
      (pos rrd.last_up -ℤ rem_ℤ (pos rrd.last_up) slot) -ℤ wrap_int (past_cnt *ℤ slot)

  unfoldable pub end_time_for_row_simple : Rrd D → ℕ → ℤ → Option ℤ
  unfolding end_time_for_row
  end_time_for_row_simple rrd rra_index row = do
    rra ← get_elem? rrd.archives rra_index
    some (end_time_for_row rrd rra (as_int rra.cur_row) row)

  -- from the aligned time on
  unfoldable pub row_for_aligned : Rra D → ℤ → ℤ → ℤ → ℤ → ℤ
  unfolding positive_mod
  row_for_aligned rra cur_row last_up req_time slot =
      let rows = as_int rra.row_cnt in
      let past_cnt = as_int (word_of (div_ℤ (last_up -ℤ req_time) slot)) in
      let row = positive_mod (cur_row -ℤ past_cnt) rows in
      if ltb_ℤ last_up req_time
      then negsuc 0
      else if not (ltb_ℤ (wrap_int (wrap_int last_up -ℤ wrap_int (rows *ℤ slot))) req_time)
      then negsuc 0
      else if not (ltb_ℤ past_cnt rows)
      then negsuc 0
      else if ltb_ℤ row (pos 0)
      then row +ℤ rows
      else row

  unfoldable pub row_for_time : Rrd D → Rra D → ℤ → ℤ → ℤ
  unfolding row_for_aligned
  row_for_time rrd rra cur_row req_time =
      let slot = timeslot rrd.pdp_step rra in
      let aligned = slot_end req_time slot in
      row_for_aligned rra cur_row (latest rrd.last_up aligned slot) aligned slot
