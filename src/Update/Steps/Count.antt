-- ===== src/Update/Steps/Count.antt =====
-- The counts of Update/Steps against the calendar of step boundaries: the boundaries up to a time t
-- are t / step, so an update from `last_up` to `now` crosses now / step - last_up / step of them.
use rrdtool_1_x.Prelude.{
  ℕ, ◌+◌, ◌-◌, ◌*◌, ◌/◌, ◌%◌, ◌^◌, ◌≤◌, ◌<◌, min, ◌≡◌, ap, sym, ◌∙◌, le→leb, lt→leb_false, arith,
  word, sub_u64, sub_u64_fits, add_u64_fits,
}
use native.Mathlib.Nat.{
  div-add-mod, mod-add-div', div-eq_of_eq-mul_left, mul-sub, mul_comm, mul-add-div, add-div_right,
  div-eq_of_lt, div-le_self, mul-div_left, mul-le-mul_right, le-div_iff_mul-le,
}
use native.Mathlib.Decide.{dec_le}
use rrdtool_1_x.Prelude.Double.{Double}
use rrdtool_1_x.Format.{Rrd}
use rrdtool_1_x.Update.Steps.{
  int_as_ulong, pdp_st, calculate_elapsed_steps, start_pdp_offset, rra_step_cnt,
}

div_diff : (a b s : ℕ) → 0 < s → (a * s - b * s) / s ≡ a - b
div_diff a b s h =
    div-eq_of_eq-mul_left {k = a - b} h
      (omega (arith, mul_comm (a - b) s, mul-sub s a b, mul_comm s a, mul_comm s b))

pub pdp_st-eq : (t s : ℕ) → t < word → pdp_st t s ≡ t / s * s
unfolding pdp_st
pdp_st-eq t s k =
    rw (sub_u64_fits t (t % s) (omega (arith, mod-add-div' t s)) k)
      (omega (arith, mod-add-div' t s))

-- the boundaries among `elapsed` PDPs, from what is left over of the open row
boundaries :
    (proc elapsed n : ℕ) → 0 < n → (proc + elapsed) / n ≡ proc / n + (proc % n + elapsed) / n
boundaries proc elapsed n h =
    ap (λ k. k / n) (omega (arith, div-add-mod proc n))
    ∙ mul-add-div h (proc / n) (proc % n + elapsed)

crossed : (r e n : ℕ) → 0 < n → r < n → n - r ≤ e → (e - (n - r)) / n + 1 ≡ (r + e) / n
crossed r e n h k p = sym (add-div_right (e - (n - r)) h) ∙ ap (λ k. k / n) (omega arith)

-- For rows of `pdp_cnt` > 0 PDPs, and numbers below 2 ^ 64, `rra_step_cnt` is the number of row
-- boundaries among the elapsed PDPs, cut at the row count.
pub rra_step_cnt_lem :
    (proc elapsed pdp_cnt row_cnt : ℕ)
    → 0 < pdp_cnt
    → pdp_cnt < word
    → elapsed + 1 < word
    → rra_step_cnt elapsed (start_pdp_offset pdp_cnt proc) pdp_cnt row_cnt
      ≡ min ((proc + elapsed) / pdp_cnt - proc / pdp_cnt) row_cnt
unfolding rra_step_cnt start_pdp_offset
rra_step_cnt_lem proc elapsed n row_cnt h k l =
    rw (sub_u64_fits n (proc % n) (omega arith) k, boundaries proc elapsed n h)
      elim (dec_le (n - proc % n) elapsed) [
        | yes p ↦
            let big : elapsed < word = omega arith in
            rw
              (
                le→leb (n - proc % n) elapsed p,
                sub_u64_fits elapsed (n - proc % n) p big,
                add_u64_fits ((elapsed - (n - proc % n)) / n) 1
                    (omega (arith, div-le_self (elapsed - (n - proc % n)) n)),
                crossed (proc % n) elapsed n h (omega arith) p,
              )
              (omega arith)
        | no p ↦
            rw (lt→leb_false (n - proc % n) elapsed (omega arith))
              (omega (arith, div-eq_of_lt {n = proc % n + elapsed} {m = n} (omega arith)))
      ]

int_as_ulong_small : (n : ℕ) → n < 2 ^ 31 → int_as_ulong n ≡ n
unfolding int_as_ulong
int_as_ulong_small n h = ground arith

int_as_ulong_large : (n : ℕ) → 2 ^ 31 ≤ n → n < 2 ^ 32 → int_as_ulong n ≡ n + (2 ^ 64 - 2 ^ 32)
unfolding int_as_ulong
int_as_ulong_large n h k = ground arith

div_mono : (a b s : ℕ) → 0 < s → a ≤ b → a / s ≤ b / s
div_mono a b s h k = (le-div_iff_mul-le h).1 (omega (arith, mod-add-div' a s))

quotient_of_pdp_st : (t s : ℕ) → 0 < s → t < word → pdp_st t s / s ≡ t / s
quotient_of_pdp_st t s h k = rw (pdp_st-eq t s k) (mul-div_left (t / s) h)

steps_between :
    (up now s : ℕ)
    → 0 < s
    → up ≤ now
    → now < word
    → sub_u64 (pdp_st now s) (pdp_st up s) / s ≡ now / s - up / s
steps_between up now s h k l =
    rw (pdp_st-eq now s l, pdp_st-eq up s (omega arith))
      (rw
        (sub_u64_fits (now / s * s) (up / s * s) (mul-le-mul_right s (div_mono up now s h k))
          (omega (arith, mod-add-div' now s)))
        (div_diff (now / s) (up / s) s h))

module _ {D : Type 0} ⦃d : Double D⦄ where
  -- If the step is above 0, the time is not before the last update and below 2 ^ 64, and the count
  -- fits an `int`, `calculate_elapsed_steps` returns the number of boundaries of `pdp_step` in
  -- (last_up, now], `proc_pdp_cnt` is the number of those up to `last_up`, and together they are the
  -- number up to now.
  pub elapsed_pdp_st_lem :
      (rrd : Rrd D) (now usec : ℕ) (interval : D)
      → 0 < rrd.pdp_step
      → rrd.last_up ≤ now
      → now < word
      → now / rrd.pdp_step - rrd.last_up / rrd.pdp_step < 2 ^ 31
      → let e = calculate_elapsed_steps rrd now usec interval in
        (e.elapsed_pdp_st ≡ now / rrd.pdp_step - rrd.last_up / rrd.pdp_step)
        × (e.proc_pdp_cnt ≡ rrd.last_up / rrd.pdp_step)
        × (e.proc_pdp_cnt + e.elapsed_pdp_st ≡ now / rrd.pdp_step)
  unfolding calculate_elapsed_steps
  elapsed_pdp_st_lem rrd now usec interval h k l m =
      let s = rrd.pdp_step in
      let up = rrd.last_up in
      let count : int_as_ulong (sub_u64 (pdp_st now s) (pdp_st up s) / s) ≡ now / s - up / s =
        rw (steps_between up now s h k l) (int_as_ulong_small (now / s - up / s) m) in
      let proc : pdp_st up s / s ≡ up / s = quotient_of_pdp_st up s h (omega arith) in
      (count, proc, omega (arith, count, proc, div_mono up now s h k))

  -- Where the number of elapsed steps is from 2 ^ 31 to below 2 ^ 32, so that it does not fit an
  -- `int`, the caller gets at least 2 ^ 63 steps.
  pub elapsed_pdp_st_overflow :
      (rrd : Rrd D) (now usec : ℕ) (interval : D)
      → 0 < rrd.pdp_step
      → rrd.last_up ≤ now
      → now < word
      → 2 ^ 31 ≤ now / rrd.pdp_step - rrd.last_up / rrd.pdp_step
      → now / rrd.pdp_step - rrd.last_up / rrd.pdp_step < 2 ^ 32
      → 2 ^ 63 ≤ (calculate_elapsed_steps rrd now usec interval).elapsed_pdp_st
  unfolding calculate_elapsed_steps
  elapsed_pdp_st_overflow rrd now usec interval h k l m n =
      rw (steps_between rrd.last_up now rrd.pdp_step h k l)
        (omega (arith, int_as_ulong_large (now / rrd.pdp_step - rrd.last_up / rrd.pdp_step) m n))
