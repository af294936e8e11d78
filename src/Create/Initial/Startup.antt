-- ===== src/Create/Initial/Startup.antt =====
-- The PDPs that a new archive misses at the start.
use rrdtool_1_x.Prelude.{
  ℕ, ◌+◌, ◌*◌, ◌-◌, ◌/◌, ◌%◌, ◌≤◌, ◌<◌, ◌≡◌, sym, ap, ◌∙◌, arith, word, sub_u64_fits, mul_u64_fits,
}
use native.Mathlib.Nat.{
  mod-lt, mod-eq_of_lt, mul-add, mul_assoc, mul-add-mod_self_left, mul-div_cancel_left,
  mul-lt-mul_of_pos_left, div-add-mod,
}
use rrdtool_1_x.Create.Initial.{startup_pdp_cnt}

mod_scaled : (s q p : ℕ) → 0 < s → 0 < p → (s * q) % (s * p) ≡ s * (q % p)
mod_scaled s q p h k =
    ap (λ n. (s * n) % (s * p)) (sym (div-add-mod q p))
    ∙ ap (λ n. n % (s * p))
        (mul-add s (p * (q / p)) (q % p) ∙ ap (λ n. n + s * (q % p)) (sym (mul_assoc s p (q / p))))
    ∙ mul-add-mod_self_left (s * p) (q / p) (s * (q % p))
    ∙ mod-eq_of_lt (mul-lt-mul_of_pos_left (mod-lt q k) h)

-- The PDPs of the row in progress that are over when the database is made are counted as missing,
-- which are the whole steps since the row began: the step number modulo the PDPs of a row. The row's
-- length is to fit a word.
pub startup_pdp_cnt_lem :
    (last_up pdp_step pdp_cnt : ℕ)
    → 0 < pdp_step
    → 0 < pdp_cnt
    → last_up < word
    → pdp_step * pdp_cnt < word
    → (startup_pdp_cnt last_up (last_up % pdp_step) pdp_step pdp_cnt ≡ last_up / pdp_step % pdp_cnt)
      × (startup_pdp_cnt last_up (last_up % pdp_step) pdp_step pdp_cnt < pdp_cnt)
unfolding startup_pdp_cnt
startup_pdp_cnt_lem last_up pdp_step pdp_cnt h k fits long =
    let whole : last_up - last_up % pdp_step ≡ pdp_step * (last_up / pdp_step) =
      omega (arith, div-add-mod last_up pdp_step) in
    let inside : last_up % pdp_step ≤ last_up = omega (arith, div-add-mod last_up pdp_step) in
    let value : startup_pdp_cnt last_up (last_up % pdp_step) pdp_step pdp_cnt
        ≡ last_up / pdp_step % pdp_cnt =
      rw
        (
          sub_u64_fits last_up (last_up % pdp_step) inside fits,
          mul_u64_fits pdp_step pdp_cnt long,
          whole,
          mod_scaled pdp_step (last_up / pdp_step) pdp_cnt h k,
        )
        (mul-div_cancel_left (last_up / pdp_step % pdp_cnt) h) in
    (value, omega (arith, value, mod-lt (last_up / pdp_step) k))
