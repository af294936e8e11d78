-- ===== src/Update/Values/Counter.antt =====
-- The overflow catcher of a COUNTER in `update_pdp_prep`.
use rrdtool_1_x.Prelude.{
  ℕ, ◌+◌, ◌-◌, ◌^◌, ◌<◌, ◌≡◌, refl, inl, inr, false, arith, ltb, if◌then◌else◌, Bool-cases,
}
use rrdtool_1_x.Prelude.Int.{sub_ℕ}
use rrdtool_1_x.Prelude.Double.{Double}
use rrdtool_1_x.Update.Values.{catch_overflow}

-- Doubles are exact on the differences of whole numbers below 2 ^ 52.
pub record IsExactDifference (D : Type 0) ⦃d : Double D⦄ : Type 0 where
  pub lt-zero :
      (a b : ℕ) → a < 2 ^ 52 → b < 2 ^ 52 → d.lt (d.of_int (sub_ℕ a b)) (d.of_nat 0) ≡ ltb a b
  pub add-of_nat :
      (a b c : ℕ)
      → a + c < 2 ^ 52
      → b < 2 ^ 52
      → d.add (d.of_int (sub_ℕ a b)) (d.of_nat c) ≡ d.of_int (sub_ℕ (a + c) b)

-- If doubles are exact on differences of whole numbers below 2 ^ 52: between two readings of a
-- counter of 32 bits, the difference stays as it is where the counter has not gone down; where it
-- has, 2 ^ 32 - 1 is added, one less than the counter's period.
pub catch_overflow_lem :
    {D : Type 0} ⦃d : Double D⦄
    → IsExactDifference D
    → (new old : ℕ) → new < 2 ^ 32
    → old < 2 ^ 32
    → catch_overflow (d.of_int (sub_ℕ new old))
      ≡ d.of_int (sub_ℕ (if ltb new old then new + (2 ^ 32 - 1) else new) old)
unfolding catch_overflow
catch_overflow_lem ⦃d = d⦄ exact new old h k = elim (Bool-cases (ltb new old)) [
  | inl e ↦
      let up : ltb (new + 4294967295) old ≡ false = ground (arith, k) in
      rw
        (
          exact.lt-zero new old (omega arith) (omega arith),
          e,
          exact.add-of_nat new old 4294967295 (omega arith) (omega arith),
          exact.lt-zero (new + 4294967295) old (omega arith) (omega arith),
          up,
        )
        refl
  | inr e ↦
      rw (exact.lt-zero new old (omega arith) (omega arith), e)
        (rw (exact.lt-zero new old (omega arith) (omega arith), e) refl)
]
