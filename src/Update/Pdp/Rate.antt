-- ===== src/Update/Pdp/Rate.antt =====
-- When the rate of a PDP is unknown: the readings that `simple_update` gathers between two step
-- boundaries, and the decision of `process_pdp_st`.
use rrdtool_1_x.Prelude.{ℕ, ◌+◌, ◌*◌, ◌^◌, ◌<◌, ◌≡◌, List, [], ◌∷◌, ltb, if◌then◌else◌}
use rrdtool_1_x.Prelude.Int.{pos}
use rrdtool_1_x.Prelude.Double.{Double}
use rrdtool_1_x.Format.{DataSource}
use rrdtool_1_x.Update.Pdp.{gather}

-- Doubles are exact on whole numbers below 2 ^ 53.
pub record IsExact (D : Type 0) ⦃d : Double D⦄ : Type 0 where
  pub floor-of_nat : (n : ℕ) → n < 2 ^ 53 → d.floor (d.of_nat n) ≡ d.of_nat n
  pub to_nat-of_nat : (n : ℕ) → n < 2 ^ 53 → d.to_nat (d.of_nat n) ≡ n
  pub add-of_nat : (a b : ℕ) → a + b < 2 ^ 53 → d.add (d.of_nat a) (d.of_nat b) ≡ d.of_nat (a + b)
  pub lt-of_nat : (a b : ℕ) → a < 2 ^ 53 → b < 2 ^ 53 → d.lt (d.of_nat a) (d.of_nat b) ≡ ltb a b
  pub lt-half :
      (a b : ℕ)
      → a < 2 ^ 53
      → b < 2 ^ 31
      → d.lt (d.div (d.of_nat a) (d.of_nat 2)) (d.of_int (pos b)) ≡ ltb a (2 * b)

-- the readings of one data source, each with the seconds since the one before
abbrev pub Readings : Type 0 → Type 0
Readings D = List (ℕ × D)

abbrev pub total : {D : Type 0} → Readings D → ℕ
total [] = 0
total ((t, v) ∷ rs) = t + total rs

module _ {D : Type 0} ⦃d : Double D⦄ where
  abbrev pub gather_all : DataSource D → Readings D → DataSource D
  gather_all s [] = s
  gather_all s ((t, v) ∷ rs) = gather_all (gather (d.of_nat t) s v) rs

  abbrev pub unknown_seconds : Readings D → ℕ
  unknown_seconds [] = 0
  unknown_seconds ((t, v) ∷ rs) = (if d.is_nan v then t else 0) + unknown_seconds rs
