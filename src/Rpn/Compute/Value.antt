-- ===== src/Rpn/Compute/Value.antt =====
-- A COMPUTE data source has the value of its expression at the rates of the other data sources.
use rrdtool_1_x.Prelude.{ℕ, ◌<◌, ◌≡◌, refl, List, length, get_or}
use rrdtool_1_x.Prelude.Int.{pos}
use rrdtool_1_x.Prelude.Double.{Double}
use rrdtool_1_x.Rpn.{op_number, op_variable, Rpnp, Math}
use rrdtool_1_x.Rpn.Compact.{blank}
use rrdtool_1_x.Rpn.Ranges.{Run, ran, failed, wild, left_out, ◌>>=◌}
use rrdtool_1_x.Rpn.Calc.Correct.{Expr, number, source, apply, combine, if_else, limited}

pub Run-elim :
    {A B C : Type 0} (m : Run A) {f : A → Run B} {b : B}
    → (m >>= f) ≡ ran b
    → ((a : A) → m ≡ ran a → f a ≡ ran b → C)
    → C
Run-elim (ran a) h k = k a refl h
Run-elim (failed e) h k = cc
Run-elim wild h k = cc
Run-elim left_out h k = cc

pub ran_inj : {A : Type 0} {a b : A} → ran a ≡ ran b → a ≡ b
ran_inj h = cc

module _ {D : Type 0} ⦃d : Double D⦄ ⦃m : Math D⦄ (rates : List D) where
  -- the rate of a data source, if there is one
  abbrev pub rate : ℕ → D
  rate i = get_or rates i d.nan

  abbrev pub variable_node : ℕ → Rpnp D
  variable_node i = record (blank op_variable) { ptr = pos i }

  abbrev filled_node : ℕ → Rpnp D
  filled_node i = record (blank op_number) { val = rate i; ptr = pos i }

  -- every data source has a rate
  abbrev pub IsFilled : Expr D → Type 0
  IsFilled (number v) = Unit
  IsFilled (source i) = i < length rates
  IsFilled (apply op e) = IsFilled e
  IsFilled (combine op a b) = IsFilled a × IsFilled b
  IsFilled (if_else a b e) = IsFilled a × IsFilled b × IsFilled e
  IsFilled (limited a b e) = IsFilled a × IsFilled b × IsFilled e
