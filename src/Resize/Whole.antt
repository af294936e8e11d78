-- ===== src/Resize/Whole.antt =====
-- `rrd_resize` on a whole file.
use rrdtool_1_x.Prelude.{ℕ, ◌+◌, ◌-◌, List, ◌++◌, drop, replicate}
use rrdtool_1_x.Prelude.Double.{Double}
use rrdtool_1_x.Resize.{Mode, grow, shrink}

abbrev pub resized_count : Mode → ℕ → ℕ → ℕ
resized_count grow amount rows = rows + amount
resized_count shrink amount rows = rows - amount

module _ {D : Type 0} ⦃d : Double D⦄ where
  abbrev pub resized_history : Mode → ℕ → List D → List D
  resized_history grow n values = replicate n d.nan ++ values
  resized_history shrink n values = drop n values
