-- ===== src/Tests/Files.antt =====
-- Rows written to the small file.
use rrdtool_1_x.Prelude.{◌≡◌, refl, false, none, some, List, [], ◌∷◌, arith, All}
use rrdtool_1_x.Store.{File}
use rrdtool_1_x.Update.Write.{Pending, Summary, write_to_rras}
use rrdtool_1_x.Update.Write.Ring.{at_row}
use rrdtool_1_x.Update.Write.Archives.{IsReady, AllWritten, SameOutside, write_to_rras_lem}
use rrdtool_1_x.Tests.Halves.{Num}
use rrdtool_1_x.Tests.Small.{speed, each_step, every_other, five}

abbrev waiting : List (Pending Num)
waiting =
    record { rra = each_step; step_cnt = 2; skip_update = false }
    ∷ record { rra = every_other; step_cnt = 1; skip_update = false }
    ∷ []

waiting-IsReady : All (IsReady 1) waiting
waiting-IsReady = (
  record {
    row_inside = omega arith;
    rows_fit = omega arith;
    one_each = refl;
    at_most_all = omega arith;
  },
  (
    record {
      row_inside = omega arith;
      rows_fit = omega arith;
      one_each = refl;
      at_most_all = omega arith;
    },
    tt,
  ),
)

write_to_rras_example :
    (f' : File Num) × (summary' : Summary Num) × (write_to_rras
        (speed ∷ [])
        10
        125
        waiting
        0
        five
        none
      ≡ some (at_row each_step 2 ∷ at_row every_other 1 ∷ [], f', summary'))
    × AllWritten 1 0 waiting five.cells f'.cells
    × SameOutside 0 5 five.cells f'.cells
write_to_rras_example =
    write_to_rras_lem (speed ∷ []) 10 125 waiting 0 five none waiting-IsReady (omega arith)
