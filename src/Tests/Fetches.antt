-- ===== src/Tests/Fetches.antt =====
-- The choice of an archive and the rows read from it.
use rrdtool_1_x.Prelude.{◌≡◌, refl, some, [], ◌∷◌, arith, inr}
use rrdtool_1_x.Prelude.Int.{pos}
use rrdtool_1_x.Store.{File}
use rrdtool_1_x.Fetch.{fetch_rows}
use rrdtool_1_x.Fetch.Rows.{fetch_rows_lem}
use rrdtool_1_x.Tests.Halves.{Num, halves}
use rrdtool_1_x.Tests.Small.{whole}

abbrev numbered : File Num
numbered = record { pos = 2; cells = whole 1 ∷ whole 2 ∷ whole 3 ∷ whole 4 ∷ whole 5 ∷ [] }

-- Three rows from row 2 on, of an archive of three.
fetch_rows_example : fetch_rows 0 1 3 3 (pos 0) 2 numbered ≡ some (whole 3 ∷ whole 1 ∷ whole 2 ∷ [])
fetch_rows_example =
    fetch_rows_lem 0 1 3 (omega arith) 3 0 2 numbered (omega arith) (omega arith) (inr refl)
      (omega arith)
