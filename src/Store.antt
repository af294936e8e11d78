-- ===== src/Store.antt =====
-- The open database file of src/rrd_open.c, as the mmap build keeps it: `rrd_seek`, `rrd_read` and
-- `rrd_write` over the values that follow the header. Position `p` is the byte
-- header_len + p * sizeof(rrd_value_t), and the end of `cells` is the end of the file.
use rrdtool_1_x.Prelude.{
  ℕ, ◌+◌, Option, none, some, List, ltb, if◌then◌else◌, length, get_elem?, set,
}
use mathlib.Core.Option

pub record File (D : Type 0) : Type 0 where
  pub pos : ℕ
  pub cells : List D

module _ {D : Type 0} where
  unfoldable pub rrd_seek : File D → ℕ → File D
  rrd_seek f off = record f { pos = off }

  -- one value; `none` is the short read at the end of the file
  unfoldable pub rrd_read : File D → Option (D × File D)
  rrd_read f = Option.map (λ v. (v, record f { pos = f.pos + 1 })) (get_elem? f.cells f.pos)

  -- one value; `none` is the refusal to write beyond the end of the file
  unfoldable pub rrd_write : File D → D → Option (File D)
  rrd_write f v =
      if ltb f.pos (length f.cells)
      then some (record { pos = f.pos + 1; cells = set f.cells f.pos v })
      else none
