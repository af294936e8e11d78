-- ===== src/Resize.antt =====
-- `rrd_resize` of src/rrd_resize.c, from the check of the archive's number on: the old file is read
-- from its first value on, and the new one is written in order, up to its size. The error of a write
-- that does not fit is ignored, as it is in the code.
pub mod History
pub mod Grow
pub mod Shrink
pub mod Whole
use rrdtool_1_x.Prelude.{
  ◌>>=◌, ℕ, zero, suc, ◌+◌, ◌*◌, ◌-◌, ◌%◌, Bool, true, false, Option, none, some, List, [], ◌∷◌,
  ◌++◌, ltb, leb, ◌==◌, if◌then◌else◌, length, get_elem?, set, drop, take,
}
use rrdtool_1_x.Prelude.Double.{Double}
use rrdtool_1_x.Format.{Rra}

-- what is left of the old file, what is written to the new one, and `buffer`
pub record Copying (D : Type 0) : Type 0 where
  pub input : List D
  pub output : List D
  pub buffer : D

pub data Mode : Type 0 where
  grow shrink : Mode

module _ {D : Type 0} where
  -- At the end of the file the buffer stays.
  unfoldable pub read_value : Copying D → Copying D
  read_value c = elim c.input [ [] ↦ c | v ∷ vs ↦ record c { input = vs; buffer = v } ]

  unfoldable pub write_value : Copying D → Copying D
  write_value c = record c { output = c.output ++ (c.buffer ∷ []) }

  unfoldable pub copy : ℕ → Copying D → Copying D
  unfolding read_value write_value
  copy zero c = c
  copy (suc n) c = copy n (write_value (read_value c))

  unfoldable pub fill : ℕ → Copying D → Copying D
  unfolding write_value
  fill zero c = c
  fill (suc n) c = fill n (write_value c)

  -- `rrd_seek` from here on
  abbrev pub skip : ℕ → Copying D → Copying D
  skip n c = record c { input = drop n c.input }

  -- the last loop: what does not fit the new file is ignored
  unfoldable pub copy_rest : ℕ → List D → List D → List D
  copy_rest file_len [] output = output
  copy_rest file_len (v ∷ vs) output =
      copy_rest file_len vs (if ltb (length output) file_len then output ++ (v ∷ []) else output)

  abbrev pub values_of : ℕ → List (Rra D) → ℕ
  values_of ds_cnt [] = 0
  values_of ds_cnt (rra ∷ rras) = ds_cnt * rra.row_cnt + values_of ds_cnt rras

  -- one more row is skipped, and the archive is shorter by it
  unfoldable pub drop_rows : ℕ → ℕ → Copying D → Copying D
  drop_rows ds_cnt zero c = c
  drop_rows ds_cnt (suc n) c = drop_rows ds_cnt n (skip ds_cnt c)

  -- the rows of the archive, `amount` of them removed, and the new row pointer
  unfoldable pub shrink_rows : ℕ → Rra D → ℕ → Copying D → ℕ × Copying D
  unfolding drop_rows
  shrink_rows ds_cnt rra amount c =
      let remove_end = (rra.cur_row + amount) % rra.row_cnt in
      if leb remove_end rra.cur_row
      then (
        rra.cur_row - (remove_end + 1),
        drop_rows ds_cnt (amount - (remove_end + 1)) (
            copy (ds_cnt * (rra.cur_row - (remove_end + 1) + 1))
              (drop_rows ds_cnt (remove_end + 1) c)),
      )
      else (rra.cur_row, drop_rows ds_cnt amount (copy (ds_cnt * (rra.cur_row + 1)) c))

module _ {D : Type 0} ⦃d : Double D⦄ where
  unfoldable pub grow_rows : ℕ → Rra D → ℕ → Copying D → Copying D
  unfolding copy fill
  grow_rows ds_cnt rra amount c =
      fill (ds_cnt * amount) (record (copy (ds_cnt * (rra.cur_row + 1)) c) { buffer = d.nan })

  -- the archive afterwards, and its rows
  unfoldable pub resize_rows : ℕ → Mode → ℕ → Rra D → Copying D → Rra D × Copying D
  unfolding shrink_rows grow_rows
  resize_rows ds_cnt grow amount rra c =
      (record rra { row_cnt = rra.row_cnt + amount }, grow_rows ds_cnt rra amount c)
  resize_rows ds_cnt shrink amount rra c =
      let (cur_row, c') = shrink_rows ds_cnt rra amount c in
      (record rra { cur_row = cur_row; row_cnt = rra.row_cnt - amount }, c')

  -- "Move the rest of the CDPs", into a file of the new size
  abbrev pub finish_resize : ℕ → List (Rra D) → ℕ → Rra D × Copying D → List (Rra D) × List D
  finish_resize ds_cnt rras target_rra (rra', c) =
      let rras' = set rras target_rra rra' in
      (rras', copy_rest (values_of ds_cnt rras') c.input c.output)

  -- `buffer` is what the buffer holds before the first value is read.
  unfoldable pub resize_data :
      D → ℕ → List (Rra D) → ℕ → Rra D → Mode → ℕ → List D → List (Rra D) × List D
  unfolding resize_rows copy_rest
  resize_data buffer ds_cnt rras target_rra rra mode amount cells =
      let start : Copying D = record { input = cells; output = []; buffer = buffer } in
      let moved = copy (values_of ds_cnt (take target_rra rras)) start in
      finish_resize ds_cnt rras target_rra (resize_rows ds_cnt mode amount rra moved)

  -- "This RRA is not that big"
  unfoldable pub too_small : Mode → ℕ → Rra D → Bool
  too_small grow amount rra = false
  too_small shrink amount rra = leb rra.row_cnt amount

  -- `none` is "Please grow or shrink with at least 1 row", "no such RRA" or "not that big".
  unfoldable pub rrd_resize :
      D → ℕ → List (Rra D) → ℕ → Mode → ℕ → List D → Option (List (Rra D) × List D)
  unfolding resize_data too_small
  rrd_resize buffer ds_cnt rras target_rra mode amount cells =
      if amount == 0
      then none
      else get_elem? rras target_rra >>= λ rra.
          if too_small mode amount rra
          then none
          else some (resize_data buffer ds_cnt rras target_rra rra mode amount cells)
