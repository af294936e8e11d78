-- ===== src/Resize/Grow.antt =====
-- GROW: unknown rows are put in before the oldest.
use rrdtool_1_x.Prelude.{
  ℕ, ◌+◌, ◌*◌, ◌≤◌, ◌<◌, ◌≡◌, refl, ap, ◌∙◌, List, ◌++◌, arith, length, length-append, take, drop,
  replicate, length-replicate, length-take, length-drop, take-append_le, drop-append_le,
  take-append_same, drop-append_same,
}
use rrdtool_1_x.Prelude.Double.{Double}
use mathlib.Core.List.{append_assoc}
use native.Mathlib.Nat.{mul-add, mul-le-mul_left}
use rrdtool_1_x.Format.{Rra}
use rrdtool_1_x.Resize.{grow, fill, grow_rows, resize_rows}
use rrdtool_1_x.Resize.History.{copying, copy_lem, fill_lem, history, Resized}

module _ {D : Type 0} ⦃d : Double D⦄ where
  pub grow-Resized :
      (ds_cnt amount : ℕ) (rra : Rra D) (cells before after : List D) (b : D)
      → length cells ≡ ds_cnt * rra.row_cnt
      → rra.cur_row < rra.row_cnt
      → Resized ds_cnt
          (record rra { row_cnt = rra.row_cnt + amount })
          before
          after
          (replicate (ds_cnt * amount) d.nan ++ history ds_cnt rra.cur_row cells)
          (resize_rows ds_cnt grow amount rra (copying (cells ++ after) before b))
  unfolding resize_rows grow_rows
  grow-Resized ds_cnt amount rra cells before after b size inside =
      let k = ds_cnt * (rra.cur_row + 1) in
      let last_row : rra.cur_row + 1 ≤ rra.row_cnt = omega arith in
      let few : k ≤ length cells = omega (arith, size, mul-le-mul_left ds_cnt last_row) in
      let unknown = replicate (ds_cnt * amount) d.nan in
      let (b', ran) =
        copy_lem k (cells ++ after) before b (omega (arith, few, length-append cells after)) in
      let joined = append_assoc (take k cells) unknown (drop k cells) in
      record {
        written = take k cells ++ unknown;
        left = drop k cells;
        buffer = d.nan;
        ran =
            ap (λ c. (record rra { row_cnt = rra.row_cnt + amount }, c))
              (ap (λ c. fill (ds_cnt * amount) (record c { buffer = d.nan })) ran
                ∙ fill_lem (ds_cnt * amount) (drop k (cells ++ after))
                    (before ++ take k (cells ++ after)) d.nan
                ∙ rw
                    (
                      drop-append_le k cells after few,
                      take-append_le k cells after few,
                      append_assoc before (take k cells) unknown,
                    )
                    refl);
        rows =
            ap length joined
            ∙ omega (
              arith,
              length-append (take k cells) (unknown ++ drop k cells),
              length-append unknown (drop k cells),
              length-take k cells few,
              length-drop k cells,
              length-replicate (ds_cnt * amount) d.nan,
              size,
              few,
              mul-add ds_cnt rra.row_cnt amount,
            );
        inside = omega (arith, inside);
        values =
            ap (history ds_cnt rra.cur_row) joined
            ∙ rw
                (
                  drop-append_same k (take k cells) (unknown ++ drop k cells)
                      (length-take k cells few),
                  take-append_same k (take k cells) (unknown ++ drop k cells)
                      (length-take k cells few),
                )
                (append_assoc unknown (drop k cells) (take k cells));
      }
