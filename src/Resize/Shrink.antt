-- ===== src/Resize/Shrink.antt =====
-- SHRINK: the oldest rows are left out.
use rrdtool_1_x.Prelude.{
  ℕ, ◌+◌, ◌*◌, ◌-◌, ◌%◌, ◌≤◌, ◌<◌, ◌≡◌, refl, sym, ap, ◌∙◌, List, [], ◌++◌, arith, length,
  length-append, take, drop, take-all, drop-all, length-take, length-drop, take-append_le,
  drop-append_le, take-append_same, drop-append_same, drop-drop, drop-take, lt→leb_false, le→leb,
}
use mathlib.Core.List.{append-nil}
use native.Mathlib.Nat.{mul-add, mul_comm, mul-le-mul_left, mod-eq_of_lt, mod-eq-sub-mod}
use rrdtool_1_x.Format.{Rra}
use rrdtool_1_x.Resize.{Copying, copy, drop_rows, shrink_rows}
use rrdtool_1_x.Resize.History.{copying, copy_lem, drop_rows_lem, history, Resized}

module _ {D : Type 0} where
  module _ (ds_cnt amount : ℕ) (rra : Rra D) (some_rows : 0 < amount) (big : amount < rra.row_cnt)
      (inside : rra.cur_row < rra.row_cnt) where
    -- The rows after the row pointer are enough.
    branch_straight :
        (c : Copying D)
        → rra.cur_row + amount < rra.row_cnt
        → shrink_rows ds_cnt rra amount c
          ≡ (rra.cur_row, drop_rows ds_cnt amount (copy (ds_cnt * (rra.cur_row + 1)) c))
    unfolding shrink_rows
    branch_straight c room =
        let place : (rra.cur_row + amount) % rra.row_cnt ≡ rra.cur_row + amount =
          mod-eq_of_lt room in
        rw (place, lt→leb_false (rra.cur_row + amount) rra.cur_row (omega arith)) refl

    -- the rows that are removed up to the row pointer
    abbrev pub wrapped : ℕ
    wrapped = rra.cur_row + amount - rra.row_cnt + 1

    branch_wrapped :
        (c : Copying D)
        → rra.row_cnt ≤ rra.cur_row + amount
        → shrink_rows ds_cnt rra amount c ≡ (
          rra.cur_row - wrapped,
          drop_rows ds_cnt
              (amount - wrapped)
              (copy (ds_cnt * (rra.cur_row - wrapped + 1)) (drop_rows ds_cnt wrapped c)),
        )
    unfolding shrink_rows
    branch_wrapped c over =
        let place : (rra.cur_row + amount) % rra.row_cnt ≡ rra.cur_row + amount - rra.row_cnt =
          mod-eq-sub-mod over ∙ mod-eq_of_lt (omega (arith, inside, big)) in
        rw (place, le→leb (rra.cur_row + amount - rra.row_cnt) rra.cur_row (omega (arith, big)))
          refl

    module _ (cells before after : List D) (b : D)
        (size : length cells ≡ ds_cnt * rra.row_cnt) where
      pub shrink-straight :
          rra.cur_row + amount < rra.row_cnt
          → Resized ds_cnt
              (record rra { row_cnt = rra.row_cnt - amount })
              before
              after
              (drop (ds_cnt * amount) (history ds_cnt rra.cur_row cells))
              (
                record rra {
                  cur_row = (shrink_rows ds_cnt rra amount (copying (cells ++ after) before b)).0;
                  row_cnt = rra.row_cnt - amount;
                },
                (shrink_rows ds_cnt rra amount (copying (cells ++ after) before b)).1,
              )
      shrink-straight room =
          let k = ds_cnt * (rra.cur_row + 1) in
          let rows : rra.cur_row + 1 + amount ≤ rra.row_cnt = omega arith in
          let left_rows : rra.row_cnt - amount + amount ≡ rra.row_cnt = omega arith in
          let fits : k + ds_cnt * amount ≤ length cells =
            omega
              (arith, size, mul-le-mul_left ds_cnt rows, mul-add ds_cnt (rra.cur_row + 1) amount) in
          let turn = mul_comm amount ds_cnt in
          let (b', ran) =
            copy_lem k (cells ++ after) before b (omega (arith, fits, length-append cells after)) in
          record {
            written = take k cells;
            left = drop (amount * ds_cnt) (drop k cells);
            buffer = b';
            ran =
                ap (λ p. (record rra { cur_row = p.0; row_cnt = rra.row_cnt - amount }, p.1))
                  (branch_straight (copying (cells ++ after) before b) room
                    ∙ ap (λ c. (rra.cur_row, drop_rows ds_cnt amount c)) ran
                    ∙ ap (λ c. (rra.cur_row, c))
                        (drop_rows_lem ds_cnt amount (drop k (cells ++ after))
                            (before ++ take k (cells ++ after)) b'
                          ∙ rw
                              (
                                drop-append_le k cells after (omega (arith, fits)),
                                take-append_le k cells after (omega (arith, fits)),
                                drop-append_le (amount * ds_cnt) (drop k cells) after
                                    (omega (arith, length-drop k cells, fits, turn)),
                              )
                              refl));
            rows =
                length-append (take k cells) (drop (amount * ds_cnt) (drop k cells))
                ∙ omega (
                  arith,
                  length-take k cells (omega (arith, fits)),
                  length-drop (amount * ds_cnt) (drop k cells),
                  length-drop k cells,
                  turn,
                  fits,
                  size,
                  mul-add ds_cnt (rra.row_cnt - amount) amount,
                  ap (λ n. ds_cnt * n) left_rows,
                );
            inside = omega (arith, rows);
            values =
                rw
                  (
                    drop-append_same k (take k cells) (drop (amount * ds_cnt) (drop k cells))
                        (length-take k cells (omega (arith, fits))),
                    take-append_same k (take k cells) (drop (amount * ds_cnt) (drop k cells))
                        (length-take k cells (omega (arith, fits))),
                    turn,
                  )
                  (sym (
                    drop-append_le (ds_cnt * amount) (drop k cells) (take k cells)
                      (omega (arith, length-drop k cells, fits))));
          }

      -- The rows up to the row pointer are removed in part, and all those after it.
      pub shrink-wrapped :
          rra.row_cnt ≤ rra.cur_row + amount
          → Resized ds_cnt
              (record rra { cur_row = rra.cur_row - wrapped; row_cnt = rra.row_cnt - amount })
              before
              after
              (drop (ds_cnt * amount) (history ds_cnt rra.cur_row cells))
              (
                record rra {
                  cur_row = (shrink_rows ds_cnt rra amount (copying (cells ++ after) before b)).0;
                  row_cnt = rra.row_cnt - amount;
                },
                (shrink_rows ds_cnt rra amount (copying (cells ++ after) before b)).1,
              )
      shrink-wrapped over =
          let k = ds_cnt * (rra.cur_row + 1) in
          let r = wrapped * ds_cnt in
          let j = ds_cnt * (rra.cur_row - wrapped + 1) in
          let n = (amount - wrapped) * ds_cnt in
          let kept : rra.cur_row - wrapped + 1 ≡ rra.row_cnt - amount =
            omega (arith, over, big, inside) in
          let parts : wrapped + (rra.cur_row - wrapped + 1) ≡ rra.cur_row + 1 =
            omega (arith, over, big, inside) in
          let all_rows : rra.cur_row + 1 + (amount - wrapped) ≡ rra.row_cnt =
            omega (arith, over, big, inside) in
          let k_parts : k ≡ r + j =
            ap (λ m. ds_cnt * m) (sym parts)
            ∙ mul-add ds_cnt wrapped (rra.cur_row - wrapped + 1)
            ∙ ap (λ m. m + j) (mul_comm ds_cnt wrapped) in
          let all_parts : length cells ≡ k + n =
            size
            ∙ ap (λ m. ds_cnt * m) (sym all_rows)
            ∙ mul-add ds_cnt (rra.cur_row + 1) (amount - wrapped)
            ∙ ap (λ m. k + m) (mul_comm ds_cnt (amount - wrapped)) in
          let few : r ≤ length cells = omega (arith, k_parts, all_parts) in
          let tail = drop r cells in
          let tail_size : length tail ≡ j + n =
            omega (arith, length-drop r cells, k_parts, all_parts) in
          let (b', ran) =
            copy_lem j (tail ++ after) before b
              (omega (arith, tail_size, length-append tail after)) in
          let amounts : ds_cnt * amount ≡ n + r =
            ap (λ m. ds_cnt * m) (omega (arith, over, big, inside))
            ∙ mul-add ds_cnt (amount - wrapped) wrapped
            ∙ omega (arith, mul_comm ds_cnt (amount - wrapped), mul_comm ds_cnt wrapped) in
          record {
            written = take j tail;
            left = [];
            buffer = b';
            ran =
                ap (λ p. (record rra { cur_row = p.0; row_cnt = rra.row_cnt - amount }, p.1))
                  (branch_wrapped (copying (cells ++ after) before b) over
                    ∙ ap
                        (λ c.
                          (rra.cur_row - wrapped, drop_rows ds_cnt (amount - wrapped) (copy j c)))
                        (drop_rows_lem ds_cnt wrapped (cells ++ after) before b
                          ∙ ap (λ xs. copying xs before b) (drop-append_le r cells after few))
                    ∙ ap (λ c. (rra.cur_row - wrapped, drop_rows ds_cnt (amount - wrapped) c)) ran
                    ∙ ap (λ c. (rra.cur_row - wrapped, c))
                        (drop_rows_lem ds_cnt (amount - wrapped) (drop j (tail ++ after))
                            (before ++ take j (tail ++ after)) b'
                          ∙ rw
                              (
                                drop-append_le j tail after (omega (arith, tail_size)),
                                take-append_le j tail after (omega (arith, tail_size)),
                                drop-append_le n (drop j tail) after
                                    (omega (arith, length-drop j tail, tail_size)),
                                drop-all n (drop j tail)
                                    (omega (arith, length-drop j tail, tail_size)),
                              )
                              refl));
            rows =
                ap length (append-nil (take j tail))
                ∙ length-take j tail (omega (arith, tail_size))
                ∙ ap (λ m. ds_cnt * m) kept;
            inside = omega (arith, kept, big);
            values =
                ap (history ds_cnt (rra.cur_row - wrapped)) (append-nil (take j tail))
                ∙ rw
                    (
                      drop-all j (take j tail)
                          (omega (arith, length-take j tail (omega (arith, tail_size)))),
                      take-all j (take j tail)
                          (omega (arith, length-take j tail (omega (arith, tail_size)))),
                    )
                    (sym (drop-take r j cells)
                      ∙ ap (λ m. drop r (take m cells)) (sym k_parts)
                      ∙ ap (drop r) (
                          sym (
                            drop-append_same n (drop k cells) (take k cells)
                              (omega (arith, length-drop k cells, all_parts))))
                      ∙ drop-drop r n (drop k cells ++ take k cells)
                      ∙ ap (λ m. drop m (history ds_cnt rra.cur_row cells)) (sym amounts));
          }
