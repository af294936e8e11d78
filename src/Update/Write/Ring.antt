-- ===== src/Update/Write/Ring.antt =====
-- What `write_rows` leaves in an archive: the rows from the one after `cur_row` on, round the ring.
use rrdtool_1_x.Prelude.{
  ℕ, zero, suc, ◌+◌, ◌-◌, ◌*◌, ◌≤◌, ◌<◌, ◌≡◌, refl, ap, sym, ◌∙◌, ◌≢◌, ◌⊎◌, inl, inr, false, some,
  List, map, arith, ltb, leb, ◌==◌, if◌then◌else◌, length, get_elem?, length-map, lt→leb_false,
  le→leb, add_u64_fits, word, mul_u64, ◌%◌,
}
use native.Mathlib.Nat.{mul-le-mul_left, mod-add-mod, mod_self, mod-eq_of_lt}
use native.Mathlib.Decide.{dec_lt, dec_le, ℕ_discrete}
use rrdtool_1_x.Format.{Rra, DataSource}
use rrdtool_1_x.Store.{File, rrd_seek}
use rrdtool_1_x.Update.Write.{
  Summary, ScratchIdx, secondary, scratch_val, next_row, write_rra_row, write_rows, summary_time,
}
use rrdtool_1_x.Update.Write.Rows.{Spliced, write_rra_row_lem}

-- how many times the row pointer must move on from `cur_row` to come to row `r`
abbrev pub steps_to : ℕ → ℕ → ℕ → ℕ
steps_to row_cnt cur_row r = if ltb cur_row r then r - cur_row else r + row_cnt - cur_row

pub next_row-lt : (cur n : ℕ) → cur < n → n < word → next_row cur n < n
unfolding next_row
next_row-lt cur n h k = rw (add_u64_fits cur 1 (omega arith)) (ground arith)

steps_to-next :
    (cur n r : ℕ)
    → cur < n
    → n < word
    → r < n
    → r ≢ next_row cur n
    → steps_to n cur r ≡ suc (steps_to n (next_row cur n) r)
unfolding next_row
steps_to-next cur n r h k l ne = let fits = add_u64_fits cur 1 (omega arith) in ground (arith, fits)

steps_to-next_self : (cur n : ℕ) → cur < n → n < word → steps_to n cur (next_row cur n) ≡ 1
unfolding next_row
steps_to-next_self cur n h k = rw (add_u64_fits cur 1 (omega arith)) (ground arith)

pub steps_to_pos : (n cur r : ℕ) → cur < n → r < n → (1 ≤ steps_to n cur r) × (steps_to n cur r ≤ n)
steps_to_pos n cur r h k = ground arith

pub steps_to_self : (n r : ℕ) → r < n → steps_to n r r ≡ n
steps_to_self n r h = ground arith

-- a value of row `r` lies before those of row `q`
pub row-lt-row : (ds r q k : ℕ) → r < q → k < ds → ds * r + k < ds * q
row-lt-row ds r q k h l = omega (arith, mul-le-mul_left ds h)

module _ {D : Type 0} where
  -- What the rows of an archive hold after `count` of them are written, from the one after `cur_row`
  -- on, the first with the values at `idx`, the others with the secondary ones.
  abbrev pub RowsOf : Rra D → ℕ → ℕ → ℕ → ScratchIdx → List D → List D → Type 0
  RowsOf rra start ds count idx old new =
      (r k : ℕ)
      → r < rra.row_cnt
      → k < ds
      → let s = steps_to rra.row_cnt rra.cur_row r in
        get_elem? new (start + (ds * r + k)) ≡ (
          if leb s count
          then get_elem? (map (scratch_val (if s == 1 then idx else secondary)) rra.cdps) k
          else get_elem? old (start + (ds * r + k)))

  -- That, and nothing else of the file changes.
  pub record RowsWritten (rra : Rra D) (start ds count : ℕ) (idx : ScratchIdx) (old new : List D)
      : Type 0 where
    pub same_length : length new ≡ length old
    pub rows : RowsOf rra start ds count idx old new
    pub outside :
        (i : ℕ) → (i < start) ⊎ (start + ds * rra.row_cnt ≤ i) → get_elem? new i ≡ get_elem? old i

  abbrev pub at_row : Rra D → ℕ → Rra D
  at_row rra cur = record rra { cur_row = cur }

  pub rows-zero :
      (rra : Rra D) (start ds : ℕ) (idx : ScratchIdx) (old : List D)
      → rra.cur_row < rra.row_cnt
      → RowsWritten rra start ds 0 idx old old
  rows-zero rra start ds idx old h = record {
    same_length = refl;
    rows = λ r k l m.
        rw
          (lt→leb_false (steps_to rra.row_cnt rra.cur_row r) 0
            (steps_to_pos rra.row_cnt rra.cur_row r h l).0)
          refl;
    outside = λ i o. refl;
  }

  module _ (rra : Rra D) (start ds count : ℕ) (idx : ScratchIdx) (old mid new : List D)
      (inside : rra.cur_row < rra.row_cnt) (fits : rra.row_cnt < word) (size : length rra.cdps ≡ ds)
      (few : suc count ≤ rra.row_cnt)
      (first : Spliced old mid
        (start + ds * next_row rra.cur_row rra.row_cnt)
        (map (scratch_val idx) rra.cdps))
      (rest : RowsWritten
        (at_row rra (next_row rra.cur_row rra.row_cnt))
        start
        ds
        count
        secondary
        mid
        new) where
    next : ℕ
    next = next_row rra.cur_row rra.row_cnt

    row_of_next :
        (k : ℕ)
        → k < ds
        → get_elem? new (start + (ds * next + k)) ≡ get_elem? (map (scratch_val idx) rra.cdps) k
    unfolding next
    row_of_next k m =
        let here = next_row-lt rra.cur_row rra.row_cnt inside fits in
        let size' = length-map rra.cdps (scratch_val idx) in
        let kept : leb (steps_to rra.row_cnt next next) count ≡ false =
          rw (steps_to_self rra.row_cnt next here) (lt→leb_false rra.row_cnt count few) in
        let after = rest.rows next k here m in
        rw kept at after ∙ ap (get_elem? mid) (omega arith) ∙ first.inside k (omega arith)

    other_row :
        (r k : ℕ)
        → r < rra.row_cnt
        → k < ds
        → r ≢ next
        → let s = steps_to rra.row_cnt next r in
          get_elem? new (start + (ds * r + k)) ≡ (
            if leb s count
            then get_elem? (map (scratch_val secondary) rra.cdps) k
            else get_elem? old (start + (ds * r + k)))
    unfolding next
    other_row r k l m ne =
        let size' = length-map rra.cdps (scratch_val idx) in
        let apart : (start + (ds * r + k) < start + ds * next)
            ⊎ (start + ds * next + length (map (scratch_val idx) rra.cdps) ≤ start + (ds * r + k)) =
          elim (dec_lt r next) [
            | yes p ↦ inl (omega (arith, row-lt-row ds r next k p m))
            | no p ↦ inr (omega (arith, mul-le-mul_left {m = suc next} {n = r} ds (omega arith)))
          ] in
        let untouched = first.outside (start + (ds * r + k)) apart in
        ground (arith, rest.rows r k l m, untouched)

    pub rows-suc : RowsWritten rra start ds (suc count) idx old new
    unfolding next
    rows-suc = record {
      same_length = rest.same_length ∙ first.same_length;
      rows = λ r k l m. elim (ℕ_discrete r next) [
        | yes e ↦
            rw
              (
                e,
                steps_to-next_self rra.cur_row rra.row_cnt inside fits,
                le→leb 1 (suc count) (omega arith),
              )
              (row_of_next k m)
        | no ne ↦
            let later = steps_to-next rra.cur_row rra.row_cnt r inside fits l ne in
            let here = next_row-lt rra.cur_row rra.row_cnt inside fits in
            let pos = steps_to_pos rra.row_cnt next r here l in
            rw later (ground (arith, other_row r k l m ne, pos))
      ];
      outside = λ i o. rest.outside i o ∙ first.outside i (away i o);
    }
      where
        away :
            (i : ℕ)
            → (i < start) ⊎ (start + ds * rra.row_cnt ≤ i)
            → (i < start + ds * next)
              ⊎ (start + ds * next + length (map (scratch_val idx) rra.cdps) ≤ i)
        away i o =
            let here = next_row-lt rra.cur_row rra.row_cnt inside fits in
            omega (
              arith,
              length-map rra.cdps (scratch_val idx),
              mul-le-mul_left {m = suc (next_row rra.cur_row rra.row_cnt)} {n = rra.row_cnt} ds
                  here,
            )

next_row-eq-mod : (cur n : ℕ) → cur < n → n < word → next_row cur n ≡ (cur + 1) % n
unfolding next_row
next_row-eq-mod cur n h k = rw (add_u64_fits cur 1 (omega arith)) elim (dec_le n (cur + 1)) [
  | yes p ↦
      let e : cur + 1 ≡ n = omega arith in
      rw (le→leb n (cur + 1) p) (rw e (omega (arith, mod_self n)))
  | no p ↦
      rw (lt→leb_false n (cur + 1) (omega arith))
        (sym (mod-eq_of_lt {n = cur + 1} {m = n} (omega arith)))
]

pub advance :
    (cur n count : ℕ) → cur < n → n < word → (next_row cur n + count) % n ≡ (cur + suc count) % n
advance cur n count h k =
    ap (λ r. (r + count) % n) (next_row-eq-mod cur n h k)
    ∙ mod-add-mod (cur + 1) n count
    ∙ ap (λ m. m % n) (omega arith)

module _ {D : Type 0} (sources : List (DataSource D)) (pdp_step now : ℕ) where
  pub sought :
      (f : File D) (p : ℕ) → (if f.pos == p then f else rrd_seek f p) ≡ record f { pos = p }
  unfolding rrd_seek
  sought f p = ground arith

  write_rows-suc :
      (rra : Rra D) (start count : ℕ) (idx : ScratchIdx) (sub : ℕ) (f f1 : File D)
      (summary summary1 : Summary D)
      → let next = next_row rra.cur_row rra.row_cnt in
        write_rra_row rra sources rra.cdps idx
            (summary_time now (mul_u64 rra.pdp_cnt pdp_step) (suc count) sub summary)
            (record f { pos = start + length sources * next })
            summary
          ≡ some (f1, summary1)
        → write_rows sources pdp_step now rra false start (suc count) idx sub f summary
          ≡ write_rows sources pdp_step now
              (at_row rra next)
              false
              start
              count
              secondary
              2
              f1
              summary1
  unfolding write_rows
  write_rows-suc rra start count idx sub f f1 summary summary1 e =
      rw (write_rows, sought f (start + length sources * next_row rra.cur_row rra.row_cnt), e) refl

  -- If the archive lies within the file, its row pointer is inside it and there are at most as many
  -- rows to write as it has, `write_rows` without a skip succeeds, moves the row pointer on by the
  -- number of rows, round the ring, and puts each row where the pointer then stood, the first with
  -- the values at `idx` and the others with the secondary ones; nothing else of the file changes.
  pub write_rows_lem :
      (rra : Rra D) (start count : ℕ) (idx : ScratchIdx) (sub : ℕ) (f : File D)
      (summary : Summary D)
      → rra.cur_row < rra.row_cnt
      → rra.row_cnt < word
      → length rra.cdps ≡ length sources
      → count ≤ rra.row_cnt
      → start + length sources * rra.row_cnt ≤ length f.cells
      → (f' : File D) × (summary' : Summary D) × (write_rows sources pdp_step now rra false start
            count idx sub f summary
          ≡ some (at_row rra ((rra.cur_row + count) % rra.row_cnt), f', summary'))
        × RowsWritten rra start (length sources) count idx f.cells f'.cells
  unfolding write_rows
  write_rows_lem rra start zero idx sub f summary inside fits size few room = (
    f,
    summary,
    ap (λ c. some (at_row rra c, f, summary))
        (omega (arith, mod-eq_of_lt {n = rra.cur_row + 0} {m = rra.row_cnt} (omega arith))),
    rows-zero rra start (length sources) idx f.cells inside,
  )
  write_rows_lem rra start (suc count) idx sub f summary inside fits size few room =
      let ds = length sources in
      let next = next_row rra.cur_row rra.row_cnt in
      let here = next_row-lt rra.cur_row rra.row_cnt inside fits in
      let last_row = mul-le-mul_left {m = suc next} {n = rra.row_cnt} ds here in
      let (f1, summary1, wrote, _, first) =
        write_rra_row_lem rra sources rra.cdps idx
          (summary_time now (mul_u64 rra.pdp_cnt pdp_step) (suc count) sub summary)
          (record f { pos = start + ds * next }) summary (sym size) (omega arith) in
      let (f2, summary2, ran, rest) =
        write_rows_lem (at_row rra next) start count secondary 2 f1 summary1 here fits size
          (omega arith) (omega (arith, first.same_length)) in
      (
        f2,
        summary2,
        write_rows-suc rra start count idx sub f f1 summary summary1 wrote
            ∙ ran
            ∙ ap (λ c. some (at_row rra c, f2, summary2))
                (advance rra.cur_row rra.row_cnt count inside fits),
        rows-suc rra start ds count idx f.cells f1.cells f2.cells inside fits size few first rest,
      )
