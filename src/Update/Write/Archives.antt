-- ===== src/Update/Write/Archives.antt =====
-- `write_to_rras` over all archives: each keeps to its own part of the file.
use rrdtool_1_x.Prelude.{
  ℕ, zero, suc, ◌+◌, ◌*◌, ◌%◌, ◌≤◌, ◌<◌, ◌≡◌, refl, ap, ◌∙◌, ◌⊎◌, inl, inr, true, some, List, [],
  ◌∷◌, map, arith, leb, ◌==◌, if◌then◌else◌, length, get_elem?, Bool-cases, word, All,
}
use native.Mathlib.Nat.{mul_comm, mod-eq_of_lt}
use rrdtool_1_x.Format.{Rra, DataSource}
use rrdtool_1_x.Store.{File}
use rrdtool_1_x.Update.Write.{
  Summary, ScratchIdx, scratch_val, primary, secondary, next_row, write_rows, Pending,
  write_to_rras,
}
use rrdtool_1_x.Update.Write.Ring.{
  RowsWritten, RowsOf, rows-zero, at_row, write_rows_lem, next_row-lt, advance, row-lt-row,
  steps_to, sought,
}

module _ {D : Type 0} where
  -- what an archive needs to be written to
  pub record IsReady (ds_cnt : ℕ) (p : Pending D) : Type 0 where
    pub row_inside : p.rra.cur_row < p.rra.row_cnt
    pub rows_fit : p.rra.row_cnt < word
    pub one_each : length p.rra.cdps ≡ ds_cnt
    pub at_most_all : p.step_cnt ≤ p.rra.row_cnt

  -- how many values the archives hold
  abbrev pub extent : ℕ → List (Pending D) → ℕ
  extent ds_cnt [] = 0
  extent ds_cnt (p ∷ ps) = p.rra.row_cnt * ds_cnt + extent ds_cnt ps

  -- how many rows of an archive are written
  abbrev pub written : Pending D → ℕ
  written p = if p.skip_update then 0 else p.step_cnt

  -- every archive, from `start` on, has its rows written
  abbrev pub AllWritten : ℕ → ℕ → List (Pending D) → List D → List D → Type 0
  AllWritten ds_cnt start [] old new = Unit
  AllWritten ds_cnt start (p ∷ ps) old new =
      RowsOf p.rra start ds_cnt (written p) primary old new
      × AllWritten ds_cnt (start + p.rra.row_cnt * ds_cnt) ps old new

  abbrev pub moved : Pending D → Rra D
  moved p = at_row p.rra ((p.rra.cur_row + p.step_cnt) % p.rra.row_cnt)

  -- `new` differs from `old` between `lo` and `hi` only.
  abbrev pub SameOutside : ℕ → ℕ → List D → List D → Type 0
  SameOutside lo hi old new =
      (length new ≡ length old)
      × ((i : ℕ) → (i < lo) ⊎ (hi ≤ i) → get_elem? new i ≡ get_elem? old i)

  -- Rows stay as written while nothing of their archive changes.
  rows_after :
      (rra : Rra D) (start ds count : ℕ) (idx : ScratchIdx) (old mid new : List D)
      → RowsOf rra start ds count idx old mid
      → ((i : ℕ) → i < start + ds * rra.row_cnt → get_elem? new i ≡ get_elem? mid i)
      → RowsOf rra start ds count idx old new
  rows_after rra start ds count idx old mid new w same r k l m =
      same (start + (ds * r + k)) (omega (arith, row-lt-row ds r rra.row_cnt k l m)) ∙ w r k l m

  -- What the file held before the earlier archives were written is the same from `start` on.
  rows_before :
      (ds start : ℕ) (ps : List (Pending D)) (old mid new : List D)
      → AllWritten ds start ps mid new
      → ((i : ℕ) → start ≤ i → get_elem? mid i ≡ get_elem? old i)
      → AllWritten ds start ps old new
  rows_before ds start [] old mid new w same = tt
  rows_before ds start (p ∷ ps) old mid new w same = (
    λ r k l m. w.0 r k l m ∙ both r k,
    rows_before ds (start + p.rra.row_cnt * ds) ps old mid new w.1 (λ i h. same i (omega arith)),
  )
    where
      both :
          (r k : ℕ)
          → let s = steps_to p.rra.row_cnt p.rra.cur_row r in
            let written_value =
              get_elem? (map (scratch_val (if s == 1 then primary else secondary)) p.rra.cdps) k in
            (if leb s (written p) then written_value else get_elem? mid (start + (ds * r + k)))
            ≡ (if leb s (written p) then written_value else get_elem? old (start + (ds * r + k)))
      both r k = rw (same (start + (ds * r + k)) (omega arith)) refl

  module _ (sources : List (DataSource D)) (pdp_step now : ℕ) where
    -- a skipped archive
    write_rows-skip :
        (rra : Rra D) (start count : ℕ) (idx : ScratchIdx) (sub : ℕ) (f : File D)
        (summary : Summary D)
        → rra.cur_row < rra.row_cnt
        → rra.row_cnt < word
        → (pos : ℕ) × (write_rows sources pdp_step now rra true start count idx sub f summary
            ≡ some
                (at_row rra ((rra.cur_row + count) % rra.row_cnt), record f { pos = pos }, summary))
    unfolding write_rows
    write_rows-skip rra start zero idx sub f summary h k = (
      f.pos,
      ap (λ c. some (at_row rra c, f, summary))
          (omega (arith, mod-eq_of_lt {n = rra.cur_row + 0} {m = rra.row_cnt} (omega arith))),
    )
    write_rows-skip rra start (suc count) idx sub f summary h k =
        let next = next_row rra.cur_row rra.row_cnt in
        let p = start + length sources * next in
        let (pos, e) =
          write_rows-skip (at_row rra next) start count secondary 2 (record f { pos = p }) summary
            (next_row-lt rra.cur_row rra.row_cnt h k) k in
        (
          pos,
          rw (write_rows, sought sources pdp_step now f p) e
              ∙ ap (λ c. some (at_row rra c, record f { pos = pos }, summary))
                  (advance rra.cur_row rra.row_cnt count h k),
        )

    write_one :
        (p : Pending D) (start : ℕ) (f : File D) (summary : Summary D)
        → IsReady (length sources) p
        → start + length sources * p.rra.row_cnt ≤ length f.cells
        → (f' : File D) × (summary' : Summary D) × (write_rows sources pdp_step now p.rra
              p.skip_update start p.step_cnt primary 1 f summary
            ≡ some (moved p, f', summary'))
          × RowsWritten p.rra start (length sources) (written p) primary f.cells f'.cells
    write_one p start f summary ready room = elim (Bool-cases p.skip_update) [
      | inl e ↦
          let (pos, ran) =
            write_rows-skip p.rra start p.step_cnt primary 1 f summary ready.row_inside
              ready.rows_fit in
          rw e (
            record f { pos = pos },
            summary,
            ran,
            rows-zero p.rra start (length sources) primary f.cells ready.row_inside,
          )
      | inr e ↦ rw e (
          write_rows_lem sources pdp_step now p.rra start p.step_cnt primary 1 f summary
            ready.row_inside ready.rows_fit ready.one_each ready.at_most_all room)
    ]

    write_to_rras-cons :
        (p : Pending D) (ps : List (Pending D)) (start : ℕ) (f f1 f2 : File D)
        (summary summary1 summary2 : Summary D) (rra : Rra D) (rras : List (Rra D))
        → write_rows sources pdp_step now p.rra p.skip_update start p.step_cnt primary 1 f summary
          ≡ some (rra, f1, summary1)
        → write_to_rras sources pdp_step now ps (start + p.rra.row_cnt * length sources) f1 summary1
          ≡ some (rras, f2, summary2)
        → write_to_rras sources pdp_step now (p ∷ ps) start f summary
          ≡ some (rra ∷ rras, f2, summary2)
    unfolding write_to_rras
    write_to_rras-cons p ps start f f1 f2 summary summary1 summary2 rra rras e g =
        rw (write_to_rras, e, g) refl

    -- If every archive is ready and they all lie within the file, `write_to_rras` succeeds: each row
    -- pointer moves on by its number of rows, round the ring; the rows that it passes get the
    -- primary values first and the secondary ones after that, unless the archive is skipped; every
    -- other row and all of the file outside the archives is as before.
    pub write_to_rras_lem :
        (ps : List (Pending D)) (start : ℕ) (f : File D) (summary : Summary D)
        → All (IsReady (length sources)) ps
        → start + extent (length sources) ps ≤ length f.cells
        → (f' : File D) × (summary' : Summary D) × (write_to_rras sources pdp_step now ps start f
              summary
            ≡ some (map moved ps, f', summary'))
          × AllWritten (length sources) start ps f.cells f'.cells
          × SameOutside start (start + extent (length sources) ps) f.cells f'.cells
    unfolding write_to_rras
    write_to_rras_lem [] start f summary ready room = (f, summary, refl, tt, (refl, λ i o. refl))
    write_to_rras_lem (p ∷ ps) start f summary ready room =
        let ds = length sources in
        let swap = mul_comm p.rra.row_cnt ds in
        let (f1, summary1, ran1, w1) = write_one p start f summary ready.0 (omega arith) in
        let (f2, summary2, ran2, w2, out2) =
          write_to_rras_lem ps (start + p.rra.row_cnt * ds) f1 summary1 ready.1
            (omega (arith, w1.same_length)) in
        (
          f2,
          summary2,
          write_to_rras-cons p ps start f f1 f2 summary summary1 summary2 (moved p) (map moved ps)
              ran1 ran2,
          (
            rows_after p.rra start ds (written p) primary f.cells f1.cells f2.cells w1.rows
                (λ i h. out2.1 i (inl (omega arith))),
            rows_before ds (start + p.rra.row_cnt * ds) ps f.cells f1.cells f2.cells w2
                (λ i h. w1.outside i (inr (omega arith))),
          ),
          (out2.0 ∙ w1.same_length, λ i o. out2.1 i (omega arith) ∙ w1.outside i (omega arith)),
        )
