-- ===== src/Update/Write.antt =====
-- Writing the finished rows: `write_to_rras` and `write_RRA_row` of src/rrd_update.c.
pub mod Rows
pub mod Ring
pub mod Archives
use rrdtool_1_x.Prelude.{
  ℕ, zero, suc, ◌+◌, ◌*◌, ◌%◌, Bool, true, false, Option, none, some, List, [], ◌∷◌, ◌++◌, leb,
  ◌==◌, if◌then◌else◌, add_u64, sub_u64, mul_u64, length,
}
use rrdtool_1_x.Format.{Cdp, Rra, DataSource}
use rrdtool_1_x.Store.{File, rrd_seek, rrd_write}

-- an entry of the summary that `rrdtool updatev` prints: "[time]RRA[cf][pdp_cnt]DS[name]"
pub record Info (D : Type 0) : Type 0 where
  pub time : ℕ
  pub cf_nam : List ℕ
  pub pdp_cnt : ℕ
  pub ds_nam : List ℕ
  pub value : D

-- `none` stands for the NULL of an update that wants no summary.
abbrev pub Summary : Type 0 → Type 0
Summary D = Option (List (Info D))

-- the two places of a row's values in `cdp_prep`
pub data ScratchIdx : Type 0 where
  primary secondary : ScratchIdx

-- an archive with its entries of `rra_step_cnt` and `skip_update`
pub record Pending (D : Type 0) : Type 0 where
  pub rra : Rra D
  pub step_cnt : ℕ
  pub skip_update : Bool

-- increment, with wrap-around
unfoldable pub next_row : ℕ → ℕ → ℕ
next_row cur_row row_cnt = if leb row_cnt (add_u64 cur_row 1) then 0 else add_u64 cur_row 1

-- the time that the summary gives for a row, `step_cnt` rows before the end
unfoldable pub row_time : ℕ → ℕ → ℕ → ℕ → ℕ
row_time current_time step_time step_cnt step_subtract =
    sub_u64 (sub_u64 current_time (current_time % step_time))
      (mul_u64 (sub_u64 step_cnt step_subtract) step_time)

module _ {D : Type 0} where
  abbrev pub scratch_val : ScratchIdx → Cdp D → D
  scratch_val primary c = c.primary_val
  scratch_val secondary c = c.secondary_val

  abbrev pub info : Rra D → DataSource D → ℕ → D → Info D
  info rra s rra_time v = record {
    time = rra_time;
    cf_nam = rra.cf_nam;
    pdp_cnt = rra.pdp_cnt;
    ds_nam = s.ds_nam;
    value = v;
  }

  abbrev pub push_info : Summary D → Info D → Summary D
  push_info none i = none
  push_info (some l) i = some (l ++ i ∷ [])

  -- one value for each data source; the file and the summary are what an update changes
  unfoldable pub write_rra_row :
      Rra D
      → List (DataSource D)
      → List (Cdp D)
      → ScratchIdx
      → ℕ
      → File D
      → Summary D
      → Option (File D × Summary D)
  write_rra_row rra [] cdps idx rra_time f summary = some (f, summary)
  write_rra_row rra (s ∷ sources) [] idx rra_time f summary = none
  write_rra_row rra (s ∷ sources) (c ∷ cdps) idx rra_time f summary =
      let pushed = push_info summary (info rra s rra_time (scratch_val idx c)) in
      elim (rrd_write f (scratch_val idx c)) [
        | none ↦ none
        | some f' ↦ write_rra_row rra sources cdps idx rra_time f' pushed
      ]

  abbrev pub summary_time : ℕ → ℕ → ℕ → ℕ → Summary D → ℕ
  summary_time current_time step_time step_cnt step_subtract none = 0
  summary_time current_time step_time step_cnt step_subtract (some _) =
      row_time current_time step_time step_cnt step_subtract

  module _ (sources : List (DataSource D)) (pdp_step current_time : ℕ) where
    -- The rows of one archive. A skipped archive moves on and writes nothing.
    unfoldable pub write_rows :
        Rra D
        → Bool
        → ℕ
        → ℕ
        → ScratchIdx
        → ℕ
        → File D
        → Summary D
        → Option (Rra D × File D × Summary D)
    write_rows rra skip rra_start zero idx step_subtract f summary = some (rra, f, summary)
    write_rows rra skip rra_start (suc step_cnt) idx step_subtract f summary =
        let cur_row = next_row rra.cur_row rra.row_cnt in
        let moved : Rra D = record rra { cur_row = cur_row } in
        let rra_pos_new = rra_start + length sources * cur_row in
        let sought = if f.pos == rra_pos_new then f else rrd_seek f rra_pos_new in
        let rra_time =
          summary_time current_time (mul_u64 rra.pdp_cnt pdp_step) (suc step_cnt) step_subtract
            summary in
        elim skip [
          | true ↦ write_rows moved true rra_start step_cnt secondary 2 sought summary
          | false ↦ elim (write_rra_row rra sources rra.cdps idx rra_time sought summary) [
            | none ↦ none
            | some (f', summary') ↦
                write_rows moved false rra_start step_cnt secondary 2 f' summary'
          ]
        ]

    -- `write_to_rras`, from the archive whose rows start at `rra_start` on
    unfoldable pub write_to_rras :
        List (Pending D) → ℕ → File D → Summary D → Option (List (Rra D) × File D × Summary D)
    write_to_rras [] rra_start f summary = some ([], f, summary)
    write_to_rras (p ∷ ps) rra_start f summary =
        elim (write_rows p.rra p.skip_update rra_start p.step_cnt primary 1 f summary) [
          | none ↦ none
          | some (rra, f', summary') ↦
              elim (write_to_rras ps (rra_start + p.rra.row_cnt * length sources) f' summary') [
                | none ↦ none
                | some (rras, f'', summary'') ↦ some (rra ∷ rras, f'', summary'')
              ]
        ]
