-- ===== src/Update/Process.antt =====
-- One update argument from the text to the file: `process_arg` of src/rrd_update.c.
pub mod Safe
pub mod Run
use rrdtool_1_x.Prelude.{
  ◌>>=◌, ℕ, suc, ◌+◌, ◌-◌, ◌%◌, ◌&&◌, not, Option, none, some, List, [], ◌∷◌, ltb, ◌==◌,
  if◌then◌else◌, length,
}
use rrdtool_1_x.Prelude.Int.{sub_ℕ}
use rrdtool_1_x.Prelude.Double.{Double}
use rrdtool_1_x.Format.{DataSource, Rrd}
use rrdtool_1_x.Update.Steps.{calculate_elapsed_steps}
use rrdtool_1_x.Update.Write.{Summary, write_to_rras}
use rrdtool_1_x.Update.Pdp.{simple_update, process_all_pdp_st}
use rrdtool_1_x.Update.Prepare.{Progress, update_all_cdp_prep}
use rrdtool_1_x.Update.Values.{update_pdp_prep}
use rrdtool_1_x.Update.Reading.{Outside, Time, bad_time, illegal_time, at_time, parse_ds}
use rrdtool_1_x.Update.Aberrant.{update_aberrant_cdps}

-- What an update changes. The values are in the file of `progress`.
pub record State (D : Type 0) : Type 0 where
  pub rrd : Rrd D
  pub progress : Progress D
  pub summary : Summary D

-- 0, -1 and -2. What a failed update leaves in the mapped header is not kept.
pub data Outcome (D : Type 0) : Type 0 where
  updated : State D → Outcome D
  failed : Outcome D
  illegal : Outcome D

abbrev pub outcome : {D : Type 0} → Option (State D) → Outcome D
outcome none = failed
outcome (some st) = updated st

-- what is left to do: `interval`, `pre_int`, `elapsed_pdp_st`, `proc_pdp_cnt` and `pdp_new`
pub record Work (D : Type 0) : Type 0 where
  pub interval : D
  pub pre_int : D
  pub elapsed_pdp_st : ℕ
  pub proc_pdp_cnt : ℕ
  pub pdp_new : List D

module _ {D : Type 0} ⦃d : Double D⦄ where
  open d use {nan, of_nat, of_int, to_nat, add, sub, mul, div, lt, is_nan}

  -- the interval between this and the last run
  unfoldable pub interval_since : Rrd D → ℕ → ℕ → D
  interval_since rrd sec usec =
      add (of_nat (sec - rrd.last_up))
        (div (of_int (sub_ℕ usec rrd.last_up_usec)) (of_nat 1_000_000))

  -- the share of a reading that belongs to the open PDP, and what is left of it
  unfoldable pub open_share : D → ℕ → D → D × D
  open_share interval sec_open_pdp v =
      if not (is_nan v) && lt (of_nat 0) interval
      then (let share = div (mul v (of_nat sec_open_pdp)) interval in (share, sub v share))
      else (nan, v)

  unfoldable pub split_open : D → ℕ → List D → List D × List D
  split_open interval sec_open_pdp [] = ([], [])
  split_open interval sec_open_pdp (v ∷ vs) =
      let (share, left) = open_share interval sec_open_pdp v in
      let (shares, lefts) = split_open interval sec_open_pdp vs in (share ∷ shares, left ∷ lefts)

  module _ (compute : DataSource D → List D → ℕ → Option D) where
    -- The calls that close PDPs, which `process_arg` makes once or twice.
    unfoldable pub close_pdps : Work D → D → ℕ → State D → Option (State D)
    close_pdps w post_int now st = do
      (sources, pdp_temp) ←
          process_all_pdp_st compute st.rrd.pdp_step st.rrd.sources w.interval w.pre_int post_int
            w.elapsed_pdp_st w.pdp_new
      (ps, p) ←
          update_all_cdp_prep st.rrd.archives (length sources) 0 w.elapsed_pdp_st w.proc_pdp_cnt
            pdp_temp st.progress
      (ps', p') ← update_aberrant_cdps ps (length sources) w.elapsed_pdp_st pdp_temp p
      (rras, f, summary) ← write_to_rras sources st.rrd.pdp_step now ps' 0 p'.file st.summary
      some (record {
        rrd = record st.rrd { sources = sources; archives = rras };
        progress = record p' { file = f };
        summary = summary;
      })

    -- the most left PDP, closed by itself, and the work that then remains
    unfoldable pub close_open : Work D → ℕ → State D → Option (Work D × State D)
    close_open w sec_open_pdp st =
        let parts = split_open w.interval sec_open_pdp w.pdp_new in
        let one : Work D = record {
          interval = of_nat sec_open_pdp;
          pre_int = of_nat sec_open_pdp;
          elapsed_pdp_st = 1;
          proc_pdp_cnt = w.proc_pdp_cnt;
          pdp_new = parts.0;
        } in
        do
          st' ← close_pdps one (of_nat 0) (st.rrd.last_up + sec_open_pdp) st
          some (
            record {
              interval = sub w.interval (of_nat sec_open_pdp);
              pre_int = sub w.pre_int (of_nat sec_open_pdp);
              elapsed_pdp_st = w.elapsed_pdp_st - 1;
              proc_pdp_cnt = suc w.proc_pdp_cnt;
              pdp_new = parts.1;
            },
            st',
          )

    -- "additional processing may be needed if elapsed time closes more than one PDP"
    unfoldable pub close_first : Work D → State D → Option (Work D × State D)
    close_first w st =
        let sec_open_pdp = to_nat w.pre_int % st.rrd.pdp_step in
        if ltb 1 w.elapsed_pdp_st && ltb 0 sec_open_pdp
        then close_open w sec_open_pdp st
        else some (w, st)

    unfoldable pub close_all : Work D → D → ℕ → State D → Option (State D)
    close_all w post_int now st = do (w', st') ← close_first w st; close_pdps w' post_int now st'

    -- whether a step boundary has passed since the last run
    unfoldable pub advance : Work D → D → ℕ → State D → Option (State D)
    advance w post_int now st =
        if w.elapsed_pdp_st == 0
        then some (record st {
          rrd = record st.rrd { sources = simple_update w.interval st.rrd.sources w.pdp_new };
        })
        else close_all w post_int now st

    module _ (outside : Outside D) where
      -- `process_arg` from the parsed values on
      unfoldable pub process_values : State D → ℕ → ℕ → List (List ℕ) → Option (State D)
      process_values st sec usec updvals =
          let interval = interval_since st.rrd sec usec in
          let e = calculate_elapsed_steps st.rrd sec usec interval in
          do
            (sources, pdp_new) ← update_pdp_prep outside.strtodbl st.rrd.sources updvals interval
            st' ←
                advance
                  (record {
                    interval = interval;
                    pre_int = e.pre_int;
                    elapsed_pdp_st = e.elapsed_pdp_st;
                    proc_pdp_cnt = e.proc_pdp_cnt;
                    pdp_new = pdp_new;
                  })
                  e.post_int sec (record st { rrd = record st.rrd { sources = sources } })
            some (record st' { rrd = record st'.rrd { last_up = sec; last_up_usec = usec } })

      unfoldable pub process_parsed : State D → Option (Time × List (List ℕ)) → Outcome D
      process_parsed st none = failed
      process_parsed st (some (bad_time, updvals)) = failed
      process_parsed st (some (illegal_time, updvals)) = illegal
      process_parsed st (some (at_time sec usec, updvals)) =
          outcome (process_values st sec usec updvals)

      unfoldable pub process_arg : State D → List ℕ → List ℕ → ℕ → Outcome D
      process_arg st tmpl_idx step_start version =
          process_parsed st (parse_ds outside st.rrd tmpl_idx step_start version)
