-- ===== src/Tests/Updates.antt =====
-- Updates of a small database: the archives of one data source, and whole update arguments.
use rrdtool_1_x.Prelude.{
  ℕ, ◌+◌, ◌-◌, ◌*◌, ◌≡◌, refl, false, Option, none, some, List, [], ◌∷◌, arith, codes,
}
use rrdtool_1_x.Format.{DataSource}
use rrdtool_1_x.Update.Write.{Pending}
use rrdtool_1_x.Update.Prepare.{Progress, update_all_cdp_prep}
use rrdtool_1_x.Update.Prepare.Ready.{AllPrepared, update_all_cdp_prep-AllPrepared}
use rrdtool_1_x.Update.Values.{update_pdp_prep}
use rrdtool_1_x.Update.Values.Kept.{remembered, update_pdp_prep-remembers}
use rrdtool_1_x.Update.Reading.{Outside, at_time, get_time_from_reading}
use rrdtool_1_x.Update.Process.{State, Outcome, updated, failed, illegal, process_arg}
use rrdtool_1_x.Update.Process.Safe.{IsConsistent}
use rrdtool_1_x.Update.Process.Run.{IsUpdate, process_arg_lem}
use rrdtool_1_x.Tests.Halves.{Num, halves, not_a_number}
use rrdtool_1_x.Tests.Small.{whole, five, speed, small}

abbrev before : State Num
before = record {
  rrd = small;
  progress = record { file = five; last_seasonal_coef = []; seasonal_coef = []; smooth = false };
  summary = none;
}

-- the digits of the readings that the tests use
abbrev read_digits : ℕ → List ℕ → Option Num
read_digits acc [] = some (whole acc)
read_digits acc (x ∷ xs) = read_digits (10 * acc + (x - b'0')) xs

abbrev system : Outside Num
system = record {
  clock = (130, 0);
  parse_time = λ _. none;
  strtodbl = read_digits 0;
  micro = whole 0;
}

abbrev no_compute : DataSource Num → List Num → ℕ → Option Num
no_compute s rates step = none

abbrev state_of : Outcome Num → State Num
state_of (updated st) = st
state_of failed = before
state_of illegal = before

abbrev after : State Num
after = state_of (process_arg no_compute system before (1 ∷ []) (codes "125:7") 3)

before-IsConsistent : IsConsistent 1 5 before
before-IsConsistent = record {
  each_source = refl;
  well_formed = (
    record {
      row_inside = omega arith;
      rows_fit = omega arith;
      pdps_fit = (omega arith, omega arith);
      one_each = refl;
    },
    (
      record {
        row_inside = omega arith;
        rows_fit = omega arith;
        pdps_fit = (omega arith, omega arith);
        one_each = refl;
      },
      tt,
    ),
  );
  extent_known = refl;
  room = omega arith;
}

runs : process_arg no_compute system before (1 ∷ []) (codes "125:7") 3 ≡ updated after
unfolding rrdtool_1_x.Format.dst_conv rrdtool_1_x.Format.rrd_cf_conv rrdtool_1_x.Format.cf_to_string
    rrdtool_1_x.Store.rrd_seek rrdtool_1_x.Store.rrd_read rrdtool_1_x.Store.rrd_write
    rrdtool_1_x.Diff.skip_to_digit rrdtool_1_x.Diff.digits_of rrdtool_1_x.Diff.settle
    rrdtool_1_x.Diff.subtract rrdtool_1_x.Diff.complement rrdtool_1_x.Diff.diff_digits
    rrdtool_1_x.Diff.rrd_diff rrdtool_1_x.Update.Steps.int_as_ulong rrdtool_1_x.Update.Steps.pdp_st
    rrdtool_1_x.Update.Steps.calculate_elapsed_steps rrdtool_1_x.Update.Steps.start_pdp_offset
    rrdtool_1_x.Update.Steps.rra_step_cnt rrdtool_1_x.Update.Consolidate.initialize_cdp_val
    rrdtool_1_x.Update.Consolidate.carry_unknown rrdtool_1_x.Update.Consolidate.carry_known
    rrdtool_1_x.Update.Consolidate.initialize_carry_over
    rrdtool_1_x.Update.Consolidate.calculate_known rrdtool_1_x.Update.Consolidate.calculate_first
    rrdtool_1_x.Update.Consolidate.calculate_cdp_val rrdtool_1_x.Update.Consolidate.close_row
    rrdtool_1_x.Update.Consolidate.extend_row rrdtool_1_x.Update.Consolidate.update_cdp
    rrdtool_1_x.Update.Write.next_row rrdtool_1_x.Update.Write.row_time
    rrdtool_1_x.Update.Write.write_rra_row rrdtool_1_x.Update.Write.write_rows
    rrdtool_1_x.Update.Write.write_to_rras rrdtool_1_x.Update.Pdp.as_int
    rrdtool_1_x.Update.Pdp.gather rrdtool_1_x.Update.Pdp.simple_update
    rrdtool_1_x.Update.Pdp.close_val rrdtool_1_x.Update.Pdp.pdp_rate rrdtool_1_x.Update.Pdp.reopen
    rrdtool_1_x.Update.Pdp.process_pdp_st rrdtool_1_x.Update.Pdp.process_all_from
    rrdtool_1_x.Update.Pdp.process_all_pdp_st rrdtool_1_x.Update.Prepare.erase_violations
    rrdtool_1_x.Update.Prepare.smooth_due rrdtool_1_x.Update.Prepare.schedule_smooth
    rrdtool_1_x.Update.Prepare.do_schedule_smooth rrdtool_1_x.Update.Prepare.read_values
    rrdtool_1_x.Update.Prepare.lookup_seasonal rrdtool_1_x.Update.Prepare.reset_cdp
    rrdtool_1_x.Update.Prepare.prepare_cdp rrdtool_1_x.Update.Prepare.update_cdp_prep
    rrdtool_1_x.Update.Prepare.skip_ahead rrdtool_1_x.Update.Prepare.prepare_rra
    rrdtool_1_x.Update.Prepare.update_all_cdp_prep rrdtool_1_x.Update.Values.is_integer
    rrdtool_1_x.Update.Values.catch_overflow rrdtool_1_x.Update.Values.difference
    rrdtool_1_x.Update.Values.interpret rrdtool_1_x.Update.Values.limit
    rrdtool_1_x.Update.Values.prepare_pdp rrdtool_1_x.Update.Values.update_pdp_prep
    rrdtool_1_x.Update.Reading.split_colons rrdtool_1_x.Update.Reading.cut_at
    rrdtool_1_x.Update.Reading.default_template rrdtool_1_x.Update.Reading.template_from
    rrdtool_1_x.Update.Reading.parse_template rrdtool_1_x.Update.Reading.place
    rrdtool_1_x.Update.Reading.is_later rrdtool_1_x.Update.Reading.from_now
    rrdtool_1_x.Update.Reading.number_time rrdtool_1_x.Update.Reading.read_time
    rrdtool_1_x.Update.Reading.check_time rrdtool_1_x.Update.Reading.get_time_from_reading
    rrdtool_1_x.Update.Reading.cut_time rrdtool_1_x.Update.Reading.parse_ds rrdtool_1_x.Hw.get_cdp
    rrdtool_1_x.Hw.put_cdp rrdtool_1_x.Hw.Aberrant.update_aberrant_cf
    rrdtool_1_x.Hw.Aberrant.aberrant_switch rrdtool_1_x.Update.Aberrant.next_seasonal
    rrdtool_1_x.Update.Aberrant.aberrant_sources rrdtool_1_x.Update.Aberrant.aberrant_rras
    rrdtool_1_x.Update.Aberrant.update_aberrant_cdps rrdtool_1_x.Update.Process.interval_since
    rrdtool_1_x.Update.Process.open_share rrdtool_1_x.Update.Process.split_open
    rrdtool_1_x.Update.Process.close_pdps rrdtool_1_x.Update.Process.close_open
    rrdtool_1_x.Update.Process.close_first rrdtool_1_x.Update.Process.close_all
    rrdtool_1_x.Update.Process.advance rrdtool_1_x.Update.Process.process_values
    rrdtool_1_x.Update.Process.process_parsed rrdtool_1_x.Update.Process.process_arg
    rrdtool_1_x.Prelude.str_eq rrdtool_1_x.Prelude.add_u64 rrdtool_1_x.Prelude.sub_u64
    rrdtool_1_x.Prelude.mul_u64 rrdtool_1_x.Prelude.Int.◌+ℤ◌ rrdtool_1_x.Prelude.Int.◌-ℤ◌
    rrdtool_1_x.Prelude.Int.quot_ℤ
runs = refl

after_time : after.rrd.last_up ≡ 125
unfolding rrdtool_1_x.Format.dst_conv rrdtool_1_x.Format.rrd_cf_conv rrdtool_1_x.Format.cf_to_string
    rrdtool_1_x.Store.rrd_seek rrdtool_1_x.Store.rrd_read rrdtool_1_x.Store.rrd_write
    rrdtool_1_x.Diff.skip_to_digit rrdtool_1_x.Diff.digits_of rrdtool_1_x.Diff.settle
    rrdtool_1_x.Diff.subtract rrdtool_1_x.Diff.complement rrdtool_1_x.Diff.diff_digits
    rrdtool_1_x.Diff.rrd_diff rrdtool_1_x.Update.Steps.int_as_ulong rrdtool_1_x.Update.Steps.pdp_st
    rrdtool_1_x.Update.Steps.calculate_elapsed_steps rrdtool_1_x.Update.Steps.start_pdp_offset
    rrdtool_1_x.Update.Steps.rra_step_cnt rrdtool_1_x.Update.Consolidate.initialize_cdp_val
    rrdtool_1_x.Update.Consolidate.carry_unknown rrdtool_1_x.Update.Consolidate.carry_known
    rrdtool_1_x.Update.Consolidate.initialize_carry_over
    rrdtool_1_x.Update.Consolidate.calculate_known rrdtool_1_x.Update.Consolidate.calculate_first
    rrdtool_1_x.Update.Consolidate.calculate_cdp_val rrdtool_1_x.Update.Consolidate.close_row
    rrdtool_1_x.Update.Consolidate.extend_row rrdtool_1_x.Update.Consolidate.update_cdp
    rrdtool_1_x.Update.Write.next_row rrdtool_1_x.Update.Write.row_time
    rrdtool_1_x.Update.Write.write_rra_row rrdtool_1_x.Update.Write.write_rows
    rrdtool_1_x.Update.Write.write_to_rras rrdtool_1_x.Update.Pdp.as_int
    rrdtool_1_x.Update.Pdp.gather rrdtool_1_x.Update.Pdp.simple_update
    rrdtool_1_x.Update.Pdp.close_val rrdtool_1_x.Update.Pdp.pdp_rate rrdtool_1_x.Update.Pdp.reopen
    rrdtool_1_x.Update.Pdp.process_pdp_st rrdtool_1_x.Update.Pdp.process_all_from
    rrdtool_1_x.Update.Pdp.process_all_pdp_st rrdtool_1_x.Update.Prepare.erase_violations
    rrdtool_1_x.Update.Prepare.smooth_due rrdtool_1_x.Update.Prepare.schedule_smooth
    rrdtool_1_x.Update.Prepare.do_schedule_smooth rrdtool_1_x.Update.Prepare.read_values
    rrdtool_1_x.Update.Prepare.lookup_seasonal rrdtool_1_x.Update.Prepare.reset_cdp
    rrdtool_1_x.Update.Prepare.prepare_cdp rrdtool_1_x.Update.Prepare.update_cdp_prep
    rrdtool_1_x.Update.Prepare.skip_ahead rrdtool_1_x.Update.Prepare.prepare_rra
    rrdtool_1_x.Update.Prepare.update_all_cdp_prep rrdtool_1_x.Update.Values.is_integer
    rrdtool_1_x.Update.Values.catch_overflow rrdtool_1_x.Update.Values.difference
    rrdtool_1_x.Update.Values.interpret rrdtool_1_x.Update.Values.limit
    rrdtool_1_x.Update.Values.prepare_pdp rrdtool_1_x.Update.Values.update_pdp_prep
    rrdtool_1_x.Update.Reading.split_colons rrdtool_1_x.Update.Reading.cut_at
    rrdtool_1_x.Update.Reading.default_template rrdtool_1_x.Update.Reading.template_from
    rrdtool_1_x.Update.Reading.parse_template rrdtool_1_x.Update.Reading.place
    rrdtool_1_x.Update.Reading.is_later rrdtool_1_x.Update.Reading.from_now
    rrdtool_1_x.Update.Reading.number_time rrdtool_1_x.Update.Reading.read_time
    rrdtool_1_x.Update.Reading.check_time rrdtool_1_x.Update.Reading.get_time_from_reading
    rrdtool_1_x.Update.Reading.cut_time rrdtool_1_x.Update.Reading.parse_ds rrdtool_1_x.Hw.get_cdp
    rrdtool_1_x.Hw.put_cdp rrdtool_1_x.Hw.Aberrant.update_aberrant_cf
    rrdtool_1_x.Hw.Aberrant.aberrant_switch rrdtool_1_x.Update.Aberrant.next_seasonal
    rrdtool_1_x.Update.Aberrant.aberrant_sources rrdtool_1_x.Update.Aberrant.aberrant_rras
    rrdtool_1_x.Update.Aberrant.update_aberrant_cdps rrdtool_1_x.Update.Process.interval_since
    rrdtool_1_x.Update.Process.open_share rrdtool_1_x.Update.Process.split_open
    rrdtool_1_x.Update.Process.close_pdps rrdtool_1_x.Update.Process.close_open
    rrdtool_1_x.Update.Process.close_first rrdtool_1_x.Update.Process.close_all
    rrdtool_1_x.Update.Process.advance rrdtool_1_x.Update.Process.process_values
    rrdtool_1_x.Update.Process.process_parsed rrdtool_1_x.Update.Process.process_arg
    rrdtool_1_x.Prelude.str_eq rrdtool_1_x.Prelude.add_u64 rrdtool_1_x.Prelude.sub_u64
    rrdtool_1_x.Prelude.mul_u64 rrdtool_1_x.Prelude.Int.◌+ℤ◌ rrdtool_1_x.Prelude.Int.◌-ℤ◌
    rrdtool_1_x.Prelude.Int.quot_ℤ
after_time = refl

-- 25 seconds later: two steps are closed, in two rows of one archive and one of the other.
process_arg_example : IsUpdate no_compute system 1 5 before after
process_arg_example =
    process_arg_lem no_compute system 1 5 before (1 ∷ []) (codes "125:7") 3 before-IsConsistent
      (omega arith) (omega (arith, after_time)) (omega (arith, after_time)) runs

abbrev no_lookups : Progress Num
no_lookups = before.progress

abbrev prepared_archives : List (Pending Num) × Progress Num
prepared_archives = elim (update_all_cdp_prep small.archives 1 0 2 10 (whole 7 ∷ []) no_lookups) [
  | none ↦ ([], no_lookups)
  | some result ↦ result
]

preparation :
    update_all_cdp_prep small.archives 1 0 2 10 (whole 7 ∷ []) no_lookups
    ≡ some (prepared_archives.0, prepared_archives.1)
unfolding rrdtool_1_x.Format.dst_conv rrdtool_1_x.Format.rrd_cf_conv rrdtool_1_x.Format.cf_to_string
    rrdtool_1_x.Store.rrd_seek rrdtool_1_x.Store.rrd_read rrdtool_1_x.Store.rrd_write
    rrdtool_1_x.Update.Steps.int_as_ulong rrdtool_1_x.Update.Steps.pdp_st
    rrdtool_1_x.Update.Steps.calculate_elapsed_steps rrdtool_1_x.Update.Steps.start_pdp_offset
    rrdtool_1_x.Update.Steps.rra_step_cnt rrdtool_1_x.Update.Consolidate.initialize_cdp_val
    rrdtool_1_x.Update.Consolidate.carry_unknown rrdtool_1_x.Update.Consolidate.carry_known
    rrdtool_1_x.Update.Consolidate.initialize_carry_over
    rrdtool_1_x.Update.Consolidate.calculate_known rrdtool_1_x.Update.Consolidate.calculate_first
    rrdtool_1_x.Update.Consolidate.calculate_cdp_val rrdtool_1_x.Update.Consolidate.close_row
    rrdtool_1_x.Update.Consolidate.extend_row rrdtool_1_x.Update.Consolidate.update_cdp
    rrdtool_1_x.Update.Prepare.erase_violations rrdtool_1_x.Update.Prepare.smooth_due
    rrdtool_1_x.Update.Prepare.schedule_smooth rrdtool_1_x.Update.Prepare.do_schedule_smooth
    rrdtool_1_x.Update.Prepare.read_values rrdtool_1_x.Update.Prepare.lookup_seasonal
    rrdtool_1_x.Update.Prepare.reset_cdp rrdtool_1_x.Update.Prepare.prepare_cdp
    rrdtool_1_x.Update.Prepare.update_cdp_prep rrdtool_1_x.Update.Prepare.skip_ahead
    rrdtool_1_x.Update.Prepare.prepare_rra rrdtool_1_x.Update.Prepare.update_all_cdp_prep
    rrdtool_1_x.Prelude.str_eq rrdtool_1_x.Prelude.add_u64 rrdtool_1_x.Prelude.sub_u64
    rrdtool_1_x.Prelude.mul_u64 rrdtool_1_x.Prelude.Int.◌+ℤ◌ rrdtool_1_x.Prelude.Int.◌-ℤ◌
    rrdtool_1_x.Prelude.Int.quot_ℤ
preparation = refl

update_all_cdp_prep_example : AllPrepared 1 2 10 small.archives prepared_archives.0
update_all_cdp_prep_example =
    update_all_cdp_prep-AllPrepared small.archives 1 0 2 10 (whole 7 ∷ []) no_lookups
      before-IsConsistent.well_formed (omega arith) preparation

numeric_time : get_time_from_reading system small false (codes "125") 3 ≡ at_time 125 0
unfolding rrdtool_1_x.Update.Reading.split_colons rrdtool_1_x.Update.Reading.cut_at
    rrdtool_1_x.Update.Reading.default_template rrdtool_1_x.Update.Reading.template_from
    rrdtool_1_x.Update.Reading.parse_template rrdtool_1_x.Update.Reading.place
    rrdtool_1_x.Update.Reading.is_later rrdtool_1_x.Update.Reading.from_now
    rrdtool_1_x.Update.Reading.number_time rrdtool_1_x.Update.Reading.read_time
    rrdtool_1_x.Update.Reading.check_time rrdtool_1_x.Update.Reading.get_time_from_reading
    rrdtool_1_x.Update.Reading.cut_time rrdtool_1_x.Update.Reading.parse_ds
    rrdtool_1_x.Prelude.str_eq rrdtool_1_x.Prelude.add_u64 rrdtool_1_x.Prelude.sub_u64
    rrdtool_1_x.Prelude.mul_u64 rrdtool_1_x.Prelude.Int.◌+ℤ◌ rrdtool_1_x.Prelude.Int.◌-ℤ◌
    rrdtool_1_x.Prelude.Int.quot_ℤ
numeric_time = refl

abbrev speeding : List (DataSource Num)
speeding = record speed { last_ds = codes "2000" } ∷ []

readings :
    update_pdp_prep (read_digits 0) small.sources (codes "2000" ∷ []) (whole 25)
    ≡ some (speeding, not_a_number ∷ [])
unfolding rrdtool_1_x.Format.dst_conv rrdtool_1_x.Format.rrd_cf_conv rrdtool_1_x.Format.cf_to_string
    rrdtool_1_x.Diff.skip_to_digit rrdtool_1_x.Diff.digits_of rrdtool_1_x.Diff.settle
    rrdtool_1_x.Diff.subtract rrdtool_1_x.Diff.complement rrdtool_1_x.Diff.diff_digits
    rrdtool_1_x.Diff.rrd_diff rrdtool_1_x.Update.Values.is_integer
    rrdtool_1_x.Update.Values.catch_overflow rrdtool_1_x.Update.Values.difference
    rrdtool_1_x.Update.Values.interpret rrdtool_1_x.Update.Values.limit
    rrdtool_1_x.Update.Values.prepare_pdp rrdtool_1_x.Update.Values.update_pdp_prep
    rrdtool_1_x.Update.Pdp.as_int rrdtool_1_x.Update.Pdp.gather rrdtool_1_x.Update.Pdp.simple_update
    rrdtool_1_x.Update.Pdp.close_val rrdtool_1_x.Update.Pdp.pdp_rate rrdtool_1_x.Update.Pdp.reopen
    rrdtool_1_x.Update.Pdp.process_pdp_st rrdtool_1_x.Update.Pdp.process_all_from
    rrdtool_1_x.Update.Pdp.process_all_pdp_st rrdtool_1_x.Prelude.str_eq rrdtool_1_x.Prelude.add_u64
    rrdtool_1_x.Prelude.sub_u64 rrdtool_1_x.Prelude.mul_u64 rrdtool_1_x.Prelude.Int.◌+ℤ◌
    rrdtool_1_x.Prelude.Int.◌-ℤ◌ rrdtool_1_x.Prelude.Int.quot_ℤ
readings = refl

-- A reading above the maximum is unknown, and remembered all the same.
update_pdp_prep_example : speeding ≡ remembered (read_digits 0) small.sources (codes "2000" ∷ [])
update_pdp_prep_example =
    update_pdp_prep-remembers (read_digits 0) small.sources (codes "2000" ∷ []) (whole 25) readings
