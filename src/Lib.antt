-- ===== src/Lib.antt =====
-- A round-robin database, from the text of an update to the rows that are fetched: the core of
-- rrdtool (src/rrd_*.c). A database holds data sources and archives. An update brings one reading
-- for each data source; readings are gathered into primary data points (PDPs), one a step; PDPs are
-- consolidated into rows of the archives, which are rings in one file; a fetch reads rows back.
--
-- The files, in the order in which an update passes through them:
--   Format: the records and enumerations of src/rrd_format.h, `dst_conv`, `rrd_cf_conv`,
--     `cf_to_string` and `ds_match` of src/rrd_format.c. Entry i of `ds_def` and `pdp_prep` is one
--     `DataSource`; entry i of `rra_def` and `rra_ptr` with its `cdp_prep` is one `Rra`.
--   Store: `rrd_seek`, `rrd_read` and `rrd_write` of src/rrd_open.c (the mmap build), over the values
--     after the header; a position counts values, not bytes.
--   Update/Reading: `parse_template`, `parse_ds`, `get_time_from_reading` of src/rrd_update.c.
--   Diff: `rrd_diff` of src/rrd_diff.c, the difference of two integers given as strings.
--   Update/Values: `update_pdp_prep`.
--   Update/Steps: `calculate_elapsed_steps` and the row counts of `update_all_cdp_prep`.
--   Update/Pdp: `simple_update`, `process_pdp_st`, `process_all_pdp_st`.
--   Update/Consolidate: `update_cdp` and what it calls.
--   Update/Prepare: `update_all_cdp_prep`, `update_cdp_prep`, `reset_cdp`, `do_schedule_smooth`, and
--     `lookup_seasonal` and `erase_violations` of src/rrd_hw.c.
--   Update/Aberrant: `update_aberrant_cdps`.
--   Hw: `update_aberrant_CF` of src/rrd_hw.c, with src/rrd_hw_update.c and src/rrd_hw_math.c: the
--     predictions, deviations and failures of the archives that predict. Hw/Smooth: `apply_smoother` and
--     `smooth_all_rras`, with the queue of Hw/Queue. Hw/Reset: `reset_aberrant_coefficients`.
--   Rpn: src/rrd_rpncalc.c, the expressions of COMPUTE data sources: their parsing (Rpn/Parse), their
--     stored form (Rpn/Compact), their evaluation (Rpn/Calc, Rpn/Ranges) and its use in
--     `process_pdp_st` (Rpn/Compute).
--   Update/Write: `write_to_rras` and `write_RRA_row`.
--   Update/Process: `process_arg`, which calls all of these.
--   Fetch: `rrd_fetch_fn` of src/rrd_fetch.c on an open database, `rrd_first_r` of src/rrd_first.c,
--     `rrd_last_r` of src/rrd_last.c.
--   Create: of src/rrd_create.c the contents of a new database (Create/Initial), the times of rows
--     (Create/Times) and `add_coverage` (Create/Coverage), by which old databases fill a new one.
--   Resize: `rrd_resize` of src/rrd_resize.c, on the values of the two files.
--   Daemon/Queue: of src/rrd_daemon.c the queue of files to be written, `enqueue_cache_item`,
--     `remove_from_queue` and what the threads do with it under `cache_lock`.
--   Daemon/Command: the command of an update, from `rrd_client_update` of src/rrd_client.c to the loop of
--     `handle_request_update`.
-- Prelude holds the shared helpers: tests, lists, words of 64 bits, signed integers, strings as lists
-- of bytes, chains of fallible steps, and doubles. Tests runs the theorems at concrete inputs.
--
-- State is passed on explicitly: the header records, the file with its position, the summary and the
-- seasonal coefficients. `none` is the -1 of an error; what a failed update leaves behind in the
-- mapped header is not kept. Loops are structural recursion over lists, row counts and digits; where one
-- has fuel (`rpn_parse`: the bytes of the text; the loops of `MEDIAN` and `COPY`; `add_coverage`:
-- two visits for each interval; the values of a command: its bytes), it is enough by a theorem. In
-- Daemon/Queue `none` is a failed `assert`, and the order of the calls is any. An `int` that may
-- overflow is cut to 32 bits (`as_int`, `wrap_int`), and a use of memory outside an array is an
-- outcome of its own (`wild` of Rpn, `overrun` of Diff). `unsigned long`
-- arithmetic that may wrap is `add_u64`, `sub_u64`, `mul_u64`.
--
-- Parameters: `double` and its operations (Prelude/Double), with the laws of IEEE 754 that a theorem
-- needs as hypotheses; `rrd_strtodbl`, `rrd_parsetime` and the clock; the evaluation of COMPUTE data
-- sources, within the update; the mathematical functions and the sort of the C library (`Math` of
-- Rpn); the lookup of names in `rpn_parse`; what `malloc` returns for a queue of the smoother;
-- the numbers that `rrd_random` returns; and what `get_path` and `rrd_strtodbl` return for a command.
--
-- Not modelled: opening, locking and mapping files; the parsing of definitions and the
-- search for old values in creation; tuning; dump and restore;
-- the RPN operators of the calendar, PREDICT, TREND and ROLL; graphs; the rest of the caching daemon
-- and of its client; the command line and the bindings; the copies of other projects' code.
pub mod Prelude
pub mod Format
pub mod Store
pub mod Diff
pub mod Update
pub mod Fetch
pub mod Hw
pub mod Rpn
pub mod Create
pub mod Resize
pub mod Daemon
pub mod Tests
