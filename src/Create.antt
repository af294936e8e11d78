-- ===== src/Create.antt =====
-- Parts of src/rrd_create.c: the contents of a new database, the times of rows, and the intervals
-- that are covered when a new database is filled from old ones.
pub mod Coverage
pub mod Times
pub mod Initial
