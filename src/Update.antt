-- ===== src/Update.antt =====
-- src/rrd_update.c: how an update moves a round-robin database on.
pub mod Steps
pub mod Consolidate
pub mod Write
pub mod Pdp
pub mod Prepare
pub mod Values
pub mod Reading
pub mod Aberrant
pub mod Process
