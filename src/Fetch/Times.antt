-- ===== src/Fetch/Times.antt =====
-- The real times of `rrd_fetch_fn`: the wanted ones, moved to the boundaries of the archive's rows.
