-- ===== src/Daemon.antt =====
-- Parts of src/rrd_daemon.c, the caching daemon, and of its client, src/rrd_client.c.
pub mod Queue
pub mod Command
