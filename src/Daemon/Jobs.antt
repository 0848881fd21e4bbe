-- ===== src/Daemon/Jobs.antt =====
-- The daemon's background jobs, apps/local-daemon/src: one state machine for each of them.
pub mod Feed
pub mod Debounce
pub mod Wakeup
pub mod Expiry
