-- ===== src/Daemon.antt =====
-- The daemon that runs beside each client, apps/local-daemon/src: the encrypted local tables and
-- the handlers on them.
pub mod Local
pub mod Inbox
pub mod Outbox
pub mod Shares
pub mod Sessions
pub mod Keys
pub mod Account
pub mod Jobs
pub mod Onion
pub mod Routing
pub mod Client
pub mod Invites
pub mod Passwords
pub mod Files
