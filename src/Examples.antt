-- ===== src/Examples.antt =====
-- Each theorem at a concrete input: two users with a device each, and their requests and messages.
pub mod Fixtures
mod Talk
mod Accounts
mod Keys
mod Blobs
mod Client
mod Vault
mod Device
mod Jobs
mod Links
mod Onion
