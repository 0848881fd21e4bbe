-- ===== src/Relay.antt =====
-- apps/relay-server: the relay that queues ciphertext between approved accounts.
pub mod Db
pub mod Sockets
pub mod Conversations
pub mod Queue
pub mod Signaling
pub mod Backup
pub mod Auth
pub mod Prekeys
pub mod Inserts
pub mod Activation
pub mod Attachments
pub mod Dropboxes
pub mod Connections
