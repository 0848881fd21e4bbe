-- ===== src/Lib.antt =====
-- Crypto-pigeon: models of its relay server and of the daemon beside each client, with proofs.
--
-- The program. The relay (apps/relay-server) keeps accounts, devices, prekeys, permissions to talk,
-- queued ciphertexts, attachments and encrypted vault backups in PostgreSQL, and forwards signals
-- between open sockets. The daemon (apps/local-daemon) keeps a client's contacts and messages in an
-- encrypted SQLite file, encrypts and decrypts with libsignal, and talks to the relay.
--
-- The files. Relay/Db has the rows of schema.sql and db.ts, as one record of lists. Each handler is a
-- function of it, named after its route or its function:
--   Relay/Sockets        apps/relay-server/src/ws-handler.ts: clients, notifyClient
--   Relay/Connections    ws-handler.ts: the upgrade, connect, ping, receive, close
--   Relay/Dropboxes      blind-dropbox.ts: exchange_ack, blind_send, blind_fetch, blind_ack
--   Relay/Conversations  conversations.ts: request_contact, list_requests, accept, reject
--   Relay/Queue          queue.ts: hexToUuid, uuidToHex, send, pending, acknowledge
--   Relay/Signaling      signaling.ts: SignalBudget.take, forwardSignal
--   Relay/Backup         vault-backup.ts: put, get, delete_backup
--   Relay/Auth           auth.ts: request_challenge, respond, and authMiddleware as authenticate
--   Relay/Activation     auth.ts: apply, activate; Relay/Inserts has the rows that it inserts
--   Relay/Prekeys        prekeys.ts: the uploads, counts, request_bundle, cleanup
--   Relay/Attachments    attachments.ts: upload, put_chunk, get_chunk, delete_blob
--   Daemon/Local         apps/local-daemon/src/vault.ts: the tables of messages
--   Daemon/Inbox         messages.ts: syncMessages as sync; consumer.ts: queueControl
--   Daemon/Outbox        messages.ts: send_message, flush_outbox
--   Daemon/Shares        horcrux.ts: splitSeven, reconstructSeven, the seventh share of scatter
--   Daemon/Keys          signal-store.ts: identities, sessions and prekeys of the contacts
--   Daemon/Account       signal-store.ts: ensureIdentity, completeRegistration
--   Daemon/Files         attachments.ts: encryptAndUploadAttachment, downloadAndDecryptAttachment,
--                        sanitizeFilename, readDecryptedAttachment
--   Daemon/Jobs          Debounce: debounced-backup.ts; Wakeup: tor-recovery.ts; Feed: change-feed.ts;
--                        Expiry: disappearing.ts
--   Daemon/Onion         tor-transport.ts: receive
--   Daemon/Routing       tor-routing.ts: route; Delivery: the jobs that send, and flushOutbox through the
--                        router; Pieces: the job that downloads the chunks of a blob
--   Daemon/Client        relay-client.ts: getToken, clearSession, the socket's envelopes
--   Daemon/Invites       serverless-contacts.ts: importServerlessContact
--   Daemon/Passwords     vault-keys.ts: validatePasswordStrength
--   Daemon/Sessions      apps/local-daemon/src/auth.ts: bootstrap, verifyLocalSession
-- Child modules are named for what they prove; Files/Sending, Files/Fetching, Account/Publishing,
-- Account/Signup, Prekeys/Handout, Prekeys/Rotation, Routing/Delivery and Routing/Pieces have parts of
-- the operations. Prelude has tests on numbers, texts and the statements on tables; Examples applies
-- each theorem at a concrete input.
--
-- How they interact. The handlers share the database record: a queue or bundle request looks up the
-- permissions that Conversations grants, a backup's claim deletes the sessions that Auth checks, an
-- activation fills the tables of Prekeys, and Queue, Prekeys and Signaling push to Sockets. The daemon's
-- Files call the relay's Attachments. Onion's inbox is what Routing answers a fetch with, and Routing's
-- jobs write the tables of Outbox.
--
-- Representation. A UUID is a number, so that the orders of the texts and the numbers agree; message
-- ids are texts, since their spelling matters. Tokens, names, keys and hashes are opaque numbers that
-- are only compared. A base64 body stands for its bytes. Request bodies are parsed by zod before.
-- A handler takes the time and the random values that it draws as arguments; one handler reads one
-- time. Random ids and tokens are taken to be new. node:crypto, libsignal and the answers of the
-- network are arguments. A transaction that is rolled back returns the database that it began with, so
-- no theorem speaks of partial writes; a failure of the database itself is not modelled. Requests are handled one after the other, as the
-- row locks of the transactions make them.
--
-- Bounds. The loop over public uids has as fuel one more than the number of users, which is enough
-- where the uids of these attempts differ. All other loops are structural.
--
-- Not modelled: server assembly, logging and migrations; in the daemon the other local routes, the
-- files of the vault, the Tor process and its sockets, making an invitation, sovereign files, voice
-- notes and the older format of local attachments; the user interfaces, the command line and the tests.
pub mod Prelude
pub mod Relay
pub mod Daemon
pub mod Examples
