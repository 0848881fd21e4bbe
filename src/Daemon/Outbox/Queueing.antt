-- ===== src/Daemon/Outbox/Queueing.antt =====
-- Sending stores the message and its ciphertext together, or nothing.
use crypto_pigeon.Prelude.{
  ℕ, ◌+◌, ◌*◌, ◌<◌, ◌≡◌, refl, ◌⊎◌, inl, inr, Bool, Bool-cases, true, false, Option, none, some,
  List, [], ◌∷◌, ◌++◌, ◌==◌, arith,
}
use crypto_pigeon.Relay.Db.{Opaque}
use crypto_pigeon.Daemon.Local.{Remote, queued, Local}
use crypto_pigeon.Daemon.Outbox.{
  Destination, destination, Draft, TextPayload, seconds_of, text_payload, disappears_at,
  SendFailure, SendReply, failed, stored, message_row, outbox_row, write_rows, unless_changed,
  send_to, send_message,
}

-- The seconds that a payload says, and the time that its sender's row disappears at.
abbrev pub IsTimed : ℕ → Option ℕ → ℕ → Option ℕ → Type 0
IsTimed now none seconds expiry = (seconds ≡ 0) × (expiry ≡ none)
IsTimed now (some n) seconds expiry =
    (seconds ≡ n) × (((n ≡ 0) × (expiry ≡ none)) ⊎ ((0 < n) × (expiry ≡ some (now + n * 1000))))

disappears_at-IsTimed :
    (now : ℕ) (o : Option ℕ) → IsTimed now o (seconds_of o) (disappears_at now o)
unfolding seconds_of disappears_at
disappears_at-IsTimed now none = (refl, refl)
disappears_at-IsTimed now (some n) = elim (Bool-cases (n == 0)) [
  | inl zero ↦ (refl, inl (ground arith, rw zero refl))
  | inr more ↦ (refl, inr (ground arith, rw more refl))
]

-- What a stored message leaves: its row and, in the same state, the row of its ciphertext.
pub record IsQueued (encrypt : Remote → TextPayload → Opaque → Option (Opaque × Opaque)) (now : ℕ)
    (d : Draft) (before after : Local) : Type 0 where
  pub to : Destination
  pub ciphertext : Opaque
  pub ratchets : Opaque
  pub seconds : ℕ
  pub expiry : Option ℕ
  pub timed : IsTimed now to.disappearing_seconds seconds expiry
  pub reached : destination d.conversation_id before.side ≡ some to
  pub unchanged : to.is_changed ≡ false
  pub encrypted :
      encrypt to.remote
        (record {
          message_id = d.message_id;
          profile = d.profile;
          text = d.plaintext;
          disappearing_seconds = seconds;
          attachment = d.attachment;
        })
        before.side.ratchets
      ≡ some (ciphertext, ratchets)
  pub message :
      after.messages
      ≡ before.messages
        ++ record {
          message_id = d.message_id;
          conversation_id = d.conversation_id;
          is_sent = true;
          plaintext = d.plaintext;
          envelope = none;
          status = queued;
          disappear_at = expiry;
        }
          ∷ []
  pub outgoing :
      after.outbox
      ≡ before.outbox
        ++ record {
          envelope_id = d.envelope_id;
          message_id = d.message_id;
          mailbox_id = to.remote.device_id;
          ciphertext = ciphertext;
          created_at = now;
        }
          ∷ []
  pub advanced : after.side.ratchets ≡ ratchets

write_rows-failed :
    (now : ℕ) (d : Draft) (to : Destination) (o : Option (Opaque × Opaque))
    (rows : Option (List Opaque)) (l : Local) (f : SendFailure)
    → (write_rows now d to o rows l).0 ≡ failed f
    → (write_rows now d to o rows l).1 ≡ l
unfolding write_rows
write_rows-failed now d to none rows l f h = refl
write_rows-failed now d to (some _) none l f h = refl
write_rows-failed now d to (some (c, r)) (some rows) l f h = absurd (cc h)

unless_changed-failed :
    (changed : Bool) (out : SendReply × Local) (l : Local) (f : SendFailure)
    → (out.0 ≡ failed f → out.1 ≡ l)
    → (unless_changed changed out l).0 ≡ failed f
    → (unless_changed changed out l).1 ≡ l
unfolding unless_changed
unless_changed-failed true out l f keeps h = refl
unless_changed-failed false out l f keeps h = keeps h

send_to-failed :
    (encrypt : Remote → TextPayload → Opaque → Option (Opaque × Opaque)) (now : ℕ) (d : Draft)
    (o : Option Destination) (l : Local) (f : SendFailure)
    → (send_to encrypt now d o l).0 ≡ failed f
    → (send_to encrypt now d o l).1 ≡ l
unfolding send_to
send_to-failed encrypt now d none l f h = refl
send_to-failed encrypt now d (some to) l f h =
    unless_changed-failed to.is_changed _ l f (write_rows-failed now d to _ _ l f) h

-- A message that cannot be sent, for whatever reason, leaves the tables and libsignal's state as they
-- were.
pub send_message-failed :
    (encrypt : Remote → TextPayload → Opaque → Option (Opaque × Opaque)) (now : ℕ) (d : Draft)
    (l : Local) (f : SendFailure)
    → (send_message encrypt now d l).0 ≡ failed f
    → (send_message encrypt now d l).1 ≡ l
unfolding send_message
send_message-failed encrypt now d l f h =
    send_to-failed encrypt now d (destination d.conversation_id l.side) l f h

write_rows-IsQueued :
    (encrypt : Remote → TextPayload → Opaque → Option (Opaque × Opaque)) (now : ℕ) (d : Draft)
    (to : Destination) (o : Option (Opaque × Opaque)) (rows : Option (List Opaque)) (l : Local)
    (id : Opaque)
    → destination d.conversation_id l.side ≡ some to
    → to.is_changed ≡ false
    → encrypt to.remote (text_payload d to) l.side.ratchets ≡ o
    → (write_rows now d to o rows l).0 ≡ stored id
    → IsQueued encrypt now d l (write_rows now d to o rows l).1
unfolding write_rows message_row outbox_row text_payload
write_rows-IsQueued encrypt now d to none rows l id e same c h = absurd (cc h)
write_rows-IsQueued encrypt now d to (some _) none l id e same c h = absurd (cc h)
write_rows-IsQueued encrypt now d to (some (ciphertext, ratchets)) (some rows) l id e same c h =
    record {
      to = to;
      ciphertext = ciphertext;
      ratchets = ratchets;
      seconds = seconds_of to.disappearing_seconds;
      expiry = disappears_at now to.disappearing_seconds;
      timed = disappears_at-IsTimed now to.disappearing_seconds;
      reached = e;
      unchanged = same;
      encrypted = c;
      message = refl;
      outgoing = refl;
      advanced = refl;
    }

unless_changed-IsQueued :
    (encrypt : Remote → TextPayload → Opaque → Option (Opaque × Opaque)) (now : ℕ) (d : Draft)
    (changed : Bool) (out : SendReply × Local) (l : Local) (id : Opaque)
    → (changed ≡ false → out.0 ≡ stored id → IsQueued encrypt now d l out.1)
    → (unless_changed changed out l).0 ≡ stored id
    → IsQueued encrypt now d l (unless_changed changed out l).1
unfolding unless_changed
unless_changed-IsQueued encrypt now d true out l id fits h = absurd (cc h)
unless_changed-IsQueued encrypt now d false out l id fits h = fits refl h

send_to-IsQueued :
    (encrypt : Remote → TextPayload → Opaque → Option (Opaque × Opaque)) (now : ℕ) (d : Draft)
    (o : Option Destination) (l : Local) (id : Opaque)
    → destination d.conversation_id l.side ≡ o
    → (send_to encrypt now d o l).0 ≡ stored id
    → IsQueued encrypt now d l (send_to encrypt now d o l).1
unfolding send_to
send_to-IsQueued encrypt now d none l id e h = absurd (cc h)
send_to-IsQueued encrypt now d (some to) l id e h =
    unless_changed-IsQueued encrypt now d to.is_changed _ l id
      (λ same k. write_rows-IsQueued encrypt now d to _ _ l id e same refl k) h

-- A message is only stored for a contact whose identity is unchanged or approved. Its row, with the
-- text and the time at which it disappears, and the outbox row, for the contact's device and with the
-- very bytes that the payload was encrypted to, are stored together with libsignal's next state. The
-- payload says the same message id, text, disappearing time and attachment.
pub send_message-IsQueued :
    (encrypt : Remote → TextPayload → Opaque → Option (Opaque × Opaque)) (now : ℕ) (d : Draft)
    (l : Local) (id : Opaque)
    → (send_message encrypt now d l).0 ≡ stored id
    → IsQueued encrypt now d l (send_message encrypt now d l).1
unfolding send_message
send_message-IsQueued encrypt now d l id h =
    send_to-IsQueued encrypt now d (destination d.conversation_id l.side) l id refl h
