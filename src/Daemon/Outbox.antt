-- ===== src/Daemon/Outbox.antt =====
-- apps/local-daemon/src/messages.ts, sendMessage and flushOutbox: a message is stored together with
-- its encrypted bytes before any of it is sent. Libsignal's encryption of a payload and the relay's
-- answers to a post are arguments.
pub mod Queueing
pub mod Flushing
use crypto_pigeon.Prelude.{
  ℕ, suc, ◌+◌, ◌*◌, Bool, true, false, not, ◌&&◌, ◌||◌, Option, none, some, List, [], ◌∷◌, ◌++◌,
  contains, find, any, select, update, delete, ◌==◌, ltb, leb, if◌then◌else◌,
}
use crypto_pigeon.Prelude.Rows.Sort.{sort_by}
use crypto_pigeon.Relay.Db.{Opaque}
use crypto_pigeon.Daemon.Local.{
  Contact, Remote, Conversation, Status, queued, sent, Message, Outgoing, Side, Local,
}
use crypto_pigeon.Daemon.Inbox.{is_blocked}

-- The destination of a conversation.
pub record Destination : Type 0 where
  pub contact_id : Opaque
  pub remote : Remote
  pub is_changed : Bool
  pub disappearing_seconds : Option ℕ

unfoldable pub joined : Conversation → Option Remote → Option Contact → Option Destination
joined c none k = none
joined c (some r) none = none
joined c (some r) (some k) = some (record {
  contact_id = c.contact_id;
  remote = r;
  is_changed = k.identity_changed;
  disappearing_seconds = c.disappearing_seconds;
})

unfoldable pub join_conversation : Side → Option Conversation → Option Destination
join_conversation s none = none
join_conversation s (some c) =
    joined c (find (λ r. r.contact_id == c.contact_id) s.remotes)
      (find (λ k. k.contact_id == c.contact_id) s.contacts)

unfoldable pub destination : Opaque → Side → Option Destination
destination conversation s =
    join_conversation s (find (λ c. c.conversation_id == conversation) s.conversations)

-- A message to send, with the vault's profile and the random ids that it draws; `attachment` is the
-- manifest's id.
pub record Draft : Type 0 where
  pub conversation_id : Opaque
  pub plaintext : Opaque
  pub profile : Opaque
  pub attachment : Option Opaque
  pub message_id : Opaque
  pub envelope_id : Opaque

pub data SendFailure : Type 0 where
  conversation_not_found identity_changed_blocked not_stored : SendFailure

pub data SendReply : Type 0 where
  failed : SendFailure → SendReply
  stored : (message_id : Opaque) → SendReply

-- The text payload whose JSON is encrypted.
pub record TextPayload : Type 0 where
  pub message_id : Opaque
  pub profile : Opaque
  pub text : Opaque
  pub disappearing_seconds : ℕ
  pub attachment : Option Opaque

-- `dest.disappearing_seconds ?? 0`
unfoldable pub seconds_of : Option ℕ → ℕ
seconds_of none = 0
seconds_of (some seconds) = seconds

unfoldable pub text_payload : Draft → Destination → TextPayload
unfolding seconds_of
text_payload d to = record {
  message_id = d.message_id;
  profile = d.profile;
  text = d.plaintext;
  disappearing_seconds = seconds_of to.disappearing_seconds;
  attachment = d.attachment;
}

-- `dest.disappearing_seconds ? ... : null`; no seconds and 0 seconds are the same.
unfoldable pub disappears_at : ℕ → Option ℕ → Option ℕ
disappears_at now none = none
disappears_at now (some seconds) = if seconds == 0 then none else some (now + seconds * 1000)

unfoldable pub message_row : ℕ → Draft → Destination → Message
message_row now d to = record {
  message_id = d.message_id;
  conversation_id = d.conversation_id;
  is_sent = true;
  plaintext = d.plaintext;
  envelope = none;
  status = queued;
  disappear_at = disappears_at now to.disappearing_seconds;
}

unfoldable pub outbox_row : ℕ → Draft → Destination → Opaque → Outgoing
outbox_row now d to ciphertext = record {
  envelope_id = d.envelope_id;
  message_id = d.message_id;
  mailbox_id = to.remote.device_id;
  ciphertext = ciphertext;
  created_at = now;
}

-- The attachment's row; an id that is there already rolls the transaction back.
unfoldable pub attach : Option Opaque → List Opaque → Option (List Opaque)
attach none rows = some rows
attach (some id) rows = if contains id rows then none else some (rows ++ id ∷ [])

unfoldable pub write_rows :
    ℕ
    → Draft
    → Destination
    → Option (Opaque × Opaque)
    → Option (List Opaque)
    → Local
    → SendReply × Local
write_rows now d to none rows l = (failed not_stored, l)
write_rows now d to (some _) none l = (failed not_stored, l)
write_rows now d to (some (ciphertext, ratchets)) (some rows) l = (
  stored d.message_id,
  record l {
    messages = l.messages ++ message_row now d to ∷ [];
    outbox = l.outbox ++ outbox_row now d to ciphertext ∷ [];
    side = record l.side { ratchets = ratchets; attachments = rows };
  },
)

-- Nothing is encrypted for an identity that has changed and was not approved.
unfoldable pub unless_changed : Bool → SendReply × Local → Local → SendReply × Local
unless_changed true out l = (failed identity_changed_blocked, l)
unless_changed false out l = out

module _ (encrypt : Remote → TextPayload → Opaque → Option (Opaque × Opaque)) (now : ℕ) where
  unfoldable pub send_to : Draft → Option Destination → Local → SendReply × Local
  send_to d none l = (failed conversation_not_found, l)
  send_to d (some to) l =
      unless_changed to.is_changed
        (write_rows now d to (encrypt to.remote (text_payload d to) l.side.ratchets)
          (attach d.attachment l.side.attachments) l)
        l

  -- sendMessage, up to the flush that follows it.
  unfoldable pub send_message : Draft → Local → SendReply × Local
  send_message d l = send_to d (destination d.conversation_id l.side) l

-- The rows of the outbox that may be posted, oldest first.
unfoldable pub unexpired : ℕ → Option ℕ → Bool
unexpired now none = true
unexpired now (some expiry) = ltb now expiry

unfoldable pub is_postable : ℕ → Local → Outgoing → Bool
is_postable now l o =
    any
      (λ m.
        m.message_id == o.message_id
        && unexpired now m.disappear_at
        && any
            (λ c.
              c.conversation_id == m.conversation_id
              && any (λ k. k.contact_id == c.contact_id && not k.identity_changed) l.side.contacts)
            l.side.conversations)
      l.messages

unfoldable pub postable : ℕ → Local → List Outgoing
postable now l = sort_by (λ o. o.created_at) (select (is_postable now l) l.outbox)

unfoldable pub mark_sent : Outgoing → Local → Local
mark_sent o l = record l {
  messages =
      update (λ m. m.message_id == o.message_id) (λ m. record m { status = sent }) l.messages;
  outbox = delete (λ q. q.envelope_id == o.envelope_id) l.outbox;
}

-- The loop of flushOutbox: it ends at the first row that the relay does not accept.
unfoldable pub flush_rows : (Outgoing → Bool) → List Outgoing → Local → ℕ × Local
flush_rows accepts [] l = (0, l)
flush_rows accepts (o ∷ os) l =
    let (n, l') = flush_rows accepts os (mark_sent o l) in if accepts o then (suc n, l') else (0, l)

-- flushOutbox
unfoldable pub flush_outbox : (Outgoing → Bool) → ℕ → Local → ℕ × Local
flush_outbox accepts now l = flush_rows accepts (postable now l) l
