-- ===== src/Examples/Client.antt =====
-- The daemon's outbox and inbox at concrete inputs.
use crypto_pigeon.Prelude.{
  ◌≡◌, refl, Bool, true, false, Option, none, some, List, [], ◌∷◌, ◌==◌, arith,
}
use crypto_pigeon.Relay.Db.{Opaque}
use crypto_pigeon.Daemon.Local.{Remote, Side, Local}
use crypto_pigeon.Daemon.Inbox.{
  Envelope, text, no_attachment, Payload, Draw, Bundle, not_ok, Tally, sync,
}
use crypto_pigeon.Daemon.Inbox.Durability.{AreSeen, sync-AreSeen}
use crypto_pigeon.Daemon.Inbox.Once.{is_copy, copies, IsOnce, sync-IsOnce}
use crypto_pigeon.Daemon.Outbox.{
  joined, join_conversation, destination, Draft, TextPayload, text_payload, stored, attach,
  write_rows, unless_changed, send_to, send_message, flush_outbox,
}
use crypto_pigeon.Daemon.Outbox.Queueing.{IsQueued, send_message-IsQueued}
use crypto_pigeon.Daemon.Outbox.Flushing.{IsFlush, flush_outbox_lem}

abbrev bob_remote : Remote
bob_remote = record { contact_id = 2; user_id = 2; device_id = 12; signal_device_id = 1 }

-- The tables with bob as a contact, whose identity has changed or not.
abbrev tables : Bool → Local
tables changed = record {
  messages = [];
  outbox = [];
  seen = [];
  side = record {
    contacts = record { contact_id = 2; identity_changed = changed } ∷ [];
    remotes = bob_remote ∷ [];
    conversations =
        record { conversation_id = 80; contact_id = 2; disappearing_seconds = none } ∷ [];
    controls = [];
    links = [];
    attachments = [];
    profiles = [];
    typing = [];
    ratchets = 0;
  };
}

-- An encryption that keeps its text, and moves the ratchet.
abbrev encrypt : Remote → Opaque → Opaque → Option (Opaque × Opaque)
encrypt r words ratchets = some (words, 1)

abbrev decrypt : Remote → Opaque → Opaque → Option (Payload × Opaque)
decrypt r ciphertext ratchets =
    some (record { profile = none; kind = text ciphertext none 0 no_attachment }, 1)

abbrev fetch : Opaque → Side → Bundle
fetch device s = not_ok

-- An encryption of payloads that keeps the text, and moves the ratchet.
abbrev encrypt_payload : Remote → TextPayload → Opaque → Option (Opaque × Opaque)
encrypt_payload r p ratchets = some (p.text, 1)

abbrev draft : Draft
draft = record {
  conversation_id = 80;
  plaintext = 44;
  profile = 7;
  attachment = none;
  message_id = 90;
  envelope_id = 91;
}

stores : (send_message encrypt_payload 1000 draft (tables false)).0 ≡ stored 90
unfolding send_message text_payload send_to unless_changed write_rows attach destination
    join_conversation joined
stores = refl

send_message-IsQueued_example :
    IsQueued encrypt_payload 1000 draft
      (tables false)
      (send_message encrypt_payload 1000 draft (tables false)).1
send_message-IsQueued_example =
    send_message-IsQueued encrypt_payload 1000 draft (tables false) 90 stores

abbrev sent_once : Local
sent_once = (send_message encrypt_payload 1000 draft (tables false)).1

flush_outbox_lem_example :
    IsFlush
      (λ o. o.mailbox_id == 12)
      2000
      sent_once
      (flush_outbox (λ o. o.mailbox_id == 12) 2000 sent_once)
flush_outbox_lem_example = flush_outbox_lem (λ o. o.mailbox_id == 12) 2000 sent_once

abbrev envelope : Envelope
envelope = record { well_formed = true; envelope_id = 95; sender_id = 12; ciphertext = 66 }

abbrev draws : Draw
draws = record { message_id = 96; conversation_id = 97; control_id = 98 }

-- The same envelope, handed out twice.
abbrev twice : List (Envelope × Draw)
twice = (envelope, draws) ∷ (envelope, draws) ∷ []

abbrev tally : Tally
tally = record { finished = true; acks = []; received_count = 0 }

sync-AreSeen_example :
    AreSeen
      (sync decrypt encrypt fetch 1000 twice tally (tables false)).0.acks
      (sync decrypt encrypt fetch 1000 twice tally (tables false)).1
sync-AreSeen_example = sync-AreSeen decrypt encrypt fetch 1000 twice tally (tables false) tt

no_copy : IsOnce 95 (tables false)
unfolding copies is_copy
no_copy = omega arith

sync-IsOnce_example : IsOnce 95 (sync decrypt encrypt fetch 1000 twice tally (tables false)).1
sync-IsOnce_example = sync-IsOnce decrypt encrypt fetch 1000 95 twice tally (tables false) no_copy
