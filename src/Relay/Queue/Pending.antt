-- ===== src/Relay/Queue/Pending.antt =====
-- What the recipient of a queued envelope fetches, and what an acknowledgement removes.
use crypto_pigeon.Prelude.{
  ℕ, ◌≤◌, ◌≡◌, ap, ◌∙◌, Bool, true, false, not, ◌&&◌, some, List, [], ◌∷◌, ◌++◌, arith, Text, lower,
  length, contains, text_eq, text_eq_refl, any, select, delete, ◌==◌, ltb,
}
use crypto_pigeon.Prelude.Rows.Laws.{
  any-append, any-select, any-map, any-delete, any-ext, any-delete_other, any-delete_none,
}
use crypto_pigeon.Prelude.Rows.Sort.{any-sort_by}
use crypto_pigeon.Relay.Db.{Uuid, Message, Db}
use crypto_pigeon.Relay.Sockets.{Net}
use crypto_pigeon.Relay.Conversations.{permitted}
use crypto_pigeon.Relay.Queue.Ids.{uuid_to_hex-message_id}
use crypto_pigeon.Relay.Queue.{
  dash, SendBody, expiry_of, is_ephemeral, user_of, row_of, message_id, insert_message, deliver,
  send_between, send, Envelope, envelope_of, purge, waits_for, waiting, pending, acknowledged,
  acknowledge,
}
use crypto_pigeon.Relay.Queue.Delivery.{has_id}

-- A client fetches an envelope with a given property exactly if a row for this device, neither
-- delivered nor expired, has it.
pub any-pending :
    (now : ℕ) (device : Uuid) (db : Db) (p : Envelope → Bool)
    → any p (pending now device db).0
      ≡ any (λ m. waits_for device m && not (ltb m.expires_at now) && p (envelope_of m)) db.messages
unfolding pending purge waiting
any-pending now device db p =
    any-map p envelope_of (waiting device (purge now db.messages))
    ∙ any-sort_by _ (λ m. p (envelope_of m))
        (select (waits_for device) (delete (λ m. ltb m.expires_at now) db.messages))
    ∙ any-select (λ m. p (envelope_of m)) (waits_for device)
        (delete (λ m. ltb m.expires_at now) db.messages)
    ∙ any-delete (λ m. waits_for device m && p (envelope_of m)) (λ m. ltb m.expires_at now)
        db.messages
    ∙ any-ext (λ m. not (ltb m.expires_at now) && (waits_for device m && p (envelope_of m)))
        (λ m. waits_for device m && not (ltb m.expires_at now) && p (envelope_of m)) db.messages
        (λ m. ground arith)

-- The envelope that a client should see for what `sender` sent in `body`.
abbrev pub carries : Uuid → SendBody → Envelope → Bool
carries sender body e =
    text_eq e.envelope_id (lower body.envelope_id)
    && e.sender_id == sender
    && e.mailbox_id == body.mailbox_id
    && text_eq e.ciphertext body.ciphertext

row-pending :
    (now now' : ℕ) (sender : Uuid) (body : SendBody)
    → length body.envelope_id ≡ 32
    → contains dash body.envelope_id ≡ false
    → now' ≤ expiry_of now body
    → (waits_for body.mailbox_id (row_of now sender body)
        && not (ltb (row_of now sender body).expires_at now')
        && carries sender body (envelope_of (row_of now sender body)))
      ≡ true
unfolding waits_for row_of envelope_of
row-pending now now' sender body h k late = ground (
  arith,
  uuid_to_hex-message_id body.envelope_id h k,
  text_eq_refl (lower body.envelope_id),
  text_eq_refl body.ciphertext,
)

insert_fresh :
    (m : Message) (rows : List Message)
    → has_id m.id rows ≡ false
    → insert_message m rows ≡ rows ++ m ∷ []
unfolding insert_message
insert_fresh m rows h = rw h

row_of-fresh :
    (now : ℕ) (sender : Uuid) (body : SendBody) (rows : List Message)
    → has_id (message_id body.envelope_id) rows ≡ false
    → has_id (row_of now sender body).id rows ≡ false
unfolding row_of
row_of-fresh now sender body rows h = h

deliver-fresh :
    (now : ℕ) (sender : Uuid) (body : SendBody) (db : Db) (net : Net)
    → is_ephemeral body ≡ false
    → has_id (message_id body.envelope_id) db.messages ≡ false
    → (deliver now sender body (db, net)).1.messages ≡ db.messages ++ row_of now sender body ∷ []
unfolding deliver
deliver-fresh now sender body db net durable fresh = rw durable (
    insert_fresh (row_of now sender body) db.messages
      (row_of-fresh now sender body db.messages fresh))

deliver-pending :
    (now now' : ℕ) (sender : Uuid) (body : SendBody) (db : Db) (net : Net)
    → is_ephemeral body ≡ false
    → length body.envelope_id ≡ 32
    → contains dash body.envelope_id ≡ false
    → has_id (message_id body.envelope_id) db.messages ≡ false
    → now' ≤ expiry_of now body
    → any
        (carries sender body)
        (pending now' body.mailbox_id (deliver now sender body (db, net)).1).0
      ≡ true
deliver-pending now now' sender body db net durable h k fresh late =
    let row = row_of now sender body in
    let p = λ (m : Message).
      waits_for body.mailbox_id m
      && not (ltb m.expires_at now')
      && carries sender body (envelope_of m) in
    any-pending now' body.mailbox_id (deliver now sender body (db, net)).1 (carries sender body)
    ∙ ap (any p) (deliver-fresh now sender body db net durable fresh)
    ∙ any-append p db.messages (row ∷ [])
    ∙ ground (arith, row-pending now now' sender body h k late)

-- An envelope under a fresh 32-digit id, sent between permitted users with a lifetime of more than
-- ten seconds, is fetched by its recipient until it expires: with its id in lower case, its sender
-- and its ciphertext.
pub send-pending :
    (now now' : ℕ) (sender u1 u2 : Uuid) (body : SendBody) (db : Db) (net : Net)
    → user_of sender db.devices ≡ some u1
    → user_of body.mailbox_id db.devices ≡ some u2
    → permitted u1 u2 db.permissions ≡ true
    → is_ephemeral body ≡ false
    → length body.envelope_id ≡ 32
    → contains dash body.envelope_id ≡ false
    → has_id (message_id body.envelope_id) db.messages ≡ false
    → now' ≤ expiry_of now body
    → any (carries sender body) (pending now' body.mailbox_id (send now sender body (db, net)).1).0
      ≡ true
unfolding send send_between
send-pending now now' sender u1 u2 body db net e1 e2 ok durable h k fresh late =
    rw (e1, send_between)
      (rw (e2, send_between)
        (rw ok (deliver-pending now now' sender body db net durable h k fresh late)))

-- Acknowledging takes exactly the named envelopes of this device from the queue: none of them is
-- left, and a row of another device or under another id is found exactly as before.
pub acknowledge_lem :
    (ids : List Text) (device : Uuid) (db : Db)
    → (any (acknowledged ids device) (acknowledge ids device db).messages ≡ false)
      × ((p : Message → Bool)
          → any (λ m. not (acknowledged ids device m) && p m) (acknowledge ids device db).messages
            ≡ any (λ m. not (acknowledged ids device m) && p m) db.messages)
unfolding acknowledge
acknowledge_lem ids device db = (
  any-delete_none (acknowledged ids device) (acknowledged ids device) db.messages (λ m h. h),
  λ p.
      any-delete_other (λ m. not (acknowledged ids device m) && p m) (acknowledged ids device)
        db.messages (λ m h. ground arith),
)
