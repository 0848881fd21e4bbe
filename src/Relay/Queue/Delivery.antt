-- ===== src/Relay/Queue/Delivery.antt =====
-- What a send stores in the queue, once or again.
use crypto_pigeon.Prelude.{
  ℕ, ◌≡◌, refl, ap, Bool, true, false, Option, none, some, List, [], ◌∷◌, arith, Text, text_eq,
  text_eq_refl, any, Bool-cases, inl, inr,
}
use crypto_pigeon.Prelude.Rows.Laws.{any-append}
use crypto_pigeon.Relay.Db.{Uuid, Message, Db}
use crypto_pigeon.Relay.Sockets.{Net}
use crypto_pigeon.Relay.Conversations.{permitted}
use crypto_pigeon.Relay.Queue.{
  SendBody, Reply, queued, is_ephemeral, user_of, row_of, message_id, insert_message, deliver,
  push_ephemeral, send_between, send,
}

-- What a successful storing send has established.
pub record IsStored (now : ℕ) (sender : Uuid) (body : SendBody) (db : Db) (net : Net) : Type 0 where
  pub user_one : Uuid
  pub user_two : Uuid
  pub sender_user : user_of sender db.devices ≡ some user_one
  pub recipient_user : user_of body.mailbox_id db.devices ≡ some user_two
  pub allowed : permitted user_one user_two db.permissions ≡ true
  pub durable : is_ephemeral body ≡ false
  pub reply : (send now sender body (db, net)).0 ≡ queued

deliver-stores :
    (now : ℕ) (sender : Uuid) (body : SendBody) (db : Db) (net : Net) (p : Message → Bool)
    → any p db.messages ≡ false
    → any p (deliver now sender body (db, net)).1.messages ≡ true
    → (is_ephemeral body ≡ false) × ((deliver now sender body (db, net)).0 ≡ queued)
unfolding deliver
deliver-stores now sender body db net p old new = ground arith

send_between-stores :
    (now : ℕ) (sender : Uuid) (body : SendBody) (o1 o2 : Option Uuid) (db : Db) (net : Net)
    (p : Message → Bool)
    → any p db.messages ≡ false
    → any p (send_between now sender body o1 o2 (db, net)).1.messages ≡ true
    → (u1 : Uuid) × (u2 : Uuid) × (o1 ≡ some u1)
      × (o2 ≡ some u2)
      × (permitted u1 u2 db.permissions ≡ true)
      × (is_ephemeral body ≡ false)
      × ((send_between now sender body o1 o2 (db, net)).0 ≡ queued)
unfolding send_between
send_between-stores now sender body none o2 db net p old new = absurd (cc (old, new))
send_between-stores now sender body (some u1) none db net p old new = absurd (cc (old, new))
send_between-stores now sender body (some u1) (some u2) db net p old new =
    elim (Bool-cases (permitted u1 u2 db.permissions)) [
      | inl e ↦
          let stored = deliver-stores now sender body db net p old (rw e at new) in
          (u1, u2, refl, refl, e, stored.0, rw e stored.1)
      | inr e ↦ absurd (cc (old, (rw e at new)))
    ]

-- A row that a send adds to the queue is added only for a pair of users with an unrevoked permission,
-- never for a typing notice or a lifetime of ten seconds or less, and is answered as queued.
pub send_stores :
    (now : ℕ) (sender : Uuid) (body : SendBody) (db : Db) (net : Net) (p : Message → Bool)
    → any p db.messages ≡ false
    → any p (send now sender body (db, net)).1.messages ≡ true
    → IsStored now sender body db net
unfolding send
send_stores now sender body db net p old new =
    let (u1, u2, e1, e2, ok, durable, reply) =
      send_between-stores now sender body (user_of sender db.devices)
        (user_of body.mailbox_id db.devices) db net p old new in
    record {
      user_one = u1;
      user_two = u2;
      sender_user = e1;
      recipient_user = e2;
      allowed = ok;
      durable = durable;
      reply = reply;
    }

abbrev pub has_id : Text → List Message → Bool
has_id id rows = any (λ row. text_eq row.id id) rows

has_id-insert_message :
    (m : Message) (rows : List Message) → has_id m.id (insert_message m rows) ≡ true
unfolding insert_message
has_id-insert_message m rows =
    ground
      (arith, any-append (λ (row : Message). text_eq row.id m.id) rows (m ∷ []), text_eq_refl m.id)

insert_message_present :
    (m : Message) (rows : List Message) → has_id m.id rows ≡ true → insert_message m rows ≡ rows
unfolding insert_message
insert_message_present m rows h = rw h

insert_row_present :
    (now : ℕ) (sender : Uuid) (body : SendBody) (rows : List Message)
    → has_id (message_id body.envelope_id) rows ≡ true
    → insert_message (row_of now sender body) rows ≡ rows
unfolding row_of
insert_row_present now sender body rows h = insert_message_present (row_of now sender body) rows h

has_id-insert_row :
    (now : ℕ) (sender : Uuid) (body : SendBody) (rows : List Message)
    → has_id (message_id body.envelope_id) (insert_message (row_of now sender body) rows) ≡ true
unfolding row_of
has_id-insert_row now sender body rows = has_id-insert_message (row_of now sender body) rows

module _ (now : ℕ) (sender : Uuid) (body : SendBody) (db : Db) (net : Net) where
  deliver-has_id :
      (deliver now sender body (db, net)).0 ≡ queued
      → has_id (message_id body.envelope_id) (deliver now sender body (db, net)).1.messages ≡ true
  unfolding deliver push_ephemeral
  deliver-has_id q = ground (arith, has_id-insert_row now sender body db.messages)

  send_between-has_id :
      (o1 o2 : Option Uuid)
      → (send_between now sender body o1 o2 (db, net)).0 ≡ queued
      → has_id
          (message_id body.envelope_id)
          (send_between now sender body o1 o2 (db, net)).1.messages
        ≡ true
  unfolding send_between
  send_between-has_id none o2 q = absurd (cc q)
  send_between-has_id (some u1) none q = absurd (cc q)
  send_between-has_id (some u1) (some u2) q = ground (arith, deliver-has_id)

  deliver-present :
      has_id (message_id body.envelope_id) db.messages ≡ true
      → (deliver now sender body (db, net)).1.messages ≡ db.messages
  unfolding deliver
  deliver-present h = ground (arith, insert_row_present now sender body db.messages h)

  send_between-present :
      (o1 o2 : Option Uuid)
      → has_id (message_id body.envelope_id) db.messages ≡ true
      → (send_between now sender body o1 o2 (db, net)).1.messages ≡ db.messages
  unfolding send_between
  send_between-present none o2 h = refl
  send_between-present (some u1) none h = refl
  send_between-present (some u1) (some u2) h = ground (arith, deliver-present h)

-- Once an envelope has been queued, any later send under the same id, a retry or another sender's,
-- leaves the queue as it is.
pub send_again :
    (now now' : ℕ) (sender sender' : Uuid) (body body' : SendBody) (db db' : Db)
    (net net' net'' : Net)
    → send now sender body (db, net) ≡ (queued, db', net')
    → message_id body.envelope_id ≡ message_id body'.envelope_id
    → (send now' sender' body' (db', net'')).1.messages ≡ db'.messages
unfolding send
send_again now now' sender sender' body body' db db' net net' net'' first same =
    let o1 = user_of sender db.devices in
    let o2 = user_of body.mailbox_id db.devices in
    let row =
      send_between-has_id now sender body db net o1 o2 (ap (λ (r : Reply × Db × Net). r.0) first) in
    send_between-present now' sender' body' db' net'' (user_of sender' db'.devices)
      (user_of body'.mailbox_id db'.devices)
      (rw (← same, ← ap (λ (r : Reply × Db × Net). r.1) first) row)
