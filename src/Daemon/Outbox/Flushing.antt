-- ===== src/Daemon/Outbox/Flushing.antt =====
-- What a flush of the outbox sends and removes: the accepted rows, and nothing else.
use crypto_pigeon.Prelude.{
  ℕ, ◌<◌, ◌≡◌, refl, ap, ◌∙◌, ◌⊎◌, Bool, true, false, not, ◌&&◌, Option, none, some, List, [], ◌∷◌,
  arith, any, count, select, delete, update, All, Any, ◌==◌, if◌then◌else◌, Bool-cases, inl, inr,
}
use crypto_pigeon.Prelude.Rows.Laws.{any-Any, Any-any, Any-select, All-select, All-Any}
use crypto_pigeon.Prelude.Rows.Sort.{
  IsSortedBy, sort_by-IsSortedBy, All-sort_by, Any-sort_by, count-sort_by,
}
use crypto_pigeon.Daemon.Local.{sent, Contact, Conversation, Message, Outgoing, Local}
use crypto_pigeon.Daemon.Outbox.{
  unexpired, is_postable, postable, mark_sent, flush_rows, flush_outbox,
}

-- The rows up to the first that the relay does not accept.
unfoldable pub accepted : (Outgoing → Bool) → List Outgoing → List Outgoing
accepted accepts [] = []
accepted accepts (o ∷ os) = if accepts o then o ∷ accepted accepts os else []

unfoldable pub is_row_of : List Outgoing → Outgoing → Bool
is_row_of posted q = any (λ o. q.envelope_id == o.envelope_id) posted

unfoldable pub is_message_of : List Outgoing → Message → Bool
is_message_of posted m = any (λ o. m.message_id == o.message_id) posted

delete-delete :
    (o : Outgoing) (posted rows : List Outgoing)
    → delete (is_row_of posted) (delete (λ q. q.envelope_id == o.envelope_id) rows)
      ≡ delete (is_row_of (o ∷ posted)) rows
unfolding is_row_of
delete-delete o posted [] = refl
delete-delete o posted (r ∷ rs) = ground (arith, delete-delete o posted rs)

abbrev set_sent : Message → Message
set_sent m = record m { status = sent }

update-update :
    (o : Outgoing) (posted : List Outgoing) (rows : List Message)
    → update
        (is_message_of posted)
        set_sent
        (update (λ m. m.message_id == o.message_id) set_sent rows)
      ≡ update (is_message_of (o ∷ posted)) set_sent rows
unfolding is_message_of
update-update o posted [] = refl
update-update o posted (m ∷ ms) = ground (arith, update-update o posted ms)

delete-none : (rows : List Outgoing) → delete (is_row_of []) rows ≡ rows
unfolding is_row_of
delete-none [] = refl
delete-none (r ∷ rs) = ground (arith, delete-none rs)

update-none : (rows : List Message) → update (is_message_of []) set_sent rows ≡ rows
unfolding is_message_of
update-none [] = refl
update-none (m ∷ ms) = ground (arith, update-none ms)

-- The tables after a flush of the rows `posted`.
abbrev pub flushed : List Outgoing → Local → Local
flushed posted l = record l {
  messages = update (is_message_of posted) (λ m. record m { status = sent }) l.messages;
  outbox = delete (is_row_of posted) l.outbox;
}

flush_rows_lem :
    (accepts : Outgoing → Bool) (rows : List Outgoing) (l : Local)
    → flush_rows accepts rows l ≡ (count (accepted accepts rows), flushed (accepted accepts rows) l)
unfolding flush_rows accepted mark_sent
flush_rows_lem accepts [] l = ground (arith, delete-none l.outbox, update-none l.messages)
flush_rows_lem accepts (o ∷ os) l = elim (Bool-cases (accepts o)) [
  | inr no_answer ↦ rw no_answer (ground (arith, delete-none l.outbox, update-none l.messages))
  | inl good ↦ rw good (
      ground (
        arith,
        flush_rows_lem accepts os (mark_sent o l),
        delete-delete o (accepted accepts os) l.outbox,
        update-update o (accepted accepts os) l.messages,
      ))
]

-- The conversation is the message's, and is held with a contact whose identity is unchanged.
abbrev pub Talks : Local → Message → Conversation → Type 0
Talks l m c =
    (c.conversation_id ≡ m.conversation_id)
    × Any (λ k. (k.contact_id ≡ c.contact_id) × (k.identity_changed ≡ false)) l.side.contacts

abbrev talks : Local → Message → Conversation → Bool
talks l m c =
    c.conversation_id == m.conversation_id
    && any (λ k. k.contact_id == c.contact_id && not k.identity_changed) l.side.contacts

-- The message is there, unexpired, and of a conversation with a contact whose identity is unchanged.
abbrev pub Lives : ℕ → Local → Message → Type 0
Lives now l m =
    (m.disappear_at ≡ none ⊎ (expiry : ℕ) × (m.disappear_at ≡ some expiry) × (now < expiry))
    × Any (Talks l m) l.side.conversations

abbrev pub MayPost : ℕ → Local → Outgoing → Type 0
MayPost now l o = Any (λ m. (m.message_id ≡ o.message_id) × Lives now l m) l.messages

-- A flush: `rows` are the rows of the outbox that may be posted, in the order of their creation.
pub record IsFlush (accepts : Outgoing → Bool) (now : ℕ) (l : Local) (o : ℕ × Local) : Type 0 where
  pub rows : List Outgoing
  pub ordered : IsSortedBy (λ r. r.created_at) rows
  pub sound : All (λ r. MayPost now l r × Any (λ q. q ≡ r) l.outbox) rows
  pub complete : All (λ r. MayPost now l r → Any (λ q. q ≡ r) rows) l.outbox
  pub number : count rows ≡ count (select (is_postable now l) l.outbox)
  pub result : o ≡ (count (accepted accepts rows), flushed (accepted accepts rows) l)

unexpired-Lives :
    (now : ℕ) (o : Option ℕ)
    → unexpired now o ≡ true
    → o ≡ none ⊎ (expiry : ℕ) × (o ≡ some expiry) × (now < expiry)
unfolding unexpired
unexpired-Lives now none h = inl refl
unexpired-Lives now (some t) h = inr (t, refl, ground arith)

Lives-unexpired :
    (now : ℕ) (o : Option ℕ)
    → o ≡ none ⊎ (expiry : ℕ) × (o ≡ some expiry) × (now < expiry)
    → unexpired now o ≡ true
unfolding unexpired
Lives-unexpired now none h = refl
Lives-unexpired now (some t) (inl e) = absurd (cc e)
Lives-unexpired now (some t) (inr (expiry, e, h)) = ground arith

Any-is_kept :
    (c : Conversation) (ks : List Contact)
    → Any (λ k. (k.contact_id ≡ c.contact_id) × (k.identity_changed ≡ false)) ks
    → any (λ k. k.contact_id == c.contact_id && not k.identity_changed) ks ≡ true
Any-is_kept c ks h = Any-any _ _ ks (λ k t. ground arith) h

is_kept-Any :
    (c : Conversation) (ks : List Contact)
    → any (λ k. k.contact_id == c.contact_id && not k.identity_changed) ks ≡ true
    → Any (λ k. (k.contact_id ≡ c.contact_id) × (k.identity_changed ≡ false)) ks
is_kept-Any c ks h = any-Any _ _ ks (λ k t. (ground arith, ground arith)) h

talks-Talks : (l : Local) (m : Message) (c : Conversation) → talks l m c ≡ true → Talks l m c
talks-Talks l m c h = (ground arith, is_kept-Any c l.side.contacts (ground arith))

Talks-talks : (l : Local) (m : Message) (c : Conversation) → Talks l m c → talks l m c ≡ true
Talks-talks l m c (e, known) = ground (arith, e, Any-is_kept c l.side.contacts known)

abbrev is_message : ℕ → Local → Outgoing → Message → Bool
is_message now l o m =
    m.message_id == o.message_id
    && unexpired now m.disappear_at
    && any (talks l m) l.side.conversations

module _ (now : ℕ) (l : Local) (o : Outgoing) where
  is_message-Lives :
      (m : Message) → is_message now l o m ≡ true → (m.message_id ≡ o.message_id) × Lives now l m
  is_message-Lives m h = (
    ground arith,
    (
      unexpired-Lives now m.disappear_at (ground arith),
      any-Any (talks l m) (Talks l m) l.side.conversations (talks-Talks l m) (ground arith),
    ),
  )

  Lives-is_message :
      (m : Message) → (m.message_id ≡ o.message_id) × Lives now l m → is_message now l o m ≡ true
  Lives-is_message m (e, (alive, found)) = ground (
    arith,
    e,
    Lives-unexpired now m.disappear_at alive,
    Any-any (talks l m) (Talks l m) l.side.conversations (Talks-talks l m) found,
  )

  is_postable-MayPost : is_postable now l o ≡ true → MayPost now l o
  unfolding is_postable
  is_postable-MayPost h =
      any-Any (is_message now l o) (λ m. (m.message_id ≡ o.message_id) × Lives now l m) l.messages
        is_message-Lives h

  MayPost-is_postable : MayPost now l o → is_postable now l o ≡ true
  unfolding is_postable
  MayPost-is_postable h =
      Any-any (is_message now l o) (λ m. (m.message_id ≡ o.message_id) × Lives now l m) l.messages
        Lives-is_message h

-- A flush posts the rows that may be posted, oldest first, up to the first that the relay does not
-- accept. It counts the accepted ones, removes exactly them from the outbox, marks exactly their
-- messages as sent, and leaves all else as it was. A row may be posted where its message is there and
-- has not expired, and the identity of its contact has not changed.
pub flush_outbox_lem :
    (accepts : Outgoing → Bool) (now : ℕ) (l : Local)
    → IsFlush accepts now l (flush_outbox accepts now l)
unfolding flush_outbox postable
flush_outbox_lem accepts now l = record {
  rows = postable now l;
  ordered = sort_by-IsSortedBy (λ r. r.created_at) (select (is_postable now l) l.outbox);
  sound =
      All-sort_by (λ r. r.created_at) (λ r. MayPost now l r × Any (λ q. q ≡ r) l.outbox)
        (select (is_postable now l) l.outbox)
        (All-select (is_postable now l) (λ r. MayPost now l r × Any (λ q. q ≡ r) l.outbox) l.outbox
          (All-Any _ l.outbox (λ r k h. (is_postable-MayPost now l r h, k))));
  complete = All-Any _ l.outbox (λ r k h.
      Any-sort_by (λ q. q.created_at) (λ q. q ≡ r) (select (is_postable now l) l.outbox)
        (Any-select (is_postable now l) (λ q. q ≡ r) l.outbox
          (λ q e. ap (is_postable now l) e ∙ MayPost-is_postable now l r h) k));
  number = count-sort_by (λ q. q.created_at) (select (is_postable now l) l.outbox);
  result = flush_rows_lem accepts (postable now l) l;
}
