-- ===== src/Relay/Dropboxes/Exchange.antt =====
-- Two contacts acknowledge their exchange.
use crypto_pigeon.Prelude.{
  ◌≡◌, refl, ◌∙◌, Bool, true, false, not, ◌&&◌, some, List, [], ◌∷◌, arith, any, ◌==◌,
}
use crypto_pigeon.Prelude.Rows.Laws.{any-append, any-delete_none, any-delete_other}
use crypto_pigeon.Relay.Db.{Uuid, ConnectionRequest, Db}
use crypto_pigeon.Relay.Conversations.{permitted}
use crypto_pigeon.Relay.Conversations.Grants.{permitted_comm}
use crypto_pigeon.Relay.Dropboxes.{
  Ack, ExchangeReply, exchanged, user_of, is_ack, insert_ack, is_settled, is_between, settle,
  exchange_between, exchange_ack,
}

insert_ack-present :
    (own peer : Uuid) (acks : List Ack) → any (is_ack own peer) (insert_ack own peer acks) ≡ true
unfolding insert_ack is_ack
insert_ack-present own peer acks =
    ground
      (arith, any-append (is_ack own peer) acks (record { user_id = own; peer_id = peer } ∷ []))

insert_ack_mono :
    (own peer a b : Uuid) (acks : List Ack)
    → any (is_ack a b) acks ≡ true
    → any (is_ack a b) (insert_ack own peer acks) ≡ true
unfolding insert_ack
insert_ack_mono own peer a b acks h =
    ground (arith, any-append (is_ack a b) acks (record { user_id = own; peer_id = peer } ∷ []))

is_settled_comm :
    (own peer : Uuid) (r : ConnectionRequest) → is_settled own peer r ≡ is_settled peer own r
unfolding is_settled
is_settled_comm own peer r = ground arith

-- What two acknowledgements, in either order, leave of an exchange.
pub record IsExchanged (own peer : Uuid) (before after : Db) (acks' : List Ack)
    (reply : ExchangeReply) : Type 0 where
  pub purged : reply ≡ exchanged true
  pub no_request : any (is_settled own peer) after.requests ≡ false
  pub no_ack : any (is_between own peer) acks' ≡ false
  pub others :
      (p : ConnectionRequest → Bool)
      → any (λ r. not (is_settled own peer r) && p r) after.requests
        ≡ any (λ r. not (is_settled own peer r) && p r) before.requests
  pub permissions : after.permissions ≡ before.permissions

settle-IsExchanged :
    (own peer : Uuid) (acks : List Ack) (db : Db)
    → any (is_ack peer own) acks ≡ true
    → IsExchanged own peer db
        (settle own peer acks db).2
        (settle own peer acks db).1
        (settle own peer acks db).0
unfolding settle
settle-IsExchanged own peer acks db h = rw h (record {
  purged = refl;
  no_request = any-delete_none (is_settled own peer) (is_settled own peer) db.requests (λ r k. k);
  no_ack = any-delete_none (is_between own peer) (is_between own peer) acks (λ a k. k);
  others = λ p.
      any-delete_other (λ r. not (is_settled own peer r) && p r) (is_settled own peer) db.requests
        (λ r k. ground arith);
  permissions = refl;
})

insert_ack-other :
    (own peer : Uuid) (acks : List Ack)
    → (own == peer) ≡ false
    → any (is_ack peer own) acks ≡ false
    → any (is_ack peer own) (insert_ack own peer acks) ≡ false
unfolding insert_ack is_ack
insert_ack-other own peer acks ne h =
    ground
      (arith, any-append (is_ack peer own) acks (record { user_id = own; peer_id = peer } ∷ []))

exchange_between-first :
    (a b : Uuid) (acks : List Ack) (db : Db)
    → (a == b) ≡ false
    → permitted a b db.permissions ≡ true
    → any (is_ack b a) acks ≡ false
    → exchange_between (some a) (some b) acks db ≡ (exchanged false, insert_ack a b acks, db)
unfolding exchange_between settle
exchange_between-first a b acks db ne ok fresh = rw (ok, insert_ack-other a b acks ne fresh) refl

exchange_between-second :
    (a b : Uuid) (acks : List Ack) (db : Db)
    → permitted a b db.permissions ≡ true
    → any (is_ack b a) acks ≡ true
    → IsExchanged a b db
        (exchange_between (some a) (some b) acks db).2
        (exchange_between (some a) (some b) acks db).1
        (exchange_between (some a) (some b) acks db).0
unfolding exchange_between
exchange_between-second a b acks db ok there =
    rw ok (settle-IsExchanged a b (insert_ack a b acks) db (insert_ack_mono a b b a acks there))

-- Two permitted contacts acknowledge their exchange, neither of whom had before. The first
-- acknowledgement changes no request. The second removes the accepted requests between them, in
-- both directions, and both acknowledgements; every other request, and the permission, stays.
pub exchange_twice :
    (d1 d2 a b : Uuid) (acks : List Ack) (db : Db)
    → user_of d1 db ≡ some a
    → user_of d2 db ≡ some b
    → (a == b) ≡ false
    → permitted a b db.permissions ≡ true
    → any (is_ack b a) acks ≡ false
    → (exchange_ack d1 d2 acks db ≡ (exchanged false, insert_ack a b acks, db))
      × IsExchanged b a db
          (exchange_ack d2 d1 (insert_ack a b acks) db).2
          (exchange_ack d2 d1 (insert_ack a b acks) db).1
          (exchange_ack d2 d1 (insert_ack a b acks) db).0
unfolding exchange_ack
exchange_twice d1 d2 a b acks db e1 e2 ne ok fresh = (
  rw (e1, e2) (exchange_between-first a b acks db ne ok fresh),
  rw (e2, e1)
      (exchange_between-second b a (insert_ack a b acks) db (permitted_comm b a db.permissions ∙ ok)
        (insert_ack-present a b acks)),
)
