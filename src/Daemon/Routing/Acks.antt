-- ===== src/Daemon/Routing/Acks.antt =====
-- How acknowledgements are split between the onion service's inbox and the relay.
use crypto_pigeon.Prelude.{
  ◌≡◌, refl, sym, ap, subst, ◌∙◌, Bool, true, false, not, ◌&&◌, ◌||◌, List, [], ◌∷◌, arith, any,
  select, delete, contains, if◌then◌else◌,
}
use crypto_pigeon.Prelude.Rows.Laws.{any-delete_other}
use crypto_pigeon.Relay.Db.{Opaque}
use crypto_pigeon.Daemon.Onion.{Parcel}
use crypto_pigeon.Daemon.Routing.{
  TorMode, direct_tor_p2p, hybrid_tor_relay, relay_only, answered, to_relay, no_content, is_direct,
  is_hybrid, Routing, ack, Routed, is_parcel, take_acks, ack_reply, route_ack, route_tor, route_in,
  route,
}

-- No id occurs twice.
unfoldable pub are_distinct : List Opaque → Bool
are_distinct [] = true
are_distinct (id ∷ ids) = not (contains id ids) && are_distinct ids

-- Whether one of the ids is the parcel's.
abbrev pub is_named : List Opaque → Parcel → Bool
is_named ids p = contains p.envelope.envelope_id ids

delete_nothing : (inbox : List Parcel) → delete (is_named []) inbox ≡ inbox
delete_nothing [] = refl
delete_nothing (p ∷ ps) = ground (arith, delete_nothing ps)

delete-is_named :
    (id : Opaque) (ids : List Opaque) (inbox : List Parcel)
    → delete (is_named ids) (delete (is_parcel id) inbox) ≡ delete (is_named (id ∷ ids)) inbox
unfolding is_parcel
delete-is_named id ids [] = refl
delete-is_named id ids (p ∷ ps) = ground (arith, delete-is_named id ids ps)

take_acks-inbox :
    (ids : List Opaque) (inbox : List Parcel)
    → (take_acks ids inbox).1 ≡ delete (is_named ids) inbox
unfolding take_acks
take_acks-inbox [] inbox = sym (delete_nothing inbox)
take_acks-inbox (id ∷ ids) inbox =
    take_acks-inbox ids (delete (is_parcel id) inbox) ∙ delete-is_named id ids inbox

-- The ids that no parcel has.
abbrev pub missing : List Parcel → List Opaque → List Opaque
missing inbox ids = select (λ id. not (any (is_parcel id) inbox)) ids

missing-delete :
    (id : Opaque) (ids : List Opaque) (inbox : List Parcel)
    → contains id ids ≡ false
    → missing (delete (is_parcel id) inbox) ids ≡ missing inbox ids
missing-delete id [] inbox h = refl
missing-delete id (i ∷ ids) inbox h =
    let other =
      any-delete_other (is_parcel i) (is_parcel id) inbox
        (λ p k. unfold is_parcel in ground arith) in
    ground (arith, other, missing-delete id ids inbox)

take_acks-ids :
    (ids : List Opaque) (inbox : List Parcel)
    → are_distinct ids ≡ true
    → (take_acks ids inbox).0 ≡ missing inbox ids
unfolding take_acks are_distinct
take_acks-ids [] inbox h = refl
take_acks-ids (id ∷ ids) inbox h =
    ground (arith, take_acks-ids ids (delete (is_parcel id) inbox), missing-delete id ids inbox)

abbrev pub is_empty : List Opaque → Bool
is_empty [] = true
is_empty (id ∷ ids) = false

ack_reply_lem :
    (mode : TorMode) (ids : List Opaque)
    → ack_reply mode ids
      ≡ (if is_hybrid mode && not (is_empty ids) then to_relay (ack ids) else answered no_content)
unfolding ack_reply
ack_reply_lem mode [] = ground arith
ack_reply_lem mode (id ∷ ids) = ground arith

-- How the ids of an acknowledgement are used: the inbox after it, and the reply.
pub record IsSplit (ids : List Opaque) (s : Routing) (o : Routed × Routing) : Type 0 where
  pub removed : o.1.tables.inbox ≡ delete (is_named ids) s.tables.inbox
  pub passed : o.0 ≡ (
      if is_hybrid s.mode && not (is_empty (missing s.tables.inbox ids))
      then to_relay (ack (missing s.tables.inbox ids))
      else answered no_content)
  pub store : o.1.store ≡ s.store

route_ack-IsSplit :
    (ids : List Opaque) (s : Routing) → are_distinct ids ≡ true → IsSplit ids s (route_ack ids s)
unfolding route_ack
route_ack-IsSplit ids s h = record {
  removed = take_acks-inbox ids s.tables.inbox;
  passed = ap (ack_reply s.mode) (take_acks-ids ids s.tables.inbox h) ∙ ack_reply_lem s.mode _;
  store = refl;
}

route_in-ack :
    (m : TorMode) (ids : List Opaque) (s : Routing)
    → (is_direct m || is_hybrid m) ≡ true
    → route_in m (ack ids) s ≡ route_ack ids s
unfolding route_in route_tor is_direct is_hybrid
route_in-ack direct_tor_p2p ids s h = refl
route_in-ack hybrid_tor_relay ids s h = refl
route_in-ack relay_only ids s h = ground arith

-- In the modes that use Tor, an acknowledgement of distinct ids removes exactly the parcels with those
-- ids from the inbox. Exactly the ids that no parcel had go on to the relay, in their order and in
-- hybrid mode only; if there are none, or in direct mode, the answer is given here.
pub route-IsSplit :
    (ids : List Opaque) (s : Routing)
    → (is_direct s.mode || is_hybrid s.mode) ≡ true
    → are_distinct ids ≡ true
    → IsSplit ids s (route (ack ids) s)
unfolding route
route-IsSplit ids s m h =
    subst (IsSplit ids s) (sym (route_in-ack s.mode ids s m)) (route_ack-IsSplit ids s h)
