-- ===== src/Relay/Connections/Handover.antt =====
-- A device that reconnects.
use crypto_pigeon.Prelude.{
  ℕ, ◌≡◌, refl, false, ◌&&◌, Option, none, some, List, [], ◌∷◌, arith, delete, ◌==◌, if◌then◌else◌,
  Bool-cases, Option-cases, inl, inr,
}
use crypto_pigeon.Relay.Db.{Uuid, Opaque, Db}
use crypto_pigeon.Relay.Sockets.{Socket, Net, client_of, register, unregister}
use crypto_pigeon.Relay.Connections.{is_client, is_authorized, connect, close}

client_of-delete :
    (d e : Uuid) (cs : List (Uuid × Socket))
    → client_of e (delete (λ c. c.0 == d) cs) ≡ (if d == e then none else client_of e cs)
unfolding client_of
client_of-delete d e [] = ground arith
client_of-delete d e ((c, ws) ∷ cs) = ground (arith, client_of-delete d e cs)

client_of-register :
    (d e : Uuid) (ws : Socket) (net : Net)
    → client_of e (register d ws net).clients
      ≡ (if d == e then some ws else client_of e net.clients)
unfolding register client_of
client_of-register d e ws net = ground (arith, client_of-delete d e net.clients)

client_of-unregister :
    (d e : Uuid) (ws : Socket) (net : Net)
    → client_of e (unregister d ws net).clients
      ≡ (if d == e && is_client ws (client_of d net.clients) then none else client_of e net.clients)
unfolding unregister is_client
client_of-unregister d e ws net = elim (Option-cases (client_of d net.clients)) [
  | inl gone ↦ rw (gone, unregister) (ground arith)
  | inr (current, there) ↦ elim (Bool-cases (current.socket_id == ws.socket_id)) [
    | inl same ↦ rw (there, unregister) (rw same (ground (arith, client_of-delete d e net.clients)))
    | inr other ↦ rw (there, unregister) (rw other (ground arith))
  ]
]

-- What happens to the table: sockets connect for their device, and sockets close.
pub data Event : Type 0 where
  connects closes : Uuid → Socket → Event

unfoldable pub apply : Event → Net → Net
apply (connects d ws) net = (connect d ws net).1
apply (closes d ws) net = close d ws net

-- The last event stands first.
unfoldable pub apply_all : List Event → Net → Net
apply_all [] net = net
apply_all (ev ∷ evs) net = apply ev (apply_all evs net)

-- The table as a map from devices to sockets, without its order.
abbrev pub Clients : Type 0
Clients = Uuid → Option Socket

unfoldable pub apply_map : Event → Clients → Clients
apply_map (connects d ws) m e = if d == e then some ws else m e
apply_map (closes d ws) m e = if d == e && is_client ws (m d) then none else m e

unfoldable pub apply_all_map : List Event → Clients → Clients
apply_all_map [] m = m
apply_all_map (ev ∷ evs) m = apply_map ev (apply_all_map evs m)

abbrev pub Refines : Net → Clients → Type 0
Refines net m = (e : Uuid) → client_of e net.clients ≡ m e

apply-Refines :
    (ev : Event) (net : Net) (m : Clients) → Refines net m → Refines (apply ev net) (apply_map ev m)
unfolding apply apply_map connect close
apply-Refines (connects d ws) net m h e = rw (client_of-register d e ws net) (rw (h e) refl)
apply-Refines (closes d ws) net m h e = rw (client_of-unregister d e ws net) (rw (h e, h d) refl)

-- The table of clients, whatever connects and closes, is the map in which a connection replaces the
-- previous one of its device, and a closing socket takes its device out only while it is the one that
-- stands for it.
pub apply_all-Refines :
    (evs : List Event) (net : Net) (m : Clients)
    → Refines net m
    → Refines (apply_all evs net) (apply_all_map evs m)
unfolding apply_all apply_all_map
apply_all-Refines [] net m h = h
apply_all-Refines (ev ∷ evs) net m h =
    apply-Refines ev (apply_all evs net) (apply_all_map evs m) (apply_all-Refines evs net m h)

-- A device that has reconnected.
pub record IsHandedOver (device : Uuid) (old new : Socket) (net : Net) : Type 0 where
  pub current : client_of device (close device old (connect device new net).1).clients ≡ some new
  pub refused :
      (sha256 : Opaque → Opaque) (now : ℕ) (token : Opaque) (header : Option Opaque) (db : Db)
      → is_authorized sha256 now token header device old db (connect device new net).1 ≡ false

-- When a device connects again, its new socket stands for it, and goes on doing so when the old one
-- closes; the old one is no longer authorized, whatever its token.
pub connect-IsHandedOver :
    (device : Uuid) (old new : Socket) (net : Net)
    → (new.socket_id == old.socket_id) ≡ false
    → IsHandedOver device old new net
unfolding connect close is_authorized is_client
connect-IsHandedOver device old new net ne = record {
  current = ground (
    arith,
    client_of-unregister device device old (register device new net),
    client_of-register device device new net,
  );
  refused = λ sha256 now token header db. ground (arith, client_of-register device device new net);
}
