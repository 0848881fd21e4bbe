-- ===== src/Daemon/Invites/Pins.antt =====
-- An import of an invitation keeps what is pinned.
use crypto_pigeon.Prelude.{
  ◌≡◌, refl, sym, ap, subst, ◌∙◌, true, false, Option, none, some, List, [], ◌∷◌, arith, find, any,
  delete, ◌==◌, Bool-cases, inl, inr,
}
use crypto_pigeon.Prelude.Rows.Laws.{any_of_found, find-holds, find-delete}
use crypto_pigeon.Prelude.Rows.Finds.{find-append_found, find-append_none, find-delete_self}
use crypto_pigeon.Relay.Db.{Opaque}
use crypto_pigeon.Daemon.Keys.{Keys, has_contact, is_ratchet}
use crypto_pigeon.Daemon.Onion.{Peer, is_device}
use crypto_pigeon.Daemon.Invites.{
  Invite, Book, World, all_signed, breaks_pin, breaks_remote, is_suspect, has_identity, replace_pin,
  record_contact, with_session, transact, check_pins, import_contact,
}

-- The pin of an invitation.
abbrev pin_of : Invite → Opaque → Peer
pin_of i contact = record {
  device_id = i.device_id;
  contact_id = contact;
  onion = i.onion;
  auth_key = i.device_auth_key;
}

-- A pin of the invitation's device that it does not break is the one that it would set.
pin_of-unbroken :
    (i : Invite) (contact : Opaque) (p : Peer)
    → (p.device_id == i.device_id) ≡ true
    → breaks_pin i contact p ≡ false
    → p ≡ pin_of i contact
unfolding breaks_pin
pin_of-unbroken i contact p d h =
    let e1 : p.device_id ≡ i.device_id = ground arith in
    let e2 : p.contact_id ≡ contact = ground arith in
    let e3 : p.auth_key ≡ i.device_auth_key = ground arith in
    let e4 : p.onion ≡ i.onion = ground arith in rw (← e1, ← e2, ← e3, ← e4) refl

module _ (d : Opaque) (p : Peer) where
  replace_pin-keeps :
      (i : Invite) (contact : Opaque) (ps : List Peer)
      → find (is_device d) ps ≡ some p
      → any (breaks_pin i contact) ps ≡ false
      → find (is_device d) (replace_pin (pin_of i contact) ps) ≡ some p
  unfolding replace_pin
  replace_pin-keeps i contact ps e h = elim (Bool-cases (i.device_id == d)) [
    | inr other ↦
        find-append_found (is_device d) (delete (is_device i.device_id) ps) (pin_of i contact ∷ [])
          p
          (find-delete (is_device d) (is_device i.device_id) ps
              (λ q k. unfold is_device in ground arith)
            ∙ e)
    | inl same ↦
        let own : i.device_id ≡ d = ground arith in
        let there = find-holds (is_device d) ps p e in
        let device : (p.device_id == i.device_id) ≡ true = unfold is_device in ground arith in
        let unbroken : breaks_pin i contact p ≡ false = elim (Bool-cases (breaks_pin i contact p)) [
          | inr f ↦ f
          | inl t ↦
              let bad = any_of_found (is_device d) (breaks_pin i contact) ps p e t in ground arith
        ] in
        let gone : find (is_device d) (delete (is_device i.device_id) ps) ≡ none =
          subst (λ x. find (is_device x) (delete (is_device i.device_id) ps) ≡ none) own
            (find-delete_self (is_device i.device_id) ps) in
        find-append_none (is_device d) (delete (is_device i.device_id) ps) (pin_of i contact ∷ [])
          gone
        ∙ unfold is_device in rw same (ap some (sym (pin_of-unbroken i contact p device unbroken)))
  ]

  record_contact-keeps :
      (w : World) (i : Invite) (contact : Opaque) (keys : Keys) (b : Book)
      → find (is_device d) b.onions ≡ some p
      → any (breaks_pin i contact) b.onions ≡ false
      → find (is_device d) (record_contact w i contact keys b).1.onions ≡ some p
  unfolding record_contact
  record_contact-keeps w i contact keys b e h = replace_pin-keeps i contact b.onions e h

  with_session-keeps :
      (w : World) (i : Invite) (contact : Opaque) (o : Option Keys) (b : Book)
      → find (is_device d) b.onions ≡ some p
      → any (breaks_pin i contact) b.onions ≡ false
      → find (is_device d) (with_session w i contact o b).1.onions ≡ some p
  unfolding with_session
  with_session-keeps w i contact none b e h = e
  with_session-keeps w i contact (some keys) b e h = record_contact-keeps w i contact keys b e h

  transact-keeps :
      (w : World) (i : Invite) (contact : Opaque) (b : Book)
      → find (is_device d) b.onions ≡ some p
      → any (breaks_pin i contact) b.onions ≡ false
      → find (is_device d) (transact w i contact b).1.onions ≡ some p
  unfolding transact
  transact-keeps w i contact b e h = elim (Bool-cases (any (is_ratchet contact) b.keys.sessions)) [
    | inr new ↦ rw new (with_session-keeps w i contact _ b e h)
    | inl old ↦
        elim (Bool-cases
          (has_identity i.identity_key (find (has_contact contact) b.keys.contacts))) [
            | inr f ↦ rw (old, f) e
            | inl t ↦ rw (old, t) (record_contact-keeps w i contact b.keys b e h)
          ]
  ]

  check_pins-keeps :
      (w : World) (i : Invite) (contact : Opaque) (b : Book)
      → find (is_device d) b.onions ≡ some p
      → find (is_device d) (check_pins w i contact b).1.onions ≡ some p
  unfolding check_pins
  check_pins-keeps w i contact b e = elim (Bool-cases (any (breaks_pin i contact) b.onions)) [
    | inl t ↦ rw t e
    | inr whole ↦ elim (Bool-cases (any (breaks_remote i contact) b.remotes)) [
      | inl t ↦ rw (whole, t) e
      | inr f ↦ elim (Bool-cases (any (is_suspect contact) b.keys.contacts)) [
        | inl t ↦ rw (whole, f, t) e
        | inr g ↦ rw (whole, f, g) (transact-keeps w i contact b e whole)
      ]
    ]
  ]

  -- Whatever invitation is imported, and whether or not the import succeeds, a device that is pinned
  -- keeps its contact, its onion address and the key that its requests are checked with.
  pub import_contact-keeps :
      (w : World) (i : Invite) (b : Book)
      → find (is_device d) b.onions ≡ some p
      → find (is_device d) (import_contact w i b).1.onions ≡ some p
  unfolding import_contact
  import_contact-keeps w i b e = elim (Bool-cases (i.device_id == b.device_id)) [
    | inl t ↦ rw t e
    | inr f ↦ elim (Bool-cases (all_signed (w.verifies i.identity_key) i.prekeys)) [
      | inr g ↦ rw (f, g) e
      | inl t ↦ rw (f, t) (check_pins-keeps w i (w.address_of i.user_id i.signal_device_id) b e)
    ]
  ]
