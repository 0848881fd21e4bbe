-- ===== src/Daemon/Keys/Trust.antt =====
-- Trust on first use: what the store says of a contact whose key changes.
use crypto_pigeon.Prelude.{
  ◌≡◌, refl, ap, sym, subst, ◌∙◌, if◌then◌else◌, Bool, true, false, not, ◌&&◌, ◌||◌, Option, none,
  some, List, [], ◌∷◌, arith, find, any, ◌==◌, Bool-cases, Option-cases, inl, inr,
}
use crypto_pigeon.Prelude.Rows.Finds.{
  map_found, find-append_found, find-append_none, find-update_self, find-update_other,
}
use crypto_pigeon.Relay.Db.{Opaque}
use crypto_pigeon.Daemon.Keys.{
  Contact, Keys, Address, has_contact, new_contact, set_identity, save_over, save_identity, key_of,
  get_identity, trusts, is_trusted_identity,
}

-- Saving the key `k` for another contact leaves the row of `id` alone.
save_over-other :
    (id : Opaque) (name : Address) (k : Opaque) (o : Option Contact) (ks : Keys) (c : Contact)
    → (name.contact == id) ≡ false
    → find (has_contact id) ks.contacts ≡ some c
    → find (has_contact id) (save_over name k o ks).1.contacts ≡ some c
unfolding save_over
save_over-other id name k none ks c ne e =
    find-append_found (has_contact id) ks.contacts (new_contact name k ∷ []) c e
save_over-other id name k (some x) ks c ne e =
    find-update_other (has_contact id) (has_contact name.contact)
      (set_identity k (not (x.identity_public_key == k))) ks.contacts
      (λ y h. unfold has_contact in ground arith)
      (λ y h. unfold has_contact set_identity in ground arith)
    ∙ e

save_over-own :
    (name : Address) (k : Opaque) (ks : Keys) (c : Contact)
    → find (has_contact name.contact) ks.contacts ≡ some c
    → find (has_contact name.contact) (save_over name k (some c) ks).1.contacts
      ≡ some (set_identity k (not (c.identity_public_key == k)) c)
unfolding save_over
save_over-own name k ks c e =
    let f = set_identity k (not (c.identity_public_key == k)) in
    find-update_self (has_contact name.contact) f ks.contacts
      (λ y h. unfold has_contact set_identity in h)
    ∙ ap (map_found f) e

-- A sequence of calls of `saveIdentity`.
unfoldable pub save_all : List (Address × Opaque) → Keys → Keys
save_all [] ks = ks
save_all ((name, key) ∷ saves) ks = save_all saves (save_identity name key ks).1

-- Whether a call saves another key for the contact `id` than `key`.
abbrev pub differs : Opaque → Opaque → Address × Opaque → Bool
differs id key (name, k) = name.contact == id && not (key == k)

-- The contact `id`, which had the row `c` before the calls, and has `after` now.
pub record IsPinned (id : Opaque) (saves : List (Address × Opaque)) (c : Contact)
    (after : Option Contact) : Type 0 where
  pub row : Contact
  pub found : after ≡ some row
  pub changed :
      row.identity_changed ≡ (any (differs id c.identity_public_key) saves || c.identity_changed)
  pub verified : row.verified ≡ (not (any (differs id c.identity_public_key) saves) && c.verified)

save_identity-row :
    (id : Opaque) (name : Address) (k : Opaque) (ks : Keys) (c : Contact)
    → find (has_contact id) ks.contacts ≡ some c
    → find (has_contact id) (save_identity name k ks).1.contacts
      ≡ some (if name.contact == id then set_identity k (not (c.identity_public_key == k)) c else c)
unfolding save_identity
save_identity-row id name k ks c e = elim (Bool-cases (name.contact == id)) [
  | inl same ↦
      let own : name.contact ≡ id = ground arith in
      let there = subst (λ i. find (has_contact i) ks.contacts ≡ some c) (sym own) e in
      rw (same, ← own, there) (save_over-own name k ks c there)
  | inr ne ↦ rw ne (save_over-other id name k _ ks c ne e)
]

abbrev next_row : Opaque → Address → Opaque → Contact → Contact
next_row id name k c =
    if name.contact == id then set_identity k (not (c.identity_public_key == k)) c else c

IsPinned-next :
    (id : Opaque) (name : Address) (k : Opaque) (saves : List (Address × Opaque)) (c : Contact)
    (after : Option Contact)
    → IsPinned id saves (next_row id name k c) after
    → IsPinned id ((name, k) ∷ saves) c after
unfolding set_identity
IsPinned-next id name k saves c after h = elim (Bool-cases (name.contact == id)) [
  | inr ne ↦
      let h' : IsPinned id saves c after = rw ne at h in
      record {
        row = h'.row;
        found = h'.found;
        changed = rw ne h'.changed;
        verified = rw ne h'.verified;
      }
  | inl own ↦ elim (Bool-cases (c.identity_public_key == k)) [
    | inl same ↦
        let e : c.identity_public_key ≡ k = ground arith in
        let h' : IsPinned id saves (set_identity k false c) after = rw (own, same) at h in
        record {
          row = h'.row;
          found = h'.found;
          changed = ground (arith, h'.changed, ap (λ (q : Opaque). any (differs id q) saves) e);
          verified = ground (arith, h'.verified, ap (λ (q : Opaque). any (differs id q) saves) e);
        }
    | inr other ↦
        let h' : IsPinned id saves (set_identity k true c) after = rw (own, other) at h in
        record {
          row = h'.row;
          found = h'.found;
          changed = ground (arith, h'.changed);
          verified = ground (arith, h'.verified);
        }
  ]
]

-- A contact's row is marked as changed, and loses its verification, exactly if one of the keys
-- saved for it, in whatever order and between whatever other contacts', is not its first one; going
-- back to the first key does not clear the mark.
pub save_all-IsPinned :
    (id : Opaque) (saves : List (Address × Opaque)) (ks : Keys) (c : Contact)
    → find (has_contact id) ks.contacts ≡ some c
    → IsPinned id saves c (find (has_contact id) (save_all saves ks).contacts)
unfolding save_all
save_all-IsPinned id [] ks c e = record {
  row = c;
  found = e;
  changed = ground arith;
  verified = ground arith;
}
save_all-IsPinned id ((name, k) ∷ saves) ks c e = IsPinned-next id name k saves c _ (
    save_all-IsPinned id saves (save_identity name k ks).1 (next_row id name k c)
      (save_identity-row id name k ks c e))

-- After a key is saved for an address, exactly that key is the trusted one.
pub is_trusted_identity-save_identity :
    (name : Address) (k k' : Opaque) (ks : Keys)
    → is_trusted_identity name k' (save_identity name k ks).1 ≡ (k == k')
unfolding is_trusted_identity get_identity trusts key_of save_identity save_over
is_trusted_identity-save_identity name k k' ks =
    elim (Option-cases (find (has_contact name.contact) ks.contacts)) [
      | inl e ↦ rw e (
          rw (find-append_none (has_contact name.contact) ks.contacts (new_contact name k ∷ []) e)
            (unfold has_contact new_contact in ground arith))
      | inr (c, e) ↦ rw e (rw (save_over-own name k ks c e) (unfold set_identity in refl))
    ]
