-- ===== src/Relay/Prekeys/Cleanup.antt =====
-- The cleanup of old signed prekeys spares the one that a bundle would use.
use crypto_pigeon.Prelude.{
  ℕ, ◌+◌, ◌<◌, ◌≤◌, ◌≡◌, refl, ap, Bool, true, false, Option, none, some, List, [], ◌∷◌, arith,
  delete, ◌==◌, leb, if◌then◌else◌, Bool-cases, Option-cases, inl, inr, sym, ◌∙◌,
}
use crypto_pigeon.Relay.Db.{Uuid, SignedPrekey, Db}
use crypto_pigeon.Relay.Prekeys.Handout.{later, latest}
use crypto_pigeon.Relay.Prekeys.Rotation.{is_stale, cleanup}

-- One more than the time of a row's upload, and 0 for none.
stamp : Option SignedPrekey → ℕ
stamp none = 0
stamp (some s) = s.uploaded_at + 1

stamp-later :
    (r : SignedPrekey) (o : Option SignedPrekey)
    → stamp (later r o) ≡ (if leb (r.uploaded_at + 1) (stamp o) then stamp o else r.uploaded_at + 1)
unfolding stamp later
stamp-later r none = ground arith
stamp-later r (some s) = ground arith

later-older :
    (r : SignedPrekey) (o : Option SignedPrekey) → stamp o < r.uploaded_at + 1 → later r o ≡ some r
unfolding stamp later
later-older r none h = refl
later-older r (some s) h = ground arith

later-younger :
    (r : SignedPrekey) (o : Option SignedPrekey) → r.uploaded_at + 1 ≤ stamp o → later r o ≡ o
unfolding stamp later
later-younger r none h = absurd (omega arith)
later-younger r (some s) h = ground arith

stamp-delete :
    (device : Uuid) (q : SignedPrekey → Bool) (rs : List SignedPrekey)
    → stamp (latest device (delete q rs)) ≤ stamp (latest device rs)
unfolding latest
stamp-delete device q [] = ground arith
stamp-delete device q (r ∷ rs) = ground (
  arith,
  stamp-delete device q rs,
  stamp-later r (latest device rs),
  stamp-later r (latest device (delete q rs)),
)

-- A step of the search: a row that is spared where it is the latest of all.
latest-step :
    (gone : Bool) (r s : SignedPrekey) (o o' : Option SignedPrekey)
    → later r o ≡ some s
    → (o ≡ some s → o' ≡ some s)
    → stamp o' ≤ stamp o
    → (some r ≡ some s → gone ≡ false)
    → (if gone then o' else later r o') ≡ some s
latest-step gone r s o o' e keep le spare = elim (Bool-cases (leb (r.uploaded_at + 1) (stamp o))) [
  | inl good ↦
      let found : o ≡ some s = sym (later-younger r o (ground arith)) ∙ e in
      rw (keep found) (ground (arith, later-younger r (some s), ap stamp found))
  | inr bad ↦
      let same : some r ≡ some s = sym (later-older r o (ground arith)) ∙ e in
      rw (spare same) (later-older r o' (ground arith) ∙ same)
]

latest-pick :
    (device : Uuid) (gone : Bool) (r : SignedPrekey) (rs : List SignedPrekey)
    → latest device (if gone then rs else r ∷ rs) ≡ (
        if r.device_id == device
        then (if gone then latest device rs else later r (latest device rs))
        else latest device rs)
unfolding latest
latest-pick device true r rs = ground arith
latest-pick device false r rs = refl

test_of : (SignedPrekey → Bool) → Option SignedPrekey → Bool
test_of q none = false
test_of q (some r) = q r

test_same :
    (q : SignedPrekey → Bool) (r s : SignedPrekey) → some r ≡ some s → q s ≡ false → q r ≡ false
unfolding test_of
test_same q r s e h = ap (test_of q) e ∙ h

-- A deletion that spares the latest row of a device leaves it the latest.
latest-delete :
    (device : Uuid) (q : SignedPrekey → Bool) (rs : List SignedPrekey) (s : SignedPrekey)
    → latest device rs ≡ some s
    → q s ≡ false
    → latest device (delete q rs) ≡ some s
unfolding latest
latest-delete device q [] s e spare = e
latest-delete device q (r ∷ rs) s e spare = elim (Bool-cases (r.device_id == device)) [
  | inr other ↦
      latest-pick device (q r) r (delete q rs)
      ∙ rw other (latest-delete device q rs s (rw other at e) spare)
  | inl own ↦
      latest-pick device (q r) r (delete q rs)
      ∙ rw own (
          latest-step (q r) r s (latest device rs) (latest device (delete q rs)) (rw own at e)
            (λ found. latest-delete device q rs s found spare) (stamp-delete device q rs)
            (λ same. test_same q r s same spare))
]

stamp-none : (o : Option SignedPrekey) → stamp o ≤ 0 → o ≡ none
unfolding stamp
stamp-none none h = refl
stamp-none (some s) h = absurd (omega arith)

owned : Uuid → Option SignedPrekey → Bool
owned device none = true
owned device (some s) = s.device_id == device

later-owned :
    (device : Uuid) (r : SignedPrekey) (o : Option SignedPrekey)
    → (r.device_id == device) ≡ true
    → owned device o ≡ true
    → owned device (later r o) ≡ true
unfolding owned later
later-owned device r none own h = own
later-owned device r (some s) own h = ground arith

latest-owned : (device : Uuid) (rs : List SignedPrekey) → owned device (latest device rs) ≡ true
unfolding latest owned
latest-owned device [] = refl
latest-owned device (r ∷ rs) = elim (Bool-cases (r.device_id == device)) [
  | inl own ↦ rw own (later-owned device r (latest device rs) own (latest-owned device rs))
  | inr other ↦ rw other (latest-owned device rs)
]

latest-device :
    (device : Uuid) (rs : List SignedPrekey) (s : SignedPrekey)
    → latest device rs ≡ some s
    → s.device_id ≡ device
unfolding owned
latest-device device rs s e =
    let own : (s.device_id == device) ≡ true = ap (owned device) (sym e) ∙ latest-owned device rs in
    ground arith

is_stale-latest :
    (now : ℕ) (device : Uuid) (rs : List SignedPrekey) (s : SignedPrekey)
    → latest device rs ≡ some s
    → is_stale now rs s ≡ false
unfolding is_stale
is_stale-latest now device rs s e = rw (latest-device device rs s e, e) (ground arith)

latest-delete-none :
    (device : Uuid) (q : SignedPrekey → Bool) (rs : List SignedPrekey)
    → latest device rs ≡ none
    → latest device (delete q rs) ≡ none
unfolding stamp
latest-delete-none device q rs e =
    let bound : stamp (latest device rs) ≡ 0 = ap stamp e in
    stamp-none (latest device (delete q rs)) (ground (arith, stamp-delete device q rs))

-- The cleanup of old prekeys never changes which signed prekey a bundle for a device gets.
pub cleanup-latest :
    (now : ℕ) (db : Db) (device : Uuid)
    → latest device (cleanup now db).signed_prekeys ≡ latest device db.signed_prekeys
unfolding cleanup
cleanup-latest now db device = elim (Option-cases (latest device db.signed_prekeys)) [
  | inl e ↦ latest-delete-none device (is_stale now db.signed_prekeys) db.signed_prekeys e ∙ sym e
  | inr (s, e) ↦
      latest-delete device (is_stale now db.signed_prekeys) db.signed_prekeys s e
        (is_stale-latest now device db.signed_prekeys s e)
      ∙ sym e
]
