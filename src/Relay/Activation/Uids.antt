-- ===== src/Relay/Activation/Uids.antt =====
-- The loop that looks for an unused public uid comes to an end.
use crypto_pigeon.Prelude.{
  ℕ, zero, suc, ◌+◌, ◌<◌, ◌≤◌, ◌≡◌, ◌≢◌, refl, sym, Bool, true, false, some, List, [], ◌∷◌, arith,
  any, delete, count, is_some, ◌==◌, Bool-cases, Option-cases, inl, inr,
}
use crypto_pigeon.Prelude.Rows.Laws.{any-delete_other}
use crypto_pigeon.Relay.Db.{Opaque, User}
use crypto_pigeon.Relay.Activation.{fresh_uid}

unfoldable pub has_uid : Opaque → User → Bool
has_uid uid u = u.public_uid == uid

count-delete : (q : User → Bool) (us : List User) → count (delete q us) ≤ count us
count-delete q [] = ground arith
count-delete q (u ∷ us) = ground (arith, count-delete q us)

-- Deleting the rows of a test that some row passes leaves fewer.
count-delete_lt :
    (q : User → Bool) (us : List User) → any q us ≡ true → count (delete q us) < count us
count-delete_lt q [] h = absurd (cc h)
count-delete_lt q (u ∷ us) h = ground (arith, count-delete_lt q us, count-delete q us)

-- Two lists that agree on the later candidates give the same search.
fresh_uid-ext :
    (fuel : ℕ) (uid : ℕ → Opaque) (n : ℕ) (us vs : List User)
    → ((m : ℕ) → n ≤ m → m < n + fuel → any (has_uid (uid m)) us ≡ any (has_uid (uid m)) vs)
    → fresh_uid fuel uid n us ≡ fresh_uid fuel uid n vs
unfolding fresh_uid has_uid
fresh_uid-ext zero uid n us vs same = refl
fresh_uid-ext (suc fuel) uid n us vs same = ground (
  arith,
  same n (omega arith) (omega arith),
  fresh_uid-ext fuel uid (n + 1) us vs (λ m le lt. same m (omega arith) (omega arith)),
)

apart-others : (a b : Opaque) → a ≢ b → (u : User) → has_uid b u ≡ true → has_uid a u ≡ false
unfolding has_uid
apart-others a b ne u h = ground arith

fresh_uid-shrink :
    (fuel : ℕ) (uid : ℕ → Opaque) (n : ℕ) (us : List User)
    → ((i j : ℕ) → n ≤ i → i < j → j < n + suc fuel → uid i ≢ uid j)
    → fresh_uid fuel uid (n + 1) us ≡ fresh_uid fuel uid (n + 1) (delete (has_uid (uid n)) us)
fresh_uid-shrink fuel uid n us apart =
    fresh_uid-ext fuel uid (n + 1) us (delete (has_uid (uid n)) us) (λ m le lt. sym (
      any-delete_other (has_uid (uid m)) (has_uid (uid n)) us
        (apart-others (uid n) (uid m) (apart n m (omega arith) (omega arith) (omega arith)))))

fresh_uid-found :
    (fuel : ℕ) (uid : ℕ → Opaque) (n : ℕ) (us : List User)
    → ((i j : ℕ) → n ≤ i → i < j → j < n + fuel → uid i ≢ uid j)
    → count us < fuel
    → is_some (fresh_uid fuel uid n us) ≡ true
unfolding fresh_uid has_uid
fresh_uid-found zero uid n us apart enough = absurd (omega arith)
fresh_uid-found (suc fuel) uid n us apart enough = elim (Bool-cases (any (has_uid (uid n)) us)) [
  | inr free ↦ rw free refl
  | inl taken ↦
      rw (taken, fresh_uid-shrink fuel uid n us apart)
        (fresh_uid-found fuel uid (n + 1) (delete (has_uid (uid n)) us)
          (λ i j le lt bound. apart i j (omega arith) lt (omega arith))
          (ground (arith, count-delete_lt (has_uid (uid n)) us taken)))
]

pub fresh_uid-unused :
    (fuel : ℕ) (uid : ℕ → Opaque) (n : ℕ) (us : List User) (found : Opaque)
    → fresh_uid fuel uid n us ≡ some found
    → any (has_uid found) us ≡ false
unfolding fresh_uid has_uid
fresh_uid-unused zero uid n us found e = absurd (cc e)
fresh_uid-unused (suc fuel) uid n us found e = elim (Bool-cases (any (has_uid (uid n)) us)) [
  | inr free ↦ ground arith
  | inl taken ↦ fresh_uid-unused fuel uid (n + 1) us found (rw taken at e)
]

-- The loop of `activate` ends, within one attempt more than there are users, with a public uid that
-- no user has, where the uids of these attempts differ.
pub fresh_uid-total :
    (uid : ℕ → Opaque) (us : List User)
    → ((i j : ℕ) → i < j → j ≤ count us → uid i ≢ uid j)
    → (found : Opaque) × (fresh_uid (suc (count us)) uid 0 us ≡ some found)
      × (any (has_uid found) us ≡ false)
fresh_uid-total uid us apart =
    let stops =
      fresh_uid-found (suc (count us)) uid 0 us (λ i j le lt bound. apart i j lt (omega arith))
        (omega arith) in
    elim (Option-cases (fresh_uid (suc (count us)) uid 0 us)) [
      | inl e ↦ absurd (cc (rw e at stops))
      | inr (found, e) ↦ (found, e, fresh_uid-unused (suc (count us)) uid 0 us found e)
    ]
