-- ===== src/Relay/Activation/Accounts.antt =====
-- What an activation creates, and when: an account for the holder of an approved request's code.
use crypto_pigeon.Prelude.{
  ℕ, suc, ◌+◌, ◌<◌, ◌≤◌, ◌≡◌, ◌≢◌, text_eq, refl, ap, sym, subst, ◌∙◌, Bool, true, false, ◌&&◌,
  Option, none, some, List, [], ◌∷◌, ◌++◌, arith, find, any, update, count, ◌==◌, leb, Bool-cases,
  inl, inr,
}
use crypto_pigeon.Relay.Db.{
  Uuid, Opaque, User, Device, AccessStatus, pending, approved, rejected, activated, AccessRequest,
  Db,
}
use crypto_pigeon.Relay.Auth.{open_session, day}
use crypto_pigeon.Relay.Inserts.{insert_user, insert_device}
use crypto_pigeon.Relay.Activation.{
  Payload, Reply, failed, resumed, created, fresh_uid, with_status, count_attempt, has_id,
  in_requests, Draw, new_user, new_device, attach, PrekeyTables, prekey_tables, stored, store,
  with_uid, register_account, committed, code_matches, attempt, is_expired, try_code, resume,
  by_status, for_request, activate,
}
use crypto_pigeon.Relay.Activation.Uids.{has_uid, fresh_uid-unused}

insert_user-row : (u : User) (us vs : List User) → insert_user u us ≡ some vs → vs ≡ us ++ u ∷ []
unfolding insert_user
insert_user-row u us vs e = ground arith

insert_device-row :
    (d : Device) (ds es : List Device) → insert_device d ds ≡ some es → es ≡ ds ++ d ∷ []
unfolding insert_device
insert_device-row d ds es e = ground arith

second : Option (Opaque × Db) → Option Db
second none = none
second (some e) = some e.1

attach-parts :
    (u v : Opaque) (o : Option Db) (db : Db) → attach u o ≡ some (v, db) → (o ≡ some db) × (u ≡ v)
unfolding second
attach-parts u v none db h = absurd (cc h)
attach-parts u v (some d) db h = (ap second h, ground arith)

module _ (hmac : Opaque → Opaque) (uid : Uuid → ℕ → Opaque) (now : ℕ) (draw : Draw)
    (p : Payload) where
  -- The account that `register_account` has stored in `after`.
  pub record IsRegistered (username public_uid : Opaque) (before after : Db) : Type 0 where
    pub unused : any (has_uid public_uid) before.users ≡ false
    pub user :
        after.users
        ≡ before.users
          ++ record {
            user_id = draw.user_id;
            username = username;
            public_uid = public_uid;
            revoked = false;
          }
            ∷ []
    pub device :
        after.devices
        ≡ before.devices
          ++ record {
            device_id = p.device_id;
            user_id = draw.user_id;
            identity_public_key = p.identity_key;
            auth_public_key = p.auth_key;
            registration_id = p.registration_id;
            signal_device_id = p.signal_device_id;
            revoked = false;
          }
            ∷ []
    pub session :
        after.sessions
        ≡ before.sessions
          ++ record { token = draw.token; device_id = p.device_id; expires_at = now + day } ∷ []
    pub spent :
        after.access_requests
        ≡ update (has_id p.request_id) (with_status activated) before.access_requests

  store-IsRegistered :
      (username public_uid : Opaque) (us : Option (List User)) (ds : Option (List Device))
      (ks : Option PrekeyTables) (db db' : Db)
      → any (has_uid public_uid) db.users ≡ false
      → insert_user (new_user hmac uid now draw p username public_uid) db.users ≡ us
      → insert_device (new_device hmac uid now draw p) db.devices ≡ ds
      → store hmac uid now draw p us ds ks db ≡ some db'
      → IsRegistered username public_uid db db'
  unfolding store stored open_session in_requests new_user new_device
  store-IsRegistered username public_uid none ds ks db db' new e1 e2 h = absurd (cc h)
  store-IsRegistered username public_uid (some us) none ks db db' new e1 e2 h = absurd (cc h)
  store-IsRegistered username public_uid (some us) (some ds) none db db' new e1 e2 h = absurd (cc h)
  store-IsRegistered username public_uid (some us) (some ds) (some ks) db db' new e1 e2 h =
      let e : stored hmac uid now draw p us ds ks db ≡ db' = ground arith in
      record {
        unused = new;
        user = ap (λ (d : Db). d.users) (sym e) ∙ insert_user-row _ db.users us e1;
        device = ap (λ (d : Db). d.devices) (sym e) ∙ insert_device-row _ db.devices ds e2;
        session = ap (λ (d : Db). d.sessions) (sym e);
        spent = ap (λ (d : Db). d.access_requests) (sym e);
      }

  with_uid-IsRegistered :
      (username public_uid : Opaque) (o : Option Opaque) (db db' : Db)
      → ((u : Opaque) → o ≡ some u → any (has_uid u) db.users ≡ false)
      → with_uid hmac uid now draw p username o db ≡ some (public_uid, db')
      → IsRegistered username public_uid db db'
  unfolding with_uid
  with_uid-IsRegistered username public_uid none db db' new h = absurd (cc h)
  with_uid-IsRegistered username public_uid (some u) db db' new h =
      let (e, same) = attach-parts u public_uid _ db' h in
      subst (λ v. IsRegistered username v db db') same
        (store-IsRegistered username u _ _ (prekey_tables hmac uid now draw p db) db db'
          (new u refl) refl refl e)

  pub register_account-IsRegistered :
      (username public_uid : Opaque) (db db' : Db)
      → register_account hmac uid now draw p username db ≡ some (public_uid, db')
      → IsRegistered username public_uid db db'
  unfolding register_account
  register_account-IsRegistered username public_uid db db' h =
      with_uid-IsRegistered username public_uid
        (fresh_uid (suc (count db.users)) (uid draw.user_id) 0 db.users) db db'
        (fresh_uid-unused (suc (count db.users)) (uid draw.user_id) 0 db.users) h

-- What a new account rests on: the request of the activation, approved, unexpired and with less than
-- five attempts, and the code that its hash is of.
pub record IsActivation (hmac : Opaque → Opaque) (uid : Uuid → ℕ → Opaque) (now : ℕ) (draw : Draw)
    (p : Payload) (public_uid : Opaque) (before after : Db) : Type 0 where
  pub request : AccessRequest
  pub found : find (has_id p.request_id) before.access_requests ≡ some request
  pub approval : request.status ≡ approved
  pub expiry : ℕ
  pub expires : request.activation_expires_at ≡ some expiry
  pub in_time : now ≤ expiry
  pub few_attempts : request.attempt_count < 5
  pub code : request.activation_code_hash ≡ some (hmac p.activation_code)
  pub account :
      IsRegistered hmac uid now draw p request.username public_uid
        (in_requests count_attempt p.request_id before)
        after

uid_of : Reply → Opaque
uid_of (failed f) = 0
uid_of (resumed t u d) = 0
uid_of (created t u d public_uid) = public_uid

module _ (hmac : Opaque → Opaque) (uid : Uuid → ℕ → Opaque) (now : ℕ) (draw : Draw) (p : Payload)
    (token : Opaque) (user device : Uuid) (public_uid : Opaque) where
  committed-created :
      (o : Option (Opaque × Db)) (db : Db)
      → (committed hmac uid now draw p o db).0 ≡ created token user device public_uid
      → o ≡ some (public_uid, (committed hmac uid now draw p o db).1)
  unfolding committed uid_of
  committed-created none db h = absurd (cc h)
  committed-created (some (u, d)) db h = ap (λ v. some (v, d)) (ap uid_of h)

  matched-hash :
      (o : Option Opaque)
      → (elim o [ none ↦ false | some hash ↦ hash == hmac p.activation_code ]) ≡ true
      → o ≡ some (hmac p.activation_code)
  matched-hash none h = absurd (cc h)
  matched-hash (some hash) h = ground arith

  unexpired :
      (o : Option ℕ)
      → is_expired hmac uid now draw p o ≡ false
      → (expiry : ℕ) × (o ≡ some expiry) × (now ≤ expiry)
  unfolding is_expired
  unexpired none h = absurd (cc h)
  unexpired (some expiry) h = (expiry, refl, ground arith)

  try_code-IsActivation :
      (r : AccessRequest) (db : Db)
      → find (has_id p.request_id) db.access_requests ≡ some r
      → r.status ≡ approved
      → (try_code hmac uid now draw p r db).0 ≡ created token user device public_uid
      → IsActivation hmac uid now draw p public_uid db (try_code hmac uid now draw p r db).1
  unfolding try_code attempt code_matches
  try_code-IsActivation r db e s h =
      elim (Bool-cases (is_expired hmac uid now draw p r.activation_expires_at)) [
        | inl late ↦ absurd (cc (rw late at h))
        | inr early ↦ elim (Bool-cases (leb 5 r.attempt_count)) [
          | inl many ↦ absurd (cc (rw (early, many) at h))
          | inr few ↦ elim (Bool-cases (code_matches hmac uid now draw p r)) [
            | inr wrong ↦ absurd (cc (rw (early, few, wrong) at h))
            | inl right ↦
                let (expiry, expires, in_time) = unexpired r.activation_expires_at early in
                rw (early, few, right)
                  (record {
                    request = r;
                    found = e;
                    approval = s;
                    expiry = expiry;
                    expires = expires;
                    in_time = in_time;
                    few_attempts = ground arith;
                    code = matched-hash r.activation_code_hash right;
                    account =
                        register_account-IsRegistered hmac uid now draw p r.username public_uid _ _
                          (committed-created _ db (rw (early, few, right) at h));
                  })
          ]
        ]
      ]

  resume-created :
      (matches : Bool) (o : Option Device) (db : Db)
      → (resume hmac uid now draw p matches o db).0 ≢ created token user device public_uid
  unfolding resume
  resume-created matches none db h = absurd (cc h)
  resume-created matches (some d) db h =
      elim (Bool-cases (
        matches
        && (d.identity_public_key == p.identity_key && text_eq d.auth_public_key p.auth_key))) [
          | inl e ↦ cc (rw e at h)
          | inr e ↦ cc (rw e at h)
        ]

  by_status-IsActivation :
      (s : AccessStatus) (r : AccessRequest) (db : Db)
      → find (has_id p.request_id) db.access_requests ≡ some r
      → r.status ≡ s
      → (by_status hmac uid now draw p s r db).0 ≡ created token user device public_uid
      → IsActivation hmac uid now draw p public_uid db (by_status hmac uid now draw p s r db).1
  unfolding by_status
  by_status-IsActivation pending r db e s h = absurd (cc h)
  by_status-IsActivation rejected r db e s h = absurd (cc h)
  by_status-IsActivation activated r db e s h = absurd (resume-created _ _ db h)
  by_status-IsActivation approved r db e s h = try_code-IsActivation r db e s h

  for_request-IsActivation :
      (o : Option AccessRequest) (db : Db)
      → find (has_id p.request_id) db.access_requests ≡ o
      → (for_request hmac uid now draw p o db).0 ≡ created token user device public_uid
      → IsActivation hmac uid now draw p public_uid db (for_request hmac uid now draw p o db).1
  unfolding for_request
  for_request-IsActivation none db e h = absurd (cc h)
  for_request-IsActivation (some r) db e h = by_status-IsActivation r.status r db e refl h

-- An activation creates an account only for an approved and unexpired request with less than five
-- attempts, and with the code whose hash the request keeps. One user is added, with the request's
-- name and a public uid that no user had, one device of that user, with the keys of the body, and a
-- session of that device for a day; neither is revoked, and the request is spent.
pub activate-IsActivation :
    (hmac : Opaque → Opaque) (uid : Uuid → ℕ → Opaque) (now : ℕ) (draw : Draw) (p : Payload)
    (db : Db) (token : Opaque) (user device : Uuid) (public_uid : Opaque)
    → (activate hmac uid now draw p db).0 ≡ created token user device public_uid
    → IsActivation hmac uid now draw p public_uid db (activate hmac uid now draw p db).1
unfolding activate
activate-IsActivation hmac uid now draw p db token user device public_uid h =
    for_request-IsActivation hmac uid now draw p token user device public_uid
      (find (has_id p.request_id) db.access_requests) db refl h
