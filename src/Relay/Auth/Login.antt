-- ===== src/Relay/Auth/Login.antt =====
-- The challenge-response login: what a session proves, and that a challenge serves once.
use crypto_pigeon.Prelude.{
  ℕ, ◌+◌, ◌≤◌, ◌≡◌, refl, ap, true, Option, none, some, List, [], ◌∷◌, ◌++◌, arith, Text, find, any,
  ◌==◌, ltb, Bool-cases, inl, inr,
}
use crypto_pigeon.Relay.Db.{Uuid, Device, Db}
use crypto_pigeon.Relay.Auth.{
  Challenge, Challenges, challenge_of, forget, timing_safe_compare, is_active_device, Answer,
  LoginReply, challenge_not_found, logged_in, day, Verify, check_signature, check_answer, respond,
}

challenge_of-forget :
    (device : Uuid) (cs : Challenges) → challenge_of device (forget device cs) ≡ none
unfolding challenge_of forget
challenge_of-forget device [] = refl
challenge_of-forget device ((d, ch) ∷ cs) = ground (arith, challenge_of-forget device cs)

-- What a login has established, and the one row that it adds.
pub record IsLogin (verify : Verify) (hosts : List Text) (now : ℕ) (a : Answer)
    (challenges : Challenges) (before after : Db) (token expires_at : ℕ) : Type 0 where
  pub kept : Challenge
  pub prover : Device
  pub handed_out : challenge_of a.device_id challenges ≡ some kept
  pub same_challenge : kept.challenge ≡ a.challenge
  pub in_time : now ≤ kept.expires_at
  pub known_host : any (timing_safe_compare a.relay_hostname) hosts ≡ true
  pub prover_row : find (is_active_device a.device_id) before.devices ≡ some prover
  pub signed :
      verify prover.auth_public_key a.device_id a.challenge a.relay_hostname a.signature ≡ true
  pub lifetime : expires_at ≡ now + day
  pub session :
      after.sessions
      ≡ before.sessions
        ++ record { token = token; device_id = a.device_id; expires_at = expires_at } ∷ []

module _ (verify : Verify) (hosts : List Text) (now random : ℕ) (a : Answer) where
  check_signature-session :
      (o : Option Device) (db : Db) (token expires : ℕ)
      → (check_signature verify now random a o db).0 ≡ logged_in token expires
      → (d : Device) × (o ≡ some d)
        × (verify d.auth_public_key a.device_id a.challenge a.relay_hostname a.signature ≡ true)
        × (expires ≡ now + day)
        × ((check_signature verify now random a o db).1.sessions
            ≡ db.sessions
              ++ record { token = token; device_id = a.device_id; expires_at = expires } ∷ [])
  unfolding check_signature
  check_signature-session none db token expires h = absurd (cc h)
  check_signature-session (some d) db token expires h =
      (d, refl, ground arith, ground arith, ground arith)

  check_answer-IsLogin :
      (o : Option Challenge) (challenges : Challenges) (db : Db) (token expires : ℕ)
      → challenge_of a.device_id challenges ≡ o
      → (check_answer verify hosts now random a o db).0 ≡ logged_in token expires
      → IsLogin verify hosts now a challenges db
          (check_answer verify hosts now random a o db).1
          token
          expires
  unfolding check_answer
  check_answer-IsLogin none challenges db token expires e h = absurd (cc h)
  check_answer-IsLogin (some kept) challenges db token expires e h =
      elim (Bool-cases (kept.challenge == a.challenge)) [
        | inr other ↦ absurd (cc (rw other at h))
        | inl same ↦ elim (Bool-cases (ltb kept.expires_at now)) [
          | inl late ↦ absurd (cc (rw (same, late) at h))
          | inr early ↦ elim (Bool-cases (any (timing_safe_compare a.relay_hostname) hosts)) [
            | inr foreign ↦ absurd (cc (rw (same, early, foreign) at h))
            | inl known ↦
                let (d, row, signed, lifetime, session) =
                  check_signature-session (find (is_active_device a.device_id) db.devices) db token
                    expires (rw (same, early, known) at h) in
                rw (same, early, known)
                  (record {
                    kept = kept;
                    prover = d;
                    handed_out = e;
                    same_challenge = ground arith;
                    in_time = ground arith;
                    known_host = known;
                    prover_row = row;
                    signed = signed;
                    lifetime = lifetime;
                    session = session;
                  })
          ]
        ]
      ]

-- A login succeeds only with the unexpired challenge that was last handed out to the device, for a
-- host name of this relay, and with a signature of the device's unrevoked key over all three; it adds
-- one session of 24 hours for that device.
pub respond-IsLogin :
    (verify : Verify) (hosts : List Text) (now random : ℕ) (a : Answer) (db : Db)
    (challenges : Challenges) (token expires : ℕ)
    → (respond verify hosts now random a (db, challenges)).0 ≡ logged_in token expires
    → IsLogin verify hosts now a challenges db
        (respond verify hosts now random a (db, challenges)).1
        token
        expires
unfolding respond
respond-IsLogin verify hosts now random a db challenges token expires h =
    check_answer-IsLogin verify hosts now random a (challenge_of a.device_id challenges) challenges
      db token expires refl h

-- Whatever the outcome of an answer, the challenge is used up: a second answer for the device, with
-- no new challenge between, finds none and changes nothing.
pub respond_once :
    (verify : Verify) (hosts : List Text) (now now' random random' : ℕ) (a a' : Answer)
    (db db' : Db) (challenges challenges' : Challenges) (reply : LoginReply)
    → a.device_id ≡ a'.device_id
    → respond verify hosts now random a (db, challenges) ≡ (reply, db', challenges')
    → respond verify hosts now' random' a' (db', challenges')
      ≡ (challenge_not_found, db', forget a'.device_id challenges')
unfolding respond check_answer
respond_once verify hosts now now' random random' a a' db db' challenges challenges' reply same e =
    let gone : challenge_of a'.device_id challenges' ≡ none =
      rw (← same, ← ap (λ (r : LoginReply × Db × Challenges). r.2) e)
        (challenge_of-forget a.device_id challenges) in
    rw (gone, check_answer)
