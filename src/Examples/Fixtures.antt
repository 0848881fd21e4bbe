-- ===== src/Examples/Fixtures.antt =====
-- The users, devices and tables that the examples share.
use crypto_pigeon.Prelude.{ℕ, zero, suc, false, [], ◌∷◌, Text}
use crypto_pigeon.Relay.Db.{User, Device, Db, empty}

abbrev pub alice : User
alice = record { user_id = 1; username = 101; public_uid = 201; revoked = false }

abbrev pub bob : User
bob = record { user_id = 2; username = 102; public_uid = 202; revoked = false }

abbrev pub alice_phone : Device
alice_phone = record {
  device_id = 11;
  user_id = 1;
  identity_public_key = 31;
  auth_public_key = 7 ∷ [];
  registration_id = 5;
  signal_device_id = 1;
  revoked = false;
}

abbrev pub bob_phone : Device
bob_phone = record {
  device_id = 12;
  user_id = 2;
  identity_public_key = 32;
  auth_public_key = 8 ∷ [];
  registration_id = 6;
  signal_device_id = 1;
  revoked = false;
}

-- Two users who have not yet asked for anything.
abbrev pub strangers : Db
strangers = record empty { users = alice ∷ bob ∷ []; devices = alice_phone ∷ bob_phone ∷ [] }

-- The same two, permitted to talk.
abbrev pub friends : Db
friends = record strangers {
  permissions = record { user_one = 1; user_two = 2; revoked = false } ∷ [];
}

-- A text of `n` equal characters.
abbrev pub repeated : ℕ → ℕ → Text
repeated zero c = []
repeated (suc n) c = c ∷ repeated n c
