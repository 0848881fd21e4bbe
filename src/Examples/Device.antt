-- ===== src/Examples/Device.antt =====
-- The daemon's keys, its account and its attachments at concrete inputs.
use crypto_pigeon.Prelude.{
  ◌≤◌, ◌≡◌, refl, true, false, some, List, [], ◌∷◌, Text, length, find, arith, text_eq,
}
use crypto_pigeon.Relay.Db.{Opaque, empty}
use crypto_pigeon.Daemon.Keys.{Contact, Keys, Address, has_contact}
use crypto_pigeon.Daemon.Keys.Trust.{save_all, IsPinned, save_all-IsPinned}
use crypto_pigeon.Daemon.Files.{Draw as Upload, Gcm, Files, is_row, sanitize_filename}
use crypto_pigeon.Daemon.Files.Sending.{manifest_of, upload_attachment}
use crypto_pigeon.Daemon.Files.Fetching.{download_attachment}
use crypto_pigeon.Daemon.Files.Uploading.{IsGcm}
use crypto_pigeon.Daemon.Files.Delivery.{IsRecorded, IsDelivered, upload_attachment-IsDelivered}

abbrev no_keys : Keys
no_keys = record {
  contacts = [];
  sessions = [];
  prekeys = [];
  signed_prekeys = [];
  kyber_prekeys = [];
}

abbrev carol : Address
carol = record { contact = 3; user = 3 }

abbrev dave : Address
dave = record { contact = 4; user = 4 }

abbrev carol_row : Contact
carol_row = record {
  contact_id = 3;
  username = 3;
  identity_public_key = 30;
  verified = true;
  identity_changed = false;
}

abbrev with_carol : Keys
with_carol = record no_keys { contacts = carol_row ∷ [] }

finds_carol : find (has_contact 3) with_carol.contacts ≡ some carol_row
unfolding has_contact
finds_carol = refl

-- Carol's key changes and changes back.
abbrev saves : List (Address × Opaque)
saves = (dave, 40) ∷ (carol, 31) ∷ (carol, 30) ∷ []

save_all-IsPinned_example :
    IsPinned 3 saves carol_row (find (has_contact 3) (save_all saves with_carol).contacts)
save_all-IsPinned_example = save_all-IsPinned 3 saves with_carol carol_row finds_carol

-- A cipher that hides nothing.
abbrev zeros_of_sixteen : Text
zeros_of_sixteen = 0 ∷ 0 ∷ 0 ∷ 0 ∷ 0 ∷ 0 ∷ 0 ∷ 0 ∷ 0 ∷ 0 ∷ 0 ∷ 0 ∷ 0 ∷ 0 ∷ 0 ∷ 0 ∷ []

abbrev plain : Gcm
plain = record {
  seal = λ k n a p. (p, zeros_of_sixteen);
  unseal = λ k n a tag ciphertext. some ciphertext;
}

plain-IsGcm : IsGcm plain
plain-IsGcm = record { opens = λ k n a p. refl; body = λ k n a p. refl; tag = λ k n a p. refl }

abbrev drawn : Upload
drawn = record {
  attachment_id = zeros_of_sixteen;
  attachment_key = 9;
  blob_id = 70;
  nonce = λ i. 1 ∷ 2 ∷ 3 ∷ 4 ∷ 5 ∷ 6 ∷ 7 ∷ 8 ∷ 9 ∷ 10 ∷ 11 ∷ 12 ∷ [];
  local_nonce = [];
}

abbrev photo : Text
photo = 1 ∷ 2 ∷ 3 ∷ []

abbrev name_of_photo : Text
name_of_photo = b'a' ∷ b'/' ∷ b'b' ∷ []

-- 'image'
abbrev image : Text
image = b'i' ∷ b'm' ∷ b'a' ∷ b'g' ∷ b'e' ∷ []

abbrev sender_files : Files
sender_files = record { vault_key = 1; cached = []; attached = []; downloads = [] }

abbrev recipient_files : Files
recipient_files = record sender_files {
  attached =
      record {
        attachment_id = zeros_of_sixteen;
        message_id = 5;
        has_path = false;
        file_size = 3;
        file_hash = 3;
      }
      ∷ [];
  downloads = zeros_of_sixteen ∷ [];
}

abbrev digest : Text → Opaque
digest p = length p

named : 1 ≤ length (sanitize_filename name_of_photo)
unfolding sanitize_filename
named = omega arith

has_row : IsRecorded digest drawn.attachment_id 5 photo recipient_files
unfolding is_row text_eq
has_row = record {
  row = record {
    attachment_id = zeros_of_sixteen;
    message_id = 5;
    has_path = false;
    file_size = 3;
    file_hash = 3;
  };
  first = refl;
  linked = refl;
  size = refl;
  hash = refl;
}

upload_attachment-IsDelivered_example :
    IsDelivered plain digest drawn photo
      (manifest_of digest drawn photo name_of_photo image)
      5
      (upload_attachment plain digest 11 drawn photo name_of_photo image empty sender_files)
      (download_attachment plain digest []
        (manifest_of digest drawn photo name_of_photo image)
        5
        (upload_attachment plain digest 11 drawn photo name_of_photo image empty sender_files).1
        recipient_files)
upload_attachment-IsDelivered_example =
    upload_attachment-IsDelivered plain plain-IsGcm digest 11 drawn photo name_of_photo image empty
      refl (λ i. refl) named (omega arith) (omega arith) refl [] 5 sender_files recipient_files
      has_row
