-- ===== src/Daemon/Inbox/Once.antt =====
-- An envelope is stored as a message at most once, however often the relay hands it out.
use crypto_pigeon.Prelude.{
  ℕ, ◌+◌, ◌≤◌, ◌≡◌, refl, Bool, true, false, not, Option, none, some, List, [], ◌∷◌, ◌++◌, arith,
  contains, find, select, count, ◌==◌, if◌then◌else◌, Bool-cases, inl, inr,
}
use crypto_pigeon.Relay.Db.{Opaque}
use crypto_pigeon.Daemon.Local.{Remote, Message, Side, Local}
use crypto_pigeon.Daemon.Inbox.{
  Envelope, Kind, text, typing, delivered_to, read_up_to, other, Payload, Draw, Bundle, not_ok,
  throws, bundle, Tally, is_blocked, mark_seen, new_message, store_text, process, decrypted,
  concluded, from_contact, from_sender, receive, next_envelope, sync, mark_delivered, mark_prefix,
  mark_read,
}

-- The test for the message that an envelope was stored as.
unfoldable pub is_copy : Opaque → Message → Bool
is_copy id m = elim m.envelope [ none ↦ false | some e ↦ e == id ]

unfoldable pub copies : Opaque → List Message → ℕ
unfolding is_copy
copies id rows = count (select (is_copy id) rows)

-- An envelope that is not seen has no copy, and one that is seen has at most one.
abbrev pub IsOnce : Opaque → Local → Type 0
IsOnce id l = copies id l.messages ≤ (if contains id l.seen then 1 else 0)

copies-delivered :
    (id conversation up_to : Opaque) (rows : List Message)
    → copies id (mark_delivered conversation up_to rows) ≡ copies id rows
unfolding copies mark_delivered is_copy
copies-delivered id conversation up_to [] = refl
copies-delivered id conversation up_to (m ∷ ms) =
    ground (arith, copies-delivered id conversation up_to ms)

copies-prefix :
    (id conversation up_to : Opaque) (rows : List Message)
    → copies id (mark_prefix conversation up_to rows) ≡ copies id rows
unfolding copies mark_prefix is_copy
copies-prefix id conversation up_to [] = refl
copies-prefix id conversation up_to (m ∷ ms) =
    ground (arith, copies-prefix id conversation up_to ms)

copies-read :
    (id conversation up_to : Opaque) (rows : List Message)
    → copies id (mark_read conversation up_to rows) ≡ copies id rows
unfolding mark_read
copies-read id conversation up_to rows = ground (arith, copies-prefix id conversation up_to rows)

copies-append :
    (id : Opaque) (rows : List Message) (m : Message)
    → copies id (rows ++ m ∷ []) ≡ copies id rows + (if is_copy id m then 1 else 0)
unfolding copies is_copy
copies-append id [] m = ground arith
copies-append id (r ∷ rs) m = ground (arith, copies-append id rs m)

abbrev OptionOnce : Opaque → Option Local → Type 0
OptionOnce id none = Unit
OptionOnce id (some l) = IsOnce id l

module _ (decrypt : Remote → Opaque → Opaque → Option (Payload × Opaque))
    (encrypt : Remote → Opaque → Opaque → Option (Opaque × Opaque)) (fetch : Opaque → Side → Bundle)
    (now : ℕ) (e : Envelope) (draw : Draw) (id : Opaque) where
  -- Recording an unseen envelope with an unchanged number of copies.
  seen-IsOnce :
      (l : Local) (rows : List Message) (s : Side)
      → contains e.envelope_id l.seen ≡ false
      → copies id rows ≡ copies id l.messages
      → IsOnce id l
      → IsOnce id (mark_seen e.envelope_id (record l { messages = rows; side = s }))
  unfolding mark_seen
  seen-IsOnce l rows s new same h = ground arith

  store_text-IsOnce :
      (conversation words : Opaque) (seconds : ℕ) (o : Option Side) (l : Local)
      → contains e.envelope_id l.seen ≡ false
      → IsOnce id l
      → OptionOnce id (
          store_text decrypt encrypt fetch now e
            (new_message decrypt encrypt fetch now e draw conversation words seconds)
            o
            l)
  unfolding store_text mark_seen new_message is_copy
  store_text-IsOnce conversation words seconds none l new h = tt
  store_text-IsOnce conversation words seconds (some s) l new h =
      let added =
        copies-append id l.messages
          (new_message decrypt encrypt fetch now e draw conversation words seconds) in
      ground arith

  process-IsOnce :
      (contact conversation : Opaque) (k : Kind) (s : Side) (l : Local)
      → contains e.envelope_id l.seen ≡ false
      → IsOnce id l
      → OptionOnce id (process decrypt encrypt fetch now e draw contact conversation k s l)
  unfolding process
  process-IsOnce contact conversation (text words rid seconds manifest) s l new h =
      store_text-IsOnce conversation words seconds _ l new h
  process-IsOnce contact conversation (typing expires_at) s l new h =
      seen-IsOnce l l.messages _ new refl h
  process-IsOnce contact conversation (delivered_to rid) s l new h =
      seen-IsOnce l _ s new (copies-delivered id conversation rid l.messages) h
  process-IsOnce contact conversation (read_up_to rid) s l new h =
      seen-IsOnce l _ s new (copies-read id conversation rid l.messages) h
  process-IsOnce contact conversation other s l new h = seen-IsOnce l l.messages s new refl h

  decrypted-IsOnce :
      (contact : Opaque) (o : Option (Payload × Opaque)) (l : Local)
      → contains e.envelope_id l.seen ≡ false
      → IsOnce id l
      → OptionOnce id (decrypted decrypt encrypt fetch now e draw contact o l)
  unfolding decrypted
  decrypted-IsOnce contact none l new h = tt
  decrypted-IsOnce contact (some (p, ratchets)) l new h = process-IsOnce _ _ p.kind _ l new h

  concluded-IsOnce :
      (o : Option Local) (l : Local)
      → OptionOnce id o
      → IsOnce id l
      → IsOnce id (concluded decrypt encrypt fetch now o l).2
  unfolding concluded
  concluded-IsOnce none l h k = k
  concluded-IsOnce (some l') l h k = h

  from_contact-IsOnce :
      (r : Remote) (l : Local)
      → contains e.envelope_id l.seen ≡ false
      → IsOnce id l
      → IsOnce id (from_contact decrypt encrypt fetch now e draw r l).2
  unfolding from_contact
  from_contact-IsOnce r l new h = elim (Bool-cases (is_blocked r.contact_id l.side.contacts)) [
    | inl blocked ↦ rw blocked h
    | inr free ↦ rw free (
        concluded-IsOnce
          (decrypted decrypt encrypt fetch now e draw r.contact_id
            (decrypt r e.ciphertext l.side.ratchets) l)
          l (decrypted-IsOnce r.contact_id (decrypt r e.ciphertext l.side.ratchets) l new h) h)
  ]

  abbrev OutcomeOnce : Option (Bool × Bool × Local) → Type 0
  OutcomeOnce none = Unit
  OutcomeOnce (some (ack, got, l)) = IsOnce id l

  from_sender-IsOnce :
      (o : Option Remote) (b : Bundle) (l : Local)
      → contains e.envelope_id l.seen ≡ false
      → IsOnce id l
      → OutcomeOnce (from_sender decrypt encrypt fetch now e draw o b l)
  unfolding from_sender
  from_sender-IsOnce (some r) b l new h = from_contact-IsOnce r l new h
  from_sender-IsOnce none not_ok l new h = h
  from_sender-IsOnce none throws l new h = tt
  from_sender-IsOnce none (bundle r s) l new h = from_contact-IsOnce r (record l { side = s }) new h

  checks-IsOnce :
      (l : Local) (good old : Bool) (o : Option (Bool × Bool × Local))
      → IsOnce id l
      → (old ≡ false → OutcomeOnce o)
      → OutcomeOnce
          (if not good then some (false, false, l) else if old then some (true, false, l) else o)
  checks-IsOnce l false old o h k = h
  checks-IsOnce l true true o h k = h
  checks-IsOnce l true false o h k = k refl

  receive-IsOnce :
      (l : Local) → IsOnce id l → OutcomeOnce (receive decrypt encrypt fetch now e draw l)
  unfolding receive
  receive-IsOnce l h = checks-IsOnce l e.well_formed (contains e.envelope_id l.seen) _ h (λ new.
      from_sender-IsOnce (find (λ r. r.device_id == e.sender_id) l.side.remotes)
        (fetch e.sender_id l.side) l new h)

  next_envelope-IsOnce :
      (o : Option (Bool × Bool × Local)) (t : Tally) (l : Local)
      → OutcomeOnce o
      → IsOnce id l
      → IsOnce id (next_envelope decrypt encrypt fetch now e o t l).1
  unfolding next_envelope
  next_envelope-IsOnce none t l h k = k
  next_envelope-IsOnce (some (ack, got, l')) t l h k = h

if-IsOnce :
    (id : Opaque) (b : Bool) (x y : Tally × Local)
    → IsOnce id x.1
    → IsOnce id y.1
    → IsOnce id (if b then x else y).1
if-IsOnce id true x y h k = h
if-IsOnce id false x y h k = k

-- A synchronisation, finished or not, stores every envelope at most once, whatever the relay hands
-- out and in whichever order: an unseen envelope has no message, a seen one at most one, where this
-- held at the start.
pub sync-IsOnce :
    (decrypt : Remote → Opaque → Opaque → Option (Payload × Opaque))
    (encrypt : Remote → Opaque → Opaque → Option (Opaque × Opaque)) (fetch : Opaque → Side → Bundle)
    (now : ℕ) (id : Opaque) (es : List (Envelope × Draw)) (t : Tally) (l : Local)
    → IsOnce id l
    → IsOnce id (sync decrypt encrypt fetch now es t l).1
unfolding sync
sync-IsOnce decrypt encrypt fetch now id [] t l h = h
sync-IsOnce decrypt encrypt fetch now id ((e, draw) ∷ es) t l h =
    let o = receive decrypt encrypt fetch now e draw l in
    let out = next_envelope decrypt encrypt fetch now e o t l in
    let next =
      next_envelope-IsOnce decrypt encrypt fetch now e draw id o t l
        (receive-IsOnce decrypt encrypt fetch now e draw id l h) h in
    if-IsOnce id out.0.finished (sync decrypt encrypt fetch now es out.0 out.1) out
      (sync-IsOnce decrypt encrypt fetch now id es out.0 out.1 next) next
