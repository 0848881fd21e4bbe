-- ===== src/Daemon/Inbox/Durability.antt =====
-- No envelope is acknowledged to the relay before it is durably recorded as seen.
use crypto_pigeon.Prelude.{
  ℕ, ◌≡◌, refl, ap, sym, Bool, true, false, not, Option, none, some, List, [], ◌∷◌, arith, contains,
  find, All, ◌==◌, if◌then◌else◌, Bool-cases, inl, inr,
}
use crypto_pigeon.Prelude.Rows.Laws.{All-append}
use crypto_pigeon.Relay.Db.{Opaque}
use crypto_pigeon.Daemon.Local.{Remote, Message, Side, Local}
use crypto_pigeon.Daemon.Inbox.{
  Envelope, Kind, text, typing, delivered_to, read_up_to, other, Payload, Draw, Bundle, not_ok,
  throws, bundle, Tally, is_blocked, mark_seen, store_text, process, decrypted, concluded,
  from_contact, from_sender, receive, next_envelope, sync,
}

-- The seen envelopes after one that may have been recorded.
abbrev IsRecorded : Opaque → Local → Bool × Bool × Local → Type 0
IsRecorded id l (ack, got, l') = l'.seen ≡ (if ack then id ∷ l.seen else l.seen)

-- What is seen stays seen, and what is acknowledged is seen.
abbrev Keeps : Opaque → Opaque → Local → Bool × Bool × Local → Type 0
Keeps x id l (ack, got, l') =
    (contains x l.seen ≡ true → contains x l'.seen ≡ true)
    × (ack ≡ true → contains id l'.seen ≡ true)

recorded-Keeps :
    (x id : Opaque) (l : Local) (out : Bool × Bool × Local) → IsRecorded id l out → Keeps x id l out
recorded-Keeps x id l (true, got, l') e = (λ h. rw e (ground arith), λ h. rw e (ground arith))
recorded-Keeps x id l (false, got, l') e = (λ h. rw e h, λ h. absurd (cc h))

abbrev seen_of : Option Local → List Opaque
seen_of none = []
seen_of (some l) = l.seen

module _ (decrypt : Remote → Opaque → Opaque → Option (Payload × Opaque))
    (encrypt : Remote → Opaque → Opaque → Option (Opaque × Opaque)) (fetch : Opaque → Side → Bundle)
    (now : ℕ) (e : Envelope) (draw : Draw) where
  store_text-seen :
      (m : Message) (o : Option Side) (l l' : Local)
      → store_text decrypt encrypt fetch now e m o l ≡ some l'
      → l'.seen ≡ e.envelope_id ∷ l.seen
  unfolding store_text mark_seen
  store_text-seen m none l l' h = absurd (cc h)
  store_text-seen m (some s) l l' h = ap seen_of (sym h)

  process-seen :
      (contact conversation : Opaque) (k : Kind) (s : Side) (l l' : Local)
      → process decrypt encrypt fetch now e draw contact conversation k s l ≡ some l'
      → l'.seen ≡ e.envelope_id ∷ l.seen
  unfolding process mark_seen
  process-seen contact conversation (text words id seconds manifest) s l l' h =
      store_text-seen _ _ l l' h
  process-seen contact conversation (typing expires_at) s l l' h = ap seen_of (sym h)
  process-seen contact conversation (delivered_to id) s l l' h = ap seen_of (sym h)
  process-seen contact conversation (read_up_to id) s l l' h = ap seen_of (sym h)
  process-seen contact conversation other s l l' h = ap seen_of (sym h)

  decrypted-seen :
      (contact : Opaque) (o : Option (Payload × Opaque)) (l l' : Local)
      → decrypted decrypt encrypt fetch now e draw contact o l ≡ some l'
      → l'.seen ≡ e.envelope_id ∷ l.seen
  unfolding decrypted
  decrypted-seen contact none l l' h = absurd (cc h)
  decrypted-seen contact (some (p, ratchets)) l l' h = process-seen _ _ _ _ l l' h

  concluded-IsRecorded :
      (o : Option Local) (l : Local)
      → ((l' : Local) → o ≡ some l' → l'.seen ≡ e.envelope_id ∷ l.seen)
      → IsRecorded e.envelope_id l (concluded decrypt encrypt fetch now o l)
  unfolding concluded
  concluded-IsRecorded none l h = refl
  concluded-IsRecorded (some l') l h = h l' refl

  from_contact-IsRecorded :
      (r : Remote) (l : Local)
      → IsRecorded e.envelope_id l (from_contact decrypt encrypt fetch now e draw r l)
  unfolding from_contact
  from_contact-IsRecorded r l = elim (Bool-cases (is_blocked r.contact_id l.side.contacts)) [
    | inl blocked ↦ rw blocked refl
    | inr free ↦ rw free (concluded-IsRecorded _ l (decrypted-seen r.contact_id _ l))
  ]

  abbrev KeepsAll : Opaque → Local → Option (Bool × Bool × Local) → Type 0
  KeepsAll x l none = Unit
  KeepsAll x l (some out) = Keeps x e.envelope_id l out

  from_sender-Keeps :
      (x : Opaque) (o : Option Remote) (b : Bundle) (l : Local)
      → KeepsAll x l (from_sender decrypt encrypt fetch now e draw o b l)
  unfolding from_sender
  from_sender-Keeps x (some r) b l =
      recorded-Keeps x e.envelope_id l (from_contact decrypt encrypt fetch now e draw r l)
        (from_contact-IsRecorded r l)
  from_sender-Keeps x none not_ok l = (λ h. h, λ h. absurd (cc h))
  from_sender-Keeps x none throws l = tt
  from_sender-Keeps x none (bundle r s) l =
      recorded-Keeps x e.envelope_id (record l { side = s })
        (from_contact decrypt encrypt fetch now e draw r (record l { side = s }))
        (from_contact-IsRecorded r (record l { side = s }))

  -- The two checks before the sender is looked up.
  checks-Keep :
      (x : Opaque) (l : Local) (good old : Bool) (o : Option (Bool × Bool × Local))
      → (old ≡ true → contains e.envelope_id l.seen ≡ true)
      → KeepsAll x l o
      → KeepsAll x l
          (if not good then some (false, false, l) else if old then some (true, false, l) else o)
  checks-Keep x l false old o is_old h = (λ k. k, λ k. absurd (cc k))
  checks-Keep x l true true o is_old h = (λ k. k, λ k. is_old refl)
  checks-Keep x l true false o is_old h = h

  receive-Keeps :
      (x : Opaque) (l : Local) → KeepsAll x l (receive decrypt encrypt fetch now e draw l)
  unfolding receive
  receive-Keeps x l =
      checks-Keep x l e.well_formed (contains e.envelope_id l.seen) _ (λ h. h)
        (from_sender-Keeps x (find (λ r. r.device_id == e.sender_id) l.side.remotes)
          (fetch e.sender_id l.side) l)

-- Acknowledgements that are all of envelopes that the tables record as seen.
abbrev pub AreSeen : List Opaque → Local → Type 0
AreSeen acks l = All (λ id. contains id l.seen ≡ true) acks

all_seen-grow :
    (acks : List Opaque) (l l' : Local)
    → ((x : Opaque) → contains x l.seen ≡ true → contains x l'.seen ≡ true)
    → AreSeen acks l
    → AreSeen acks l'
all_seen-grow [] l l' grow h = tt
all_seen-grow (a ∷ rest) l l' grow (h, hs) = (grow a h, all_seen-grow rest l l' grow hs)

next_envelope-AreSeen :
    (decrypt : Remote → Opaque → Opaque → Option (Payload × Opaque))
    (encrypt : Remote → Opaque → Opaque → Option (Opaque × Opaque)) (fetch : Opaque → Side → Bundle)
    (now : ℕ) (e : Envelope) (draw : Draw) (o : Option (Bool × Bool × Local)) (t : Tally)
    (l : Local)
    → ((x : Opaque) → KeepsAll decrypt encrypt fetch now e draw x l o)
    → AreSeen t.acks l
    → AreSeen
        (next_envelope decrypt encrypt fetch now e o t l).0.acks
        (next_envelope decrypt encrypt fetch now e o t l).1
unfolding next_envelope
next_envelope-AreSeen decrypt encrypt fetch now e draw none t l keeps h = h
next_envelope-AreSeen decrypt encrypt fetch now e draw (some (false, got, l')) t l keeps h =
    all_seen-grow t.acks l l' (λ x. (keeps x).0) h
next_envelope-AreSeen decrypt encrypt fetch now e draw (some (true, got, l')) t l keeps h =
    All-append (λ id. contains id l'.seen ≡ true) t.acks (e.envelope_id ∷ [])
      (all_seen-grow t.acks l l' (λ x. (keeps x).0) h) ((keeps e.envelope_id).1 refl, tt)

module _ (decrypt : Remote → Opaque → Opaque → Option (Payload × Opaque))
    (encrypt : Remote → Opaque → Opaque → Option (Opaque × Opaque)) (fetch : Opaque → Side → Bundle)
    (now : ℕ) where
  sync_step-AreSeen :
      (finished : Bool) (rest out : Tally × Local)
      → AreSeen rest.0.acks rest.1
      → AreSeen out.0.acks out.1
      → AreSeen (if finished then rest else out).0.acks (if finished then rest else out).1
  sync_step-AreSeen true rest out h k = h
  sync_step-AreSeen false rest out h k = k

  -- After a synchronisation, finished or ended by an exception, every envelope that is to be
  -- acknowledged to the relay is recorded as seen in the tables, where this held at its start.
  pub sync-AreSeen :
      (es : List (Envelope × Draw)) (t : Tally) (l : Local)
      → AreSeen t.acks l
      → AreSeen
          (sync decrypt encrypt fetch now es t l).0.acks
          (sync decrypt encrypt fetch now es t l).1
  unfolding sync
  sync-AreSeen [] t l h = h
  sync-AreSeen ((e, draw) ∷ es) t l h =
      let out =
        next_envelope decrypt encrypt fetch now e (receive decrypt encrypt fetch now e draw l) t
          l in
      let next =
        next_envelope-AreSeen decrypt encrypt fetch now e draw
          (receive decrypt encrypt fetch now e draw l) t l
          (λ x. receive-Keeps decrypt encrypt fetch now e draw x l) h in
      sync_step-AreSeen out.0.finished (sync decrypt encrypt fetch now es out.0 out.1) out
        (sync-AreSeen es out.0 out.1 next) next
