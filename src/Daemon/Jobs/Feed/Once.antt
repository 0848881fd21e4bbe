-- ===== src/Daemon/Jobs/Feed/Once.antt =====
-- Long polls are answered once.
use crypto_pigeon.Prelude.{
  ℕ, suc, ◌+◌, ◌≤◌, ◌≡◌, refl, ap, subst, Bool, true, false, ◌||◌, List, [], ◌∷◌, arith, any,
  delete, select, count, ltb, ◌==◌, ==_refl, Bool-cases, inl, inr, if◌then◌else◌,
}
use crypto_pigeon.Prelude.Rows.Laws.{select-delete}
use crypto_pigeon.Relay.Db.{Opaque}
use crypto_pigeon.Daemon.Jobs.Feed.{
  Listener, Feed, answer, finish, notify_all, publish, after, answered, waiting, Run, start,
  publishes, calls, ends,
}

abbrev is_call : ℕ → Listener → Bool
is_call id l = l.call_id == id

-- Of the calls below `n`, each waits or has been answered, and not both.
abbrev IsOnce : ℕ → Feed → Type 0
IsOnce n f = (id : ℕ) → answered id f + waiting id f ≡ (if ltb id n then 1 else 0)

count-present :
    (id : ℕ) (ls : List Listener) → any (is_call id) ls ≡ true → 1 ≤ count (select (is_call id) ls)
count-present id [] h = ground arith
count-present id (l ∷ ls) h = ground (arith, count-present id ls)

count-deleted :
    (id : ℕ) (ls : List Listener) → count (select (is_call id) (delete (is_call id) ls)) ≡ 0
count-deleted id [] = refl
count-deleted id (l ∷ ls) = ground (arith, count-deleted id ls)

count-other :
    (id id' : ℕ) (ls : List Listener)
    → (id == id') ≡ false
    → count (select (is_call id') (delete (is_call id) ls)) ≡ count (select (is_call id') ls)
count-other id id' ls ne =
    ap count (select-delete (is_call id') (is_call id) ls (λ l h. ground arith))

finish-own :
    (n id : ℕ) (f : Feed)
    → any (is_call id) f.listeners ≡ true
    → answered id f + waiting id f ≡ (if ltb id n then 1 else 0)
    → answered id (finish id f) + waiting id (finish id f) ≡ (if ltb id n then 1 else 0)
unfolding finish answer
finish-own n id f there h =
    rw (there, ==_refl id, count-deleted id f.listeners)
      (ground (arith, count-present id f.listeners there))

finish-IsOnce : (n id : ℕ) (f : Feed) → IsOnce n f → IsOnce n (finish id f)
unfolding finish answer
finish-IsOnce n id f h id' = elim (Bool-cases (any (is_call id) f.listeners)) [
  | inr absent ↦ rw absent (h id')
  | inl there ↦ elim (Bool-cases (id == id')) [
    | inr ne ↦ rw (there, ne, count-other id id' f.listeners ne) (h id')
    | inl same ↦
        let e : id ≡ id' = ground arith in
        subst (λ i. answered i (finish id f) + waiting i (finish id f) ≡ (if ltb i n then 1 else 0))
          e (finish-own n id f there (h id))
  ]
]

notify_all-IsOnce :
    (n : ℕ) (ls : List Listener) (f : Feed) → IsOnce n f → IsOnce n (notify_all ls f)
unfolding notify_all
notify_all-IsOnce n [] f h = h
notify_all-IsOnce n (l ∷ ls) f h =
    notify_all-IsOnce n ls (finish l.call_id f) (finish-IsOnce n l.call_id f h)

added-IsOnce :
    (n cursor : ℕ) (f : Feed)
    → IsOnce n f
    → IsOnce
        (suc n)
        (record f { listeners = record { call_id = n; cursor = cursor } ∷ f.listeners })
added-IsOnce n cursor f h id = ground (arith, h id)

after-IsOnce :
    (n cursor : ℕ) (aborted : Bool) (f : Feed)
    → IsOnce n f
    → IsOnce (suc n) (after n cursor aborted f)
unfolding after
after-IsOnce n cursor aborted f h =
    let added = record f { listeners = record { call_id = n; cursor = cursor } ∷ f.listeners } in
    elim (Bool-cases (ltb cursor f.revision || aborted)) [
      | inl now ↦ rw now (finish-IsOnce (suc n) n added (added-IsOnce n cursor f h))
      | inr later ↦ rw later (added-IsOnce n cursor f h)
    ]

-- In every run, each call that was made waits or has been answered exactly once, and no other call
-- has been answered.
pub Run-IsOnce :
    {first : Opaque} {f : Feed} {n : ℕ}
    → Run first f n
    → (id : ℕ) → answered id f + waiting id f ≡ (if ltb id n then 1 else 0)
unfolding publish
Run-IsOnce start id = ground arith
Run-IsOnce (publishes {f} {n} r kind) id =
    notify_all-IsOnce n f.listeners (record f { kind = kind; revision = f.revision + 1 })
      (Run-IsOnce r) id
Run-IsOnce (calls {f} {n} r cursor aborted) id = after-IsOnce n cursor aborted f (Run-IsOnce r) id
Run-IsOnce (ends {f} {n} r k) id = finish-IsOnce n k f (Run-IsOnce r) id
