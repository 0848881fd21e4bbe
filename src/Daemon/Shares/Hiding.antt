-- ===== src/Daemon/Shares/Hiding.antt =====
-- Six of the seven shares say nothing of the key.
use crypto_pigeon.Prelude.{
  suc, ◌==◌, subst, ◌≡◌, refl, ap, ◌+◌, sym, ◌∙◌, Bool, true, false, some, List, [], ◌∷◌, ◌++◌,
  count, arith,
}
use mathlib.Core.Bool.{xor}
use crypto_pigeon.Daemon.Shares.{Buffer, share_bits, xor_into, xor_all, zeros, split_seven}
use crypto_pigeon.Daemon.Shares.Reconstruction.{
  count-xor_into, count-xor_all, count-zeros, xor_all-append, xor_all-own_sum, count-snoc,
  AreShares, split_seven-IsSplit,
}

bit_swap : (x y z : Bool) → xor (xor x y) z ≡ xor (xor x z) y
unfolding xor
bit_swap true true true = refl
bit_swap true true false = refl
bit_swap true false true = refl
bit_swap true false false = refl
bit_swap false true true = refl
bit_swap false true false = refl
bit_swap false false true = refl
bit_swap false false false = refl

xor_into_swap : (a s t : Buffer) → xor_into (xor_into a s) t ≡ xor_into (xor_into a t) s
unfolding xor_into
xor_into_swap [] s t = refl
xor_into_swap (x ∷ a) [] [] = refl
xor_into_swap (x ∷ a) [] (z ∷ t) = ap (λ r. xor x z ∷ r) (xor_into_swap a [] t)
xor_into_swap (x ∷ a) (y ∷ s) [] = ap (λ r. xor x y ∷ r) (xor_into_swap a s [])
xor_into_swap (x ∷ a) (y ∷ s) (z ∷ t) = cc (bit_swap x y z, xor_into_swap a s t)

xor_all_swap :
    (a s : Buffer) (ss : List Buffer) → xor_all (xor_into a s) ss ≡ xor_into (xor_all a ss) s
unfolding xor_all
xor_all_swap a s [] = refl
xor_all_swap a s (t ∷ ss) =
    ap (λ r. xor_all r ss) (xor_into_swap a s t) ∙ xor_all_swap (xor_into a t) s ss

bit_undo : (x y : Bool) → xor x (xor x y) ≡ y
unfolding xor
bit_undo true true = refl
bit_undo true false = refl
bit_undo false true = refl
bit_undo false false = refl

xor_into_undo : (a t : Buffer) → count a ≡ count t → xor_into a (xor_into a t) ≡ t
unfolding xor_into
xor_into_undo [] [] e = refl
xor_into_undo [] (z ∷ t) e = absurd (omega arith)
xor_into_undo (x ∷ a) [] e = absurd (omega arith)
xor_into_undo (x ∷ a) (z ∷ t) e = cc (bit_undo x z, xor_into_undo a t (omega arith))

missing_share :
    (before after : List Buffer) (secret : Buffer)
    → count secret ≡ share_bits
    → (s : Buffer) × (count s ≡ share_bits)
      × (xor_all (zeros share_bits) (before ++ s ∷ after) ≡ secret)
unfolding xor_all
missing_share before after secret size =
    let rest = xor_all (xor_all (zeros share_bits) before) after in
    let rest_size : count rest ≡ share_bits =
      count-xor_all (xor_all (zeros share_bits) before) after
      ∙ count-xor_all (zeros share_bits) before
      ∙ count-zeros share_bits in
    (
      xor_into rest secret,
      count-xor_into rest secret ∙ rest_size,
      xor_all-append (zeros share_bits) before (xor_into rest secret ∷ after)
          ∙ xor_all_swap (xor_all (zeros share_bits) before) (xor_into rest secret) after
          ∙ xor_into_undo rest secret (rest_size ∙ sym size),
    )

count-insert :
    (before after : List Buffer) (s : Buffer)
    → count (before ++ s ∷ after) ≡ suc (count before + count after)
count-insert [] after s = omega arith
count-insert (t ∷ before) after s = ground (arith, count-insert before after s)

xor_into_inj :
    (a s t : Buffer) → count a ≡ count s → count a ≡ count t → xor_into a s ≡ xor_into a t → s ≡ t
xor_into_inj a s t hs ht e = sym (xor_into_undo a s hs) ∙ ap (xor_into a) e ∙ xor_into_undo a t ht

split_last :
    (x : Buffer) (xs : List Buffer)
    → (front : List Buffer) × (end : Buffer) × (x ∷ xs ≡ front ++ end ∷ [])
split_last x [] = ([], x, refl)
split_last x (y ∷ xs) =
    let (front, end, e) = split_last y xs in (x ∷ front, end, ap (λ ss. x ∷ ss) e)

split_inserted :
    (before after : List Buffer) (s : Buffer)
    → (front : List Buffer) × (end : Buffer) × (before ++ s ∷ after ≡ front ++ end ∷ [])
split_inserted [] after s = split_last s after
split_inserted (t ∷ before) after s = split_last t (before ++ s ∷ after)

AreShares-snoc :
    (front : List Buffer) (end : Buffer)
    → AreShares (front ++ end ∷ [])
    → AreShares front × (count end ≡ share_bits)
AreShares-snoc [] end (h, _) = (tt, h)
AreShares-snoc (t ∷ front) end (h, hs) =
    let (k, size) = AreShares-snoc front end hs in ((h, k), size)

replace_share :
    (before after : List Buffer) (s s' : Buffer)
    → count s' ≡ share_bits
    → AreShares (before ++ s ∷ after)
    → AreShares (before ++ s' ∷ after)
replace_share [] after s s' k (h, hs) = (k, hs)
replace_share (t ∷ before) after s s' k (h, hs) = (h, replace_share before after s s' k hs)

middle_share :
    (before after : List Buffer) (s : Buffer)
    → AreShares (before ++ s ∷ after)
    → count s ≡ share_bits
middle_share [] after s (h, hs) = h
middle_share (t ∷ before) after s (h, hs) = middle_share before after s hs

middle_sum :
    (before after : List Buffer) (s : Buffer)
    → xor_all (zeros share_bits) (before ++ s ∷ after)
      ≡ xor_into (xor_all (xor_all (zeros share_bits) before) after) s
unfolding xor_all
middle_sum before after s =
    xor_all-append (zeros share_bits) before (s ∷ after)
    ∙ xor_all_swap (xor_all (zeros share_bits) before) s after

-- Seven shares whose sum is the secret are those of a split: the first six are its random buffers.
split_seven-of_sum :
    (front : List Buffer) (end secret : Buffer)
    → AreShares (front ++ end ∷ [])
    → count secret ≡ share_bits
    → xor_all (zeros share_bits) (front ++ end ∷ []) ≡ secret
    → split_seven front secret ≡ some (front ++ end ∷ [])
unfolding split_seven xor_all
split_seven-of_sum front end secret h size e =
    let (_, end_size) = AreShares-snoc front end h in
    let sum = xor_all (zeros share_bits) front in
    let sum_size : count sum ≡ share_bits =
      count-xor_all (zeros share_bits) front ∙ count-zeros share_bits in
    let own : xor_all (zeros share_bits) (front ++ xor_all secret front ∷ []) ≡ secret =
      ap (λ n. xor_all (zeros n) (front ++ xor_all secret front ∷ [])) (sym size)
      ∙ xor_all-own_sum secret front in
    let last : xor_all secret front ≡ end =
      xor_into_inj sum (xor_all secret front) end
        (sum_size ∙ sym (count-xor_all secret front ∙ size)) (sum_size ∙ sym end_size)
        (sym (xor_all-append (zeros share_bits) front (xor_all secret front ∷ []))
          ∙ own
          ∙ sym e
          ∙ xor_all-append (zeros share_bits) front (end ∷ [])) in
    let good : (count secret == share_bits) ≡ true = ground arith in
    rw good (ap (λ t. some (front ++ t ∷ [])) last)

-- A choice of six random buffers with which a split of `secret` has the six given shares.
pub record Fits (before after : List Buffer) (secret : Buffer) (random : List Buffer) : Type 0 where
  pub share : Buffer
  pub six : count random ≡ 6
  pub sized : AreShares random
  pub splits : split_seven random secret ≡ some (before ++ share ∷ after)

Fits-of_split :
    (before after : List Buffer) (s secret : Buffer)
    → count (before ++ s ∷ after) ≡ 7
    → AreShares (before ++ s ∷ after)
    → count secret ≡ share_bits
    → xor_all (zeros share_bits) (before ++ s ∷ after) ≡ secret
    → (random : List Buffer) × Fits before after secret random
Fits-of_split before after s secret seven h size e =
    let (front, end, same) = split_inserted before after s in
    let sized = subst AreShares same h in
    let snoc = count-snoc front end in
    let whole = ap count same in
    (
      front,
      record {
        share = s;
        six = omega arith;
        sized = (AreShares-snoc front end sized).0;
        splits =
            split_seven-of_sum front end secret sized size
              (ap (xor_all (zeros share_bits)) (sym same) ∙ e)
            ∙ ap some (sym same);
      },
    )

-- Two choices that give the same six shares are one.
front-inj : (r1 r2 : List Buffer) (x y : Buffer) → r1 ++ x ∷ [] ≡ r2 ++ y ∷ [] → r1 ≡ r2
front-inj [] [] x y e = refl
front-inj [] (b ∷ []) x y e = absurd (cc e)
front-inj [] (b ∷ c ∷ r2) x y e = absurd (cc e)
front-inj (a ∷ []) [] x y e = absurd (cc e)
front-inj (a ∷ c ∷ r1) [] x y e = absurd (cc e)
front-inj (a ∷ r1) (b ∷ r2) x y e =
    let tails : r1 ++ x ∷ [] ≡ r2 ++ y ∷ [] = cc e in
    let heads : a ≡ b = cc e in cc (heads, front-inj r1 r2 x y tails)

Fits-unique :
    (before after : List Buffer) (secret : Buffer) (r1 r2 : List Buffer)
    → Fits before after secret r1
    → Fits before after secret r2
    → r1 ≡ r2
Fits-unique before after secret r1 r2 f1 f2 =
    let p1 = split_seven-IsSplit r1 secret (before ++ f1.share ∷ after) f1.six f1.sized f1.splits in
    let p2 = split_seven-IsSplit r2 secret (before ++ f2.share ∷ after) f2.six f2.sized f2.splits in
    let rest = xor_all (xor_all (zeros share_bits) before) after in
    let rest_size : count rest ≡ share_bits =
      count-xor_all (xor_all (zeros share_bits) before) after
      ∙ count-xor_all (zeros share_bits) before
      ∙ count-zeros share_bits in
    let shares : f1.share ≡ f2.share =
      xor_into_inj rest f1.share f2.share
        (rest_size ∙ sym (middle_share before after f1.share p1.sized))
        (rest_size ∙ sym (middle_share before after f2.share p2.sized))
        (sym (middle_sum before after f1.share)
          ∙ p1.sum
          ∙ sym p2.sum
          ∙ middle_sum before after f2.share) in
    front-inj r1 r2 (xor_all secret r1) (xor_all secret r2)
      (p1.listed ∙ ap (λ s. before ++ s ∷ after) shares ∙ sym p2.listed)

-- Six shares say nothing of the secret: whichever of the seven shares of a split is missing, for
-- every secret of 48 bytes there is exactly one choice of the six random buffers with which a split
-- of that secret has the very same other six shares.
pub six_shares_hide :
    (random before after : List Buffer) (secret s secret' : Buffer)
    → count random ≡ 6
    → AreShares random
    → split_seven random secret ≡ some (before ++ s ∷ after)
    → count secret' ≡ share_bits
    → (random' : List Buffer) × Fits before after secret' random'
      × ((other : List Buffer) → Fits before after secret' other → other ≡ random')
six_shares_hide random before after secret s secret' six h e size =
    let split = split_seven-IsSplit random secret (before ++ s ∷ after) six h e in
    let (s', s_size, sum) = missing_share before after secret' size in
    let seven = count-insert before after s' ∙ sym (count-insert before after s) ∙ split.seven in
    let (random', fits) =
      Fits-of_split before after s' secret' seven
        (replace_share before after s s' s_size split.sized) size sum in
    (random', fits, (λ other k. Fits-unique before after secret' other random' k fits))
