-- ===== src/Relay/Conversations/Grants.antt =====
-- What a grant does to the table of permissions.
use crypto_pigeon.Prelude.{
  ◌≡◌, Bool, true, false, not, ◌&&◌, List, [], ◌∷◌, arith, any, ◌==◌, if◌then◌else◌, Bool-cases,
  inl, inr,
}
use crypto_pigeon.Prelude.Rows.Laws.{any-append, any-update_hit, any-update_eq}
use crypto_pigeon.Relay.Db.{Uuid, Permission}
use crypto_pigeon.Relay.Conversations.{ordered, is_pair, grant, permitted}

abbrev pub granted : Uuid × Uuid → Permission → Bool
granted pair p = is_pair pair p && not p.revoked

any-grant_self :
    (pair : Uuid × Uuid) (ps : List Permission) → any (granted pair) (grant pair ps) ≡ true
unfolding grant is_pair
any-grant_self pair ps = ground (
  arith,
  any-update_hit (granted pair) (is_pair pair) (λ (p : Permission). record p { revoked = false }) ps
      (λ (p : Permission). λ (h : is_pair pair p ≡ true). ground arith),
  any-append (granted pair) ps
      (record { user_one = pair.0; user_two = pair.1; revoked = false } ∷ []),
)

pair_eq :
    (pair other : Uuid × Uuid) → (other.0 == pair.0 && other.1 == pair.1) ≡ true → other ≡ pair
pair_eq pair other h = ground arith

pub any-grant_other :
    (pair other : Uuid × Uuid) (ps : List Permission)
    → (other.0 == pair.0 && other.1 == pair.1) ≡ false
    → any (granted other) (grant pair ps) ≡ any (granted other) ps
unfolding grant is_pair
any-grant_other pair other ps ne = elim (Bool-cases (any (is_pair pair) ps)) [
  | inl e ↦ rw e (
      any-update_eq (granted other) (is_pair pair)
        (λ (p : Permission). record p { revoked = false }) ps (λ (p : Permission). ground arith))
  | inr e ↦ rw e (
      ground (
        arith,
        any-append (granted other) ps
            (record { user_one = pair.0; user_two = pair.1; revoked = false } ∷ []),
      ))
]

ordered_comm : (a b : Uuid) → ordered a b ≡ ordered b a
unfolding ordered
ordered_comm a b = ground arith

-- A grant sets the permission of its pair, and leaves every other as it was.
pub any-grant :
    (pair other : Uuid × Uuid) (ps : List Permission)
    → any (granted other) (grant pair ps)
      ≡ (if other.0 == pair.0 && other.1 == pair.1 then true else any (granted other) ps)
any-grant pair other ps = elim (Bool-cases (other.0 == pair.0 && other.1 == pair.1)) [
  | inl e ↦ rw e (rw (pair_eq pair other e) (any-grant_self pair ps))
  | inr e ↦ rw e (any-grant_other pair other ps e)
]

-- The permission of a pair does not depend on the order in which its users are named.
pub permitted_comm : (a b : Uuid) (ps : List Permission) → permitted a b ps ≡ permitted b a ps
unfolding permitted ordered
permitted_comm a b ps = rw (ordered_comm a b)
