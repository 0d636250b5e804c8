-- ===== src/Token/Revocation.antt =====
-- Revoking single tokens.
use auth_n_z.Common.{
  Bool-cases, or_default, Option-cases, contains, add, contains-add, ℕ, String, ◌≡◌, refl, inl, inr,
  Bool, true, false, ◌||◌, Option, none, some, List, arith, ◌==◌, eq_iff, eq_refl,
}
use auth_n_z.Common.Redis.{Redis}
use auth_n_z.Common.Jwt.{Jwt}
use auth_n_z.Token.Service.{
  Tokens, token_key, ask, mark, listed, mark_both, jti_of, exp_of, seconds_left, revoke_token,
  is_token_revoked,
}

-- a test of a token's own `jti`, if it has one
abbrev pub at_jti : (String → Bool) → Option String → Bool
at_jti test none = false
at_jti test (some jti) = test jti

two_more :
    (id jti other : String) (own : Option String) (list : List String)
    → (contains other (add id (add jti list))
        || at_jti (λ k. contains k (add id (add jti list))) own)
      ≡ (id == other
          || jti == other
          || at_jti (λ k. id == k || jti == k) own
          || (contains other list || at_jti (λ k. contains k list) own))
two_more id jti other none list = simp contains-add (ground arith)
two_more id jti other (some k) list = simp contains-add (ground arith)

module _ (R : Redis) (J : Jwt) where
  -- An identifier is revoked in memory if it is on the list, or if its own `jti` is.
  abbrev pub on_list : String → List String → Bool
  on_list id list = contains id list || at_jti (λ jti. contains jti list) (jti_of R J id)

  pub is_revoked_in_memory :
      (id : String) (s : Tokens R)
      → s.redis ≡ none
      → is_token_revoked R J id s ≡ (on_list id s.blocklist, s)
  unfolding is_token_revoked listed
  is_revoked_in_memory id s off = ground arith

  revoked_in_memory :
      (now : ℕ) (id : String) (at : Option ℕ) (s : Tokens R)
      → s.redis ≡ none
      → revoke_token R J now id at s
        ≡ (true, record s { blocklist = add id (add (or_default (jti_of R J id) id) s.blocklist) })
  unfolding revoke_token
  revoked_in_memory now id at s off = ground arith

  -- Without Redis, after a token is revoked exactly those identifiers are revoked that were so
  -- before, that are the token or its `jti`, or whose own `jti` is one of the two; and the Redis
  -- connection and the families are as they were.
  pub is_token_revoked-revoke_token :
      (now : ℕ) (id other : String) (at : Option ℕ) (s : Tokens R)
      → s.redis ≡ none
      → let jti = or_default (jti_of R J id) id in
        let s' = (revoke_token R J now id at s).1 in
        ((is_token_revoked R J other s').0 ≡ (
          id == other
          || jti == other
          || at_jti (λ k. id == k || jti == k) (jti_of R J other)
          || (is_token_revoked R J other s).0))
        × (s'.redis ≡ none)
        × (s'.revoked_families ≡ s.revoked_families)
  is_token_revoked-revoke_token now id other at s off =
      let jti = or_default (jti_of R J id) id in
      rw (revoked_in_memory now id at s off, is_revoked_in_memory other s off)
        (rw (is_revoked_in_memory other (record s { blocklist = add id (add jti s.blocklist) }) off)
          (two_more id jti other (jti_of R J other) s.blocklist, off, refl))

module _ (R : Redis) where
  -- Redis still has a key right after it answered the write of that key.
  abbrev pub KeepsWrites : Type 0
  KeepsWrites =
      (key value : String) (ttl : ℕ) (db : R.Db)
      → (R.set key value ttl db).0 ≡ some tt
      → (R.exists key (R.set key value ttl db).1).0 ≡ some true

  pub ask-mark :
      KeepsWrites
      → (key : String) (ttl : ℕ) (s : Tokens R) → (mark R key ttl s).0 ≡ true
      → (ask R key (mark R key ttl s).1).0 ≡ some true
  unfolding ask mark
  ask-mark written key ttl s done = elim (Option-cases s.redis) [
    | inl off ↦ ground arith
    | inr (db, on) ↦ elim (Option-cases (R.set key "1" ttl db).0) [
      | inl raised ↦ ground arith
      | inr (u, fine) ↦ ground (arith, written key "1" ttl db)
    ]
  ]

  ask-mark_both :
      KeepsWrites
      → (jti id : String) (ttl : ℕ) (s : Tokens R) → (mark_both R jti id ttl s).0 ≡ true
      → (ask R (token_key id) (mark_both R jti id ttl s).1).0 ≡ some true
  unfolding mark_both
  ask-mark_both written jti id ttl s done = elim (Bool-cases (mark R (token_key jti) ttl s).0) [
    | inr failed ↦ ground arith
    | inl first ↦ elim (Bool-cases (jti == id)) [
      | inl same ↦
          let there = ask-mark written (token_key jti) ttl s first in ground (arith, eq_iff jti id)
      | inr differs ↦
          let there = ask-mark written (token_key id) ttl (mark R (token_key jti) ttl s).1 in
          ground arith
    ]
  ]

  listed_of_ask :
      (id : String) (s : Tokens R)
      → (ask R (token_key id) s).0 ≡ some true
      → (listed R id s).0 ≡ true
  unfolding listed
  listed_of_ask id s h = ground arith

  listed_of_contains :
      (id : String) (s : Tokens R) → contains id s.blocklist ≡ true → (listed R id s).0 ≡ true
  unfolding listed ask
  listed_of_contains id s h = ground arith

  module _ (J : Jwt) where
    revoked_of_listed :
        (id : String) (s : Tokens R)
        → (listed R id s).0 ≡ true
        → (is_token_revoked R J id s).0 ≡ true
    unfolding is_token_revoked
    revoked_of_listed id s h = ground arith

    -- With or without Redis, and whichever of its writes fail, a token that was just revoked is
    -- found revoked, if Redis still has a key right after it answered the write of that key.
    pub is_token_revoked-revoke_token_self :
        KeepsWrites
        → (now : ℕ) (id : String) (at : Option ℕ) (s : Tokens R)
        → (is_token_revoked R J id (revoke_token R J now id at s).1).0 ≡ true
    unfolding revoke_token
    is_token_revoked-revoke_token_self written now id at s =
        let jti = or_default (jti_of R J id) id in
        let ttl = seconds_left R J now at (exp_of R J id) in
        revoked_of_listed id (revoke_token R J now id at s).1
          (elim (Bool-cases (mark_both R jti id ttl s).0) [
            | inl done ↦
                listed_of_ask id (revoke_token R J now id at s).1
                  (rw (done, revoke_token) (ask-mark_both written jti id ttl s done))
            | inr failed ↦ listed_of_contains id (revoke_token R J now id at s).1 (
                ground (
                  arith,
                  contains-add id id (add jti (mark_both R jti id ttl s).1.blocklist),
                  eq_refl id,
                ))
          ])
