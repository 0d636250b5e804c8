-- ===== src/Token/Family.antt =====
-- Revoking token families.
use auth_n_z.Common.{
  contains, add, contains-add, ℕ, String, ◌≡◌, true, false, ◌||◌, none, some, List, arith, ◌==◌,
  eq_refl,
}
use auth_n_z.Common.Redis.{Redis}
use auth_n_z.Token.Service.{Tokens, family_key, ask, mark, revoke_family, is_family_revoked}
use auth_n_z.Token.Revocation.{KeepsWrites, ask-mark}

module _ (R : Redis) where
  -- Without Redis, after a family is revoked exactly it and the families revoked before are; and
  -- the list of single tokens is as it was.
  pub is_family_revoked-revoke_family :
      (id other : String) (lifetime : ℕ) (s : Tokens R)
      → s.redis ≡ none
      → let s' = (revoke_family R id lifetime s).1 in
        ((is_family_revoked R other s').0 ≡ (id == other || (is_family_revoked R other s).0))
        × (s'.redis ≡ none)
        × (s'.blocklist ≡ s.blocklist)
  unfolding revoke_family is_family_revoked
  is_family_revoked-revoke_family id other lifetime s off =
      ground (arith, contains-add id other s.revoked_families)

  -- With Redis, a family whose revocation Redis took is found revoked.
  pub is_family_revoked_written :
      KeepsWrites R
      → (id : String) (lifetime : ℕ) (s : Tokens R) → (mark R (family_key id) lifetime s).0 ≡ true
      → (is_family_revoked R id (revoke_family R id lifetime s).1).0 ≡ true
  unfolding revoke_family is_family_revoked
  is_family_revoked_written written id lifetime s done =
      let there = ask-mark R written (family_key id) lifetime s done in ground arith

  ask_families :
      (key : String) (families : List String) (s : Tokens R)
      → (ask R key (record s { revoked_families = families })).0 ≡ (ask R key s).0
  unfolding ask
  ask_families key families s = ground arith

  -- If Redis raises on the write of a revocation and then answers again that it does not know the
  -- family, the family counts as not revoked, although the call said that it was and put it on the
  -- list in memory.
  pub family_forgotten :
      (id : String) (lifetime : ℕ) (s : Tokens R)
      → (mark R (family_key id) lifetime s).0 ≡ false
      → (ask R (family_key id) (mark R (family_key id) lifetime s).1).0 ≡ some false
      → let (answer, s') = revoke_family R id lifetime s in
        (answer ≡ true)
        × (contains id s'.revoked_families ≡ true)
        × ((is_family_revoked R id s').0 ≡ false)
  unfolding revoke_family is_family_revoked
  family_forgotten id lifetime s raised unknown =
      let s' = (mark R (family_key id) lifetime s).1 in
      let more = add id s'.revoked_families in
      ground (
        arith,
        ask_families (family_key id) more s',
        contains-add id id s'.revoked_families,
        eq_refl id,
      )
