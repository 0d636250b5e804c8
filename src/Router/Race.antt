-- ===== src/Router/Race.antt =====
-- Two requests with the same refresh token at once.
use auth_n_z.Common.{ℕ, String, ◌≡◌, refl, ◌∙◌, true, none, arith}
use auth_n_z.Common.Jwt.{Claims}
use auth_n_z.Auth.Login.{Services}
use auth_n_z.Router.Refresh.{passed, Draw, Lifetimes, App, check_claims, check_refresh, rotate}
use auth_n_z.Router.Granted.{
  is_rotated, checked_in_memory, is_good, rotate_answers, Shows, checked_as,
}

module _ (V : Services) where
  -- The token is revoked only after its checks and after the wait for the user's record: without
  -- Redis, two requests that show the same good refresh token, of which each was checked before
  -- either revokes it, both get new tokens.
  pub refresh_tokens_race :
      (now later : ℕ) (lifetimes : Lifetimes) (draw draw' : Draw) (token : String) (c : Claims)
      (users : V.U.Db) (s : App V)
      → s.tokens.redis ≡ none
      → Shows V now token c
      → Shows V later token c
      → is_good V c users s.tokens ≡ true
      → let (first, s1) = check_refresh V now token s in
        let (second, s2) = check_refresh V later token s1 in
        let (answer, s3) = rotate V now lifetimes draw c users s2 in
        (first ≡ passed c)
        × (second ≡ passed c)
        × (is_rotated answer ≡ true)
        × (is_rotated (rotate V later lifetimes draw' c users s3).0 ≡ true)
  refresh_tokens_race now later lifetimes draw draw' token c users s off first second good =
      let passes : check_claims V c s ≡ (passed c, s) =
        checked_in_memory V c s off ∙ ground arith in
      let checked = checked_as V now token c s first ∙ passes in
      let checked' = checked_as V later token c s second ∙ passes in
      let s3 = (rotate V now lifetimes draw c users s).1 in
      rw (checked, checked')
        (
          refl,
          refl,
          rotate_answers V now lifetimes draw c users s ∙ ground arith,
          rotate_answers V later lifetimes draw' c users s3 ∙ ground arith,
        )
