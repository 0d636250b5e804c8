-- ===== src/Common/Jwt.antt =====
-- The PyJWT calls, with the service's secret and algorithm fixed. PyJWT is not part of this
-- repository, so its functions are parameters; a token's claims are a dictionary.
use Prim.Native.Nat.{ℕ}
use Prim.Native.String.{String}
use mathlib.Core.Option.{Option}
use mathlib.Core.List.{List}
use auth_n_z.Common.Dictionary.{Dict}

pub data Claim : Type 0 where
  text : String → Claim
  num : ℕ → Claim
  texts : List String → Claim

abbrev pub Claims : Type 0
Claims = Dict Claim

-- the results of `jwt.decode`: claims, `ExpiredSignatureError`, another `InvalidTokenError`
pub data Decoded : Type 0 where
  claims : Claims → Decoded
  expired : Decoded
  invalid : String → Decoded

pub record Jwt : Type 0 where
  pub encode : Claims → String
  -- at a time, requiring sub, exp, iat and jti
  pub decode : ℕ → String → Decoded
  -- `verify_signature: False`; none is a call that raised
  pub unverified : String → Option Claims
