-- ===== src/Common/Samples.antt =====
-- Concrete clients for the tests: a Redis that keeps its keys for ever, and a JWT library that
-- knows three tokens.
use Prim.Native.String.{String}
use mathlib.Core.Bool.{true}
use mathlib.Core.Option.{some}
use mathlib.Core.List.{List, [], ◌∷◌, map}
use auth_n_z.Common.Tests.{is_some}
use auth_n_z.Common.Dictionary.{Dict, lookup, insert, remove}
use auth_n_z.Common.Redis.{Redis}

abbrev remove_all : List String → Dict String → Dict String
remove_all [] d = d
remove_all (k ∷ ks) d = remove_all ks (remove k d)

abbrev pub memory_redis : Redis
memory_redis = record {
  Db = Dict String;
  get = λ k d. (some (lookup k d), d);
  exists = λ k d. (some (is_some (lookup k d)), d);
  set = λ k v t d. (some tt, insert k v d);
  delete = λ ks d. (some 0, remove_all ks d);
  keys = λ p d. (some (map (λ e. e.0) d), d);
  incr = λ k d. (some 1, insert k "1" d);
  expire = λ k t d. (some true, d);
  ttl = λ k d. (some 0, d);
}
