-- ===== src/OAuth/Examples.antt =====
-- The states at a concrete input.
use auth_n_z.Common.{String, ◌≡◌, refl, ◌≢◌, none, some, [], ◌∷◌}
use auth_n_z.Common.Samples.{memory_redis}
use auth_n_z.OAuth.State.{Json, Manager, save_state, consume_state}
use auth_n_z.OAuth.Once.{consume_state-save_state}

abbrev json : Json memory_redis String
json = record { dumps = λ t. t; loads = some }

abbrev idle : Manager memory_redis String
idle = record { redis = none; states = ("x1", "github") ∷ [] }

abbrev second : String
second = "s1"

consume_state-save_state_example :
    let (first, s') =
      consume_state memory_redis String json second
        (save_state memory_redis String json second "google" 600 idle) in
    (first ≡ some "google")
    × ((consume_state memory_redis String json second s').0 ≡ none)
    × ((other : String)
        → other ≢ second
        → (consume_state memory_redis String json other s').0
          ≡ (consume_state memory_redis String json other idle).0)
consume_state-save_state_example =
    consume_state-save_state memory_redis String json second "google" 600 idle refl
