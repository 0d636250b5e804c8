-- ===== src/RateLimit/Examples.antt =====
-- The rate limiter's bound at a concrete input.
use auth_n_z.Common.{length, lookup, ℕ, ◌-◌, min, ◌≡◌, refl, List, [], ◌∷◌}
use auth_n_z.RateLimit.Window.{Counters}
use auth_n_z.RateLimit.Bound.{let_through, all_before, let_through-window}

abbrev once : Counters
once = ("login:ann", (1, 160)) ∷ []

abbrev times : List ℕ
times = 110 ∷ 120 ∷ 130 ∷ 140 ∷ []

-- two more of four requests, where three are the most
let_through-window_example : let_through "login:ann" 3 60 times once ≡ min (length times) (3 - 1)
unfolding lookup all_before
let_through-window_example = let_through-window "login:ann" 3 60 1 160 times once refl refl
