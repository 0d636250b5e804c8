-- ===== src/Opa/Examples.antt =====
-- Tests of the OPA client, and the theorems about it at concrete inputs.
use auth_n_z.Common.{◌≡◌, refl, true, List, [], ◌∷◌}
use auth_n_z.Opa.{Response, OpaClient, raised, replied, not_object, evaluate_policy, run, init}
use auth_n_z.Opa.Breaker.{run-opens_at_five}

abbrev down : List Response
down = raised ∷ raised ∷ replied 503 not_object ∷ raised ∷ raised ∷ []

abbrev opened : OpaClient
opened = record { enabled = true; consecutive_failures = 5; circuit_open = true }

five_failures : run down (init true) ≡ opened
unfolding run evaluate_policy
five_failures = refl

-- a list as the whole JSON body: the counters are reset first, then one failure is recorded
list_body : run (raised ∷ replied 200 not_object ∷ []) (init true) ≡ run (raised ∷ []) (init true)
unfolding run evaluate_policy
list_body = refl

run-opens_at_five_example : (run down (init true)).circuit_open ≡ true
run-opens_at_five_example = run-opens_at_five down (tt, (tt, (refl, (tt, (tt, tt)))))
