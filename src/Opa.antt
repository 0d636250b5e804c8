-- ===== src/Opa.antt =====
-- opa_client.py: the client of the Open Policy Agent sidecar and its circuit breaker. The HTTP
-- client is a parameter: a function from the payload to what came of the POST.
pub mod Breaker
mod Examples
use auth_n_z.Common.{
  ℕ, ◌+◌, Bool, true, false, Option, none, some, List, [], ◌∷◌, ◌&&◌, leb, nat_eq, not,
  if◌then◌else◌, or_default,
}

-- what `res.json()` gives: it raises, it is no object, or it has a "result"
pub data Body : Type 0 where
  not_json not_object : Body
  -- a Boolean result
  flag : Bool → Body
  -- an object, with the truth value of its "allow", if it has one
  object : Option Bool → Body
  -- any other result, by its truth value
  other : Bool → Body

pub data Response : Type 0 where
  raised : Response
  replied : ℕ → Body → Response

pub record OpaClient : Type 0 where
  pub enabled : Bool
  pub consecutive_failures : ℕ
  pub circuit_open : Bool

-- `OPAClient.__init__`, once the flag is settled
abbrev pub init : Bool → OpaClient
init enabled = record { enabled = enabled; consecutive_failures = 0; circuit_open = false }

-- `_record_failure`
record_failure : OpaClient → OpaClient
record_failure c =
    let failures = c.consecutive_failures + 1 in
    record c {
      consecutive_failures = failures;
      circuit_open = if leb 5 failures then true else c.circuit_open;
    }

pub reset_circuit : OpaClient → OpaClient
reset_circuit c = record c { consecutive_failures = 0; circuit_open = false }

-- the body of a reply with status 200; the counters are reset as soon as the JSON is read
read_body : Body → OpaClient → Option Bool × OpaClient
unfolding record_failure reset_circuit
read_body not_json c = (none, record_failure c)
read_body not_object c = (none, record_failure (reset_circuit c))
read_body (flag b) c = (some b, reset_circuit c)
read_body (object allow) c = (some (or_default allow false), reset_circuit c)
read_body (other b) c = (some b, reset_circuit c)

read_response : Response → OpaClient → Option Bool × OpaClient
unfolding record_failure read_body
read_response raised c = (none, record_failure c)
read_response (replied status body) c =
    if nat_eq status 200 then read_body body c else (none, record_failure c)

-- the early returns before a request is sent
abbrev pub is_silent : OpaClient → Bool
is_silent c = if c.enabled then c.circuit_open && leb 5 c.consecutive_failures else true

unfoldable pub evaluate_policy :
    {Payload : Type 0} (post : Payload → Response) → Payload → OpaClient → Option Bool × OpaClient
unfolding read_response
evaluate_policy post input c = if is_silent c then (none, c) else read_response (post input) c

-- a sequence of queries, by what would come of each request
unfoldable pub run : List Response → OpaClient → OpaClient
run [] c = c
run (r ∷ rs) c = run rs (evaluate_policy (λ (s : Response). s) r c).1
