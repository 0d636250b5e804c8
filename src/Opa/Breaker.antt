-- ===== src/Opa/Breaker.antt =====
-- The circuit breaker of `OPAClient`.
use auth_n_z.Common.{
  leb, nat_eq, if◌then◌else◌, Bool-cases, length, ◌+◌, ◌≤◌, min, ◌≡◌, refl, ◌∙◌, inl, inr, Bool,
  true, false, Option, none, some, List, [], ◌∷◌, arith,
}
use auth_n_z.Opa.{
  Body, Response, OpaClient, raised, replied, not_json, not_object, evaluate_policy, run,
  reset_circuit, init,
}

-- The circuit is open exactly from the fifth failure in a row.
pub record IsConsistent (c : OpaClient) : Type 0 where
  pub opened : c.circuit_open ≡ leb 5 c.consecutive_failures

-- Every query keeps the circuit's flag in step with the count of failures, and a reset does too.
pub evaluate_policy-IsConsistent :
    {Payload : Type 0} (post : Payload → Response) (input : Payload) (c : OpaClient)
    → IsConsistent c
    → IsConsistent (evaluate_policy post input c).1 × IsConsistent (reset_circuit c)
unfolding evaluate_policy reset_circuit
evaluate_policy-IsConsistent post input c h = ground arith

pub run-IsConsistent :
    (rs : List Response) (c : OpaClient) → IsConsistent c → IsConsistent (run rs c)
unfolding run
run-IsConsistent [] c h = h
run-IsConsistent (r ∷ rs) c h =
    run-IsConsistent rs (evaluate_policy (λ (s : Response). s) r c).1
      (evaluate_policy-IsConsistent (λ (s : Response). s) r c h).0

-- An outcome that counts as a failure and does not reset the count first: the call raised, another
-- status than 200, or a body that is not JSON.
abbrev pub Fails : Response → Type 0
Fails raised = Unit
Fails (replied status not_json) = Unit
Fails (replied status body) = nat_eq status 200 ≡ false

abbrev pub AllFail : List Response → Type 0
AllFail [] = Unit
AllFail (r ∷ rs) = Fails r × AllFail rs

failing_step :
    (r : Response) (c : OpaClient)
    → Fails r
    → c.enabled ≡ true
    → c.circuit_open ≡ false
    → evaluate_policy (λ (s : Response). s) r c ≡ (
      none,
      record c {
        consecutive_failures = c.consecutive_failures + 1;
        circuit_open = if leb 5 (c.consecutive_failures + 1) then true else false;
      },
    )
unfolding evaluate_policy
failing_step raised c f e o = ground arith
failing_step (replied status not_json) c f e o = ground arith
failing_step (replied status not_object) c f e o = ground arith
failing_step (replied status (Body.flag b)) c f e o = ground arith
failing_step (replied status (Body.object b)) c f e o = ground arith
failing_step (replied status (Body.other b)) c f e o = ground arith

-- While the circuit is open no query is sent: the decision is left to the caller, and the state
-- stays as it is.
silent_step :
    {Payload : Type 0} (post : Payload → Response) (input : Payload) (c : OpaClient)
    → 5 ≤ c.consecutive_failures
    → c.circuit_open ≡ true
    → evaluate_policy post input c ≡ (none, c)
unfolding evaluate_policy
silent_step post input c h o = ground arith

-- An open circuit stays open through any sequence of queries, whatever the server would answer:
-- only `reset_circuit` closes it.
pub run_open :
    (rs : List Response) (c : OpaClient) → IsConsistent c → c.circuit_open ≡ true → run rs c ≡ c
unfolding run
run_open [] c h o = refl
run_open (r ∷ rs) c h o =
    rw (silent_step (λ (s : Response). s) r c (ground arith) o) (run_open rs c h o)

failures_saturate :
    (rs : List Response) (c : OpaClient)
    → AllFail rs
    → IsConsistent c
    → c.enabled ≡ true
    → c.consecutive_failures ≤ 5
    → (run rs c).consecutive_failures ≡ min 5 (c.consecutive_failures + length rs)
unfolding run
failures_saturate [] c f h e le = omega arith
failures_saturate (r ∷ rs) c f h e le = elim (Bool-cases c.circuit_open) [
  | inl o ↦ rw (run_open (r ∷ rs) c h o) (ground arith)
  | inr o ↦
      rw (failing_step r c f.0 e o, run)
        (failures_saturate rs _ f.1 (ground arith) e (ground arith) ∙ omega arith)
]

-- From a new, enabled client, after any run of failures that do not reset the count (the call
-- raised, the status was not 200, or the body was not JSON; a 200 reply with JSON that is no object
-- is not among them) the circuit is open exactly if there were at least five of them.
pub run-opens_at_five :
    (rs : List Response) → AllFail rs → (run rs (init true)).circuit_open ≡ leb 5 (length rs)
run-opens_at_five rs f =
    (run-IsConsistent rs (init true) (record { opened = refl })).opened
    ∙ rw (failures_saturate rs (init true) f (record { opened = refl }) refl (omega arith))
        (ground arith)

-- The decisions that a server can give: a Boolean, an object's "allow" (false without one), or the
-- truth value of any other result.
abbrev pub decision : Body → Option Bool
decision (Body.flag b) = some b
decision (Body.object none) = some false
decision (Body.object (some b)) = some b
decision (Body.other b) = some b
decision _ = none

-- A query on a closed circuit that gets status 200 and a readable body returns the server's
-- decision and leaves no failure on record.
pub evaluate_policy_answered :
    {Payload : Type 0} (post : Payload → Response) (input : Payload) (c : OpaClient) (body : Body)
    (b : Bool)
    → c.enabled ≡ true
    → c.circuit_open ≡ false
    → post input ≡ replied 200 body
    → decision body ≡ some b
    → evaluate_policy post input c ≡ (some b, reset_circuit c)
unfolding evaluate_policy reset_circuit
evaluate_policy_answered post input c (Body.object none) b e o p d = ground arith
evaluate_policy_answered post input c (Body.object (some a)) b e o p d = ground arith
evaluate_policy_answered post input c _ b e o p d = ground arith
