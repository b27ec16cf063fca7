-- ===== src/CircuitBreaker/Machine.antt =====
-- src/compute-bridge/router/circuit-breaker.service.ts: what the service promises for one provider,
-- as a machine on that provider's breaker alone.
use stell_aiverse_backend.Prelude.{
  ℕ, ◌+◌, ◌≡◌, refl, List, [], ◌∷◌, Option, none, some, arith, leb, ◌==◌, if◌then◌else◌, lookup,
  lookup-insert, ap, ◌∙◌,
}
use stell_aiverse_backend.CircuitBreaker.{
  CircuitBreakerState, closed, open_, half_open, InternalCircuitBreakerState, CircuitBreakerConfig,
  CircuitBreakerService, Call, initialize, executes, succeeds, fails, resets, listens, forgets,
  initialize_circuit_breaker, can_execute, record_success, record_failure, reset_circuit_breaker,
  add_event_listener, remove_event_listener, step, run,
}

abbrev pub Breaker : Type 0
Breaker = InternalCircuitBreakerState

unfoldable pub fresh : CircuitBreakerConfig → ℕ → Breaker
fresh c now = record {
  state = closed;
  failure_count = 0;
  success_count = 0;
  last_failure_time = now;
  next_attempt_time = now;
  current_backoff = c.recovery_timeout;
}

-- The circuit is closed: the counters start again.
unfoldable pub shut : Breaker → Breaker
shut b = record b { state = closed; failure_count = 0; success_count = 0; current_backoff = 30000 }

-- The circuit opens for one backoff.
unfoldable pub trip : Breaker → ℕ → Breaker
trip b now = record b {
  state = open_;
  success_count = 0;
  next_attempt_time = now + b.current_backoff;
}

pub executed_in : CircuitBreakerState → Breaker → ℕ → Breaker
executed_in open_ b now =
    if leb b.next_attempt_time now then record b { state = half_open; success_count = 0 } else b
executed_in closed b now = b
executed_in half_open b now = b

pub succeeded_in : CircuitBreakerState → Breaker → Breaker
unfolding shut
succeeded_in closed b = record b { failure_count = 0 }
succeeded_in half_open b = if leb 3 b.success_count then shut b else b
succeeded_in open_ b = b

pub failed_in : CircuitBreakerState → Breaker → ℕ → Breaker
unfolding trip
failed_in closed b now = if leb 5 b.failure_count then trip b now else b
failed_in half_open b now = trip b now
failed_in open_ b now = record b { next_attempt_time = now + b.current_backoff }

unfoldable pub executed : Breaker → ℕ → Breaker
unfolding executed_in
executed b now = executed_in b.state b now

unfoldable pub succeeded : Breaker → Breaker
unfolding succeeded_in
succeeded b = succeeded_in b.state (record b { success_count = b.success_count + 1 })

unfoldable pub failed : Breaker → ℕ → Breaker
unfolding failed_in
failed b now =
    failed_in b.state (record b { failure_count = b.failure_count + 1; last_failure_time = now })
      now

abbrev on_breaker : (Breaker → Breaker) → Option Breaker → Option Breaker
on_breaker f none = none
on_breaker f (some b) = some (f b)

-- What one call does to the breaker of provider `q`.
unfoldable pub next : ℕ → ℕ → Call → Option Breaker → Option Breaker
unfolding executed succeeded failed fresh shut
next q now (initialize p c) o = if p == q then some (fresh c now) else o
next q now (executes p) o = if p == q then on_breaker (λ b. executed b now) o else o
next q now (succeeds p) o = if p == q then on_breaker succeeded o else o
next q now (fails p e) o = if p == q then on_breaker (λ b. failed b now) o else o
next q now (resets p) o = if p == q then on_breaker shut o else o
next q now (listens l) o = o
next q now (forgets l) o = o

can_execute-next :
    (s : CircuitBreakerService) (p q now : ℕ)
    → lookup q (can_execute s p now).0.circuit_breakers
      ≡ next q now (executes p) (lookup q s.circuit_breakers)
unfolding can_execute next
can_execute-next s p q now = grind (arith, lookup-insert)

record_success-next :
    (s : CircuitBreakerService) (p q now : ℕ)
    → lookup q (record_success s p now).circuit_breakers
      ≡ next q now (succeeds p) (lookup q s.circuit_breakers)
unfolding record_success next
record_success-next s p q now = grind (arith, lookup-insert)

record_failure-next :
    (s : CircuitBreakerService) (p q : ℕ) (e : Option ℕ) (now : ℕ)
    → lookup q (record_failure s p e now).circuit_breakers
      ≡ next q now (fails p e) (lookup q s.circuit_breakers)
unfolding record_failure next
record_failure-next s p q e now = grind (arith, lookup-insert)

reset_circuit_breaker-next :
    (s : CircuitBreakerService) (p q now : ℕ)
    → lookup q (reset_circuit_breaker s p now).circuit_breakers
      ≡ next q now (resets p) (lookup q s.circuit_breakers)
unfolding reset_circuit_breaker next
reset_circuit_breaker-next s p q now = grind (arith, lookup-insert)

-- The service runs, for each provider, the machine `next` on that provider's breaker: every call
-- moves the breaker of its own provider as the machine says, and leaves every other one alone.
pub step-next :
    (s : CircuitBreakerService) (q now : ℕ) (c : Call)
    → lookup q (step s now c).circuit_breakers ≡ next q now c (lookup q s.circuit_breakers)
unfolding step next initialize_circuit_breaker add_event_listener remove_event_listener
step-next s q now (initialize p c) = grind (arith, lookup-insert)
step-next s q now (executes p) = can_execute-next s p q now
step-next s q now (succeeds p) = record_success-next s p q now
step-next s q now (fails p e) = record_failure-next s p q e now
step-next s q now (resets p) = reset_circuit_breaker-next s p q now
step-next s q now (listens l) = ground arith
step-next s q now (forgets l) = refl

-- The machine over a history of calls.
unfoldable pub history : ℕ → List (ℕ × Call) → Option Breaker → Option Breaker
history q [] o = o
history q ((now, c) ∷ cs) o = history q cs (next q now c o)

-- So after any history of calls the breaker of a provider is what the machine makes of that
-- history alone.
pub run-history :
    (s : CircuitBreakerService) (q : ℕ) (cs : List (ℕ × Call))
    → lookup q (run s cs).circuit_breakers ≡ history q cs (lookup q s.circuit_breakers)
unfolding run history
run-history s q [] = refl
run-history s q ((now, c) ∷ cs) =
    run-history (step s now c) q cs ∙ ap (history q cs) (step-next s q now c)
