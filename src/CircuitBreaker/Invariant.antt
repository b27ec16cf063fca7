-- ===== src/CircuitBreaker/Invariant.antt =====
-- src/compute-bridge/router/circuit-breaker.service.ts: what holds of every breaker between two calls,
-- and how a breaker opens, stays open and recovers.
use stell_aiverse_backend.Prelude.{
  ℕ, ◌+◌, ◌≤◌, ◌<◌, ◌≡◌, refl, ◌⊎◌, Bool, true, false, List, [], ◌∷◌, Option, none, some, arith,
  lookup, ap, ◌∙◌, sym, ◌↔◌, length, ◌++◌, all, inl,
}
use stell_aiverse_backend.CircuitBreaker.{
  closed, open_, half_open, CircuitBreakerService, Call, initialize, executes, succeeds, fails,
  can_execute, run, new_service,
}
use stell_aiverse_backend.CircuitBreaker.Machine.{Breaker, next, history, failed, run-history}

-- A closed circuit is below the failure threshold, and a half open one below the success threshold.
pub record IsValid (b : Breaker) : Type 0 where
  pub below_failures : b.state ≡ closed → b.failure_count < 5
  pub below_successes : b.state ≡ half_open → b.success_count < 3

abbrev IsValid? : Option Breaker → Type 0
IsValid? none = Unit
IsValid? (some b) = IsValid b

next-IsValid : (q now : ℕ) (c : Call) (o : Option Breaker) → IsValid? o → IsValid? (next q now c o)
unfolding next
next-IsValid q now c none v = ground arith
next-IsValid q now c (some b) v = ground arith

history-IsValid :
    (q : ℕ) (cs : List (ℕ × Call)) (o : Option Breaker) → IsValid? o → IsValid? (history q cs o)
unfolding history
history-IsValid q [] o v = v
history-IsValid q ((now, c) ∷ cs) o v =
    history-IsValid q cs (next q now c o) (next-IsValid q now c o v)

-- After any history of calls on a new service every breaker is valid: a closed circuit has counted
-- fewer than five failures, and a half open one fewer than three successes.
pub run-IsValid :
    (cs : List (ℕ × Call)) (q : ℕ) (b : Breaker)
    → lookup q (run new_service cs).circuit_breakers ≡ some b
    → IsValid b
unfolding new_service lookup
run-IsValid cs q b h =
    let v : IsValid? (history q cs none) = history-IsValid q cs none tt in
    let e : history q cs none ≡ some b = sym (run-history new_service q cs) ∙ h in rw e at v

-- A request is refused exactly when the provider has a breaker, its circuit is open, and the time of
-- its next attempt has not come.
pub can_execute-false_iff :
    (s : CircuitBreakerService) (p now : ℕ)
    → ((can_execute s p now).1 ≡ false) ↔ (
        (b : Breaker) × (lookup p s.circuit_breakers ≡ some b)
        × (b.state ≡ open_)
        × (now < b.next_attempt_time))
unfolding can_execute
can_execute-false_iff s p now = (λ h. ground arith, λ (b, e, o, l). ground arith)

-- A failure of the call on `p` at each of the times, with the text of its error if it has one.
abbrev pub failures : ℕ → List (ℕ × Option ℕ) → List (ℕ × Call)
failures p [] = []
failures p ((t, e) ∷ ts) = (t, fails p e) ∷ failures p ts

next-fails :
    (p t : ℕ) (e : Option ℕ) (b : Breaker) → next p t (fails p e) (some b) ≡ some (failed b t)
unfolding next
next-fails p t e b = ground arith

-- A failure below the threshold is counted, and nothing else of the circuit changes.
failed-closed :
    (b : Breaker) (t : ℕ)
    → b.state ≡ closed
    → b.failure_count + 1 < 5
    → ((failed b t).state ≡ closed)
      × ((failed b t).failure_count ≡ b.failure_count + 1)
      × ((failed b t).current_backoff ≡ b.current_backoff)
unfolding failed
failed-closed b t c n = ground arith

history-failures :
    (p last : ℕ) (error : Option ℕ) (ts : List (ℕ × Option ℕ)) (b : Breaker)
    → b.state ≡ closed
    → b.failure_count + length ts + 1 ≡ 5
    → (b' : Breaker) × (history p (failures p (ts ++ (last, error) ∷ [])) (some b) ≡ some b')
      × (b'.state ≡ open_)
      × (b'.next_attempt_time ≡ last + b.current_backoff)
unfolding history
history-failures p last error [] b c n =
    (failed b last, next-fails p last error b, opens.0, opens.1)
  where
    opens :
        ((failed b last).state ≡ open_)
        × ((failed b last).next_attempt_time ≡ last + b.current_backoff)
    opens = unfold failed in ground arith
history-failures p last error ((t, e') ∷ ts) b c n =
    let (c', n', k) = failed-closed b t c (omega arith) in
    let (b', e, o, t') = history-failures p last error ts (failed b t) c' (omega arith) in
    (
      b',
      ap (history p (failures p (ts ++ (last, error) ∷ []))) (next-fails p t e' b) ∙ e,
      o,
      omega arith,
    )

-- A closed circuit opens for one backoff, from the time of the last failure, when the failures that
-- it has counted and those that follow in a row, whatever their error texts, are five.
pub run-failures_open :
    (s : CircuitBreakerService) (p last : ℕ) (error : Option ℕ) (ts : List (ℕ × Option ℕ))
    (b : Breaker)
    → lookup p s.circuit_breakers ≡ some b
    → b.state ≡ closed
    → b.failure_count + length ts + 1 ≡ 5
    → (b' : Breaker) × (lookup p (run s (failures p (ts ++ (last, error) ∷ []))).circuit_breakers
        ≡ some b')
      × (b'.state ≡ open_)
      × (b'.next_attempt_time ≡ last + b.current_backoff)
run-failures_open s p last error ts b h c n =
    let (b', e, o, t') = history-failures p last error ts b c n in
    (
      b',
      run-history s p (failures p (ts ++ (last, error) ∷ []))
          ∙ ap (history p (failures p (ts ++ (last, error) ∷ []))) h
          ∙ e,
      o,
      t',
    )

-- What happens between an open circuit and a closed one: a request at time `t₀`, then successes at `t₁`, `t₂`, `t₃`.
abbrev pub recovery : ℕ → ℕ → ℕ → ℕ → ℕ → List (ℕ × Call)
recovery p t₀ t₁ t₂ t₃ =
    (t₀, executes p) ∷ (t₁, succeeds p) ∷ (t₂, succeeds p) ∷ (t₃, succeeds p) ∷ []

history-recovery :
    (p t₀ t₁ t₂ t₃ : ℕ) (b : Breaker)
    → b.state ≡ open_
    → b.next_attempt_time ≤ t₀
    → history p (recovery p t₀ t₁ t₂ t₃) (some b)
      ≡ some (record b {
        state = closed;
        failure_count = 0;
        success_count = 0;
        current_backoff = 30000;
      })
unfolding history next
history-recovery p t₀ t₁ t₂ t₃ b o h = ground arith

-- An open circuit whose time has come admits the next request, and closes with the third success
-- that follows: its counters start at 0, with the default backoff.
pub run-recovery :
    (s : CircuitBreakerService) (p t₀ t₁ t₂ t₃ : ℕ) (b : Breaker)
    → lookup p s.circuit_breakers ≡ some b
    → b.state ≡ open_
    → b.next_attempt_time ≤ t₀
    → ((can_execute s p t₀).1 ≡ true)
      × (lookup p (run s (recovery p t₀ t₁ t₂ t₃)).circuit_breakers
          ≡ some (record b {
            state = closed;
            failure_count = 0;
            success_count = 0;
            current_backoff = 30000;
          }))
run-recovery s p t₀ t₁ t₂ t₃ b h o l = (
  unfold can_execute in ground arith,
  run-history s p _ ∙ ap (history p _) h ∙ history-recovery p t₀ t₁ t₂ t₃ b o l,
)

-- A call that is not `initialize`.
abbrev pub keeps_config : Call → Bool
keeps_config (initialize p c) = false
keeps_config _ = true

-- The backoff is the one of before, or the default.
abbrev HasBackoff : ℕ → Option Breaker → Type 0
HasBackoff n none = Unit
HasBackoff n (some b) = (b.current_backoff ≡ n) ⊎ (b.current_backoff ≡ 30000)

next-HasBackoff :
    (n q now : ℕ) (c : Call) (o : Option Breaker)
    → keeps_config c ≡ true
    → HasBackoff n o
    → HasBackoff n (next q now c o)
unfolding next
next-HasBackoff n q now c none k h = ground arith
next-HasBackoff n q now c (some b) k h = ground arith

history-HasBackoff :
    (n q : ℕ) (cs : List (ℕ × Call)) (o : Option Breaker)
    → all (λ c. keeps_config c.1) cs ≡ true
    → HasBackoff n o
    → HasBackoff n (history q cs o)
unfolding history
history-HasBackoff n q [] o k h = h
history-HasBackoff n q ((now, c) ∷ cs) o k h =
    history-HasBackoff n q cs (next q now c o) (ground arith)
      (next-HasBackoff n q now c o (ground arith) h)

-- After any calls other than `initialize`, failures of an open circuit among them, a breaker's backoff
-- is the one that it had, or the default of 30000 milliseconds, which may be the longer of the two.
pub run-HasBackoff :
    (s : CircuitBreakerService) (q : ℕ) (b b' : Breaker) (cs : List (ℕ × Call))
    → lookup q s.circuit_breakers ≡ some b
    → all (λ c. keeps_config c.1) cs ≡ true
    → lookup q (run s cs).circuit_breakers ≡ some b'
    → (b'.current_backoff ≡ b.current_backoff) ⊎ (b'.current_backoff ≡ 30000)
run-HasBackoff s q b b' cs h k h' =
    let v : HasBackoff b.current_backoff (history q cs (some b)) =
      history-HasBackoff b.current_backoff q cs (some b) k (inl refl) in
    let e : history q cs (some b) ≡ some b' =
      ap (history q cs) (sym h) ∙ sym (run-history s q cs) ∙ h' in
    rw e at v
