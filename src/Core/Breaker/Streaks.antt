-- ===== src/Core/Breaker/Streaks.antt =====
-- How many failures open a circuit, and what a restart keeps.
use era_ai.Prelude.{
  ℕ, ◌+◌, ◌<◌, ◌≡◌, refl, inl, inr, true, Option, none, some, List, [], ◌∷◌, map, length, leb,
  if◌then◌else◌, arith, Bool-cases,
}
use era_ai.Core.Result.{CodeArg}
use era_ai.Core.Breaker.{
  closed, open_circuit, CircuitBreakerConfig, CircuitSnapshot, Store, no_store, stored,
  CircuitBreaker, is_eligible, new_breaker, current, initial,
}
use era_ai.Core.Breaker.Machine.{Event, request, success, failure, step, run}

-- `n` failures in a row, of a code that trips, each with its time.
pub failures : List ℕ → CodeArg → List Event
failures ts code = map (λ t. failure t code) ts

streak :
    (t : ℕ) (code : CodeArg) (b : CircuitBreaker)
    → is_eligible b.config code ≡ true
    → (current b).state ≡ closed
    → let n = (current b).consecutive_failures + 1 in
      current (step (failure t code) b) ≡ (
        if leb b.config.failure_threshold n
        then record { state = open_circuit; consecutive_failures = n; opened_at = some t }
        else record { state = closed; consecutive_failures = n; opened_at = (current b).opened_at })
unfolding step current
streak t code b e s = ground arith

failure_when_open :
    (t : ℕ) (code : CodeArg) (b : CircuitBreaker)
    → (current b).state ≡ open_circuit
    → current (step (failure t code) b) ≡ current b
unfolding step current
failure_when_open t code b s = ground arith

step-config : (e : Event) (b : CircuitBreaker) → (step e b).config ≡ b.config
unfolding step
step-config (request now) b = ground arith
step-config success b = ground arith
step-config (failure now code) b = ground arith

open_stays :
    (ts : List ℕ) (code : CodeArg) (b : CircuitBreaker)
    → (current b).state ≡ open_circuit
    → (current (run (failures ts code) b)).state ≡ open_circuit
unfolding run failures
open_stays [] code b s = s
open_stays (t ∷ ts) code b s =
    open_stays ts code (step (failure t code) b) (rw (failure_when_open t code b s) s)

-- Behind a row of tripping failures a closed circuit is open exactly if the streak, with the
-- failures that it had, has reached the threshold.
pub streak_opens :
    (ts : List ℕ) (code : CodeArg) (b : CircuitBreaker)
    → is_eligible b.config code ≡ true
    → (current b).state ≡ closed
    → (current b).consecutive_failures < b.config.failure_threshold
    → (current (run (failures ts code) b)).state ≡ (
        if leb b.config.failure_threshold ((current b).consecutive_failures + length ts)
        then open_circuit
        else closed)
unfolding run failures
streak_opens [] code b e s k = ground arith
streak_opens (t ∷ ts) code b e s k =
    elim (Bool-cases (leb b.config.failure_threshold ((current b).consecutive_failures + 1))) [
      | inl q ↦ ground (
        arith,
        q,
        open_stays ts code (step (failure t code) b) (ground (arith, q, streak t code b e s)),
      )
      | inr q ↦ ground (
        arith,
        q,
        streak t code b e s,
        step-config (failure t code) b,
        streak_opens ts code (step (failure t code) b) (rw (step-config (failure t code) b) e),
      )
    ]

-- What a breaker with a store remembers that its store does not hold is only its first snapshot.
abbrev IsDurable : Store → CircuitSnapshot → Type 0
IsDurable no_store m = ⊥
IsDurable (stored none) m = m ≡ initial
IsDurable (stored (some s)) m = Unit

step-IsDurable :
    (e : Event) (b : CircuitBreaker)
    → IsDurable b.store b.memory
    → IsDurable (step e b).store (step e b).memory
unfolding step
step-IsDurable (request now) b d = ground arith
step-IsDurable success b d = ground arith
step-IsDurable (failure now code) b d = ground arith

run-IsDurable :
    (es : List Event) (b : CircuitBreaker)
    → IsDurable b.store b.memory
    → IsDurable (run es b).store (run es b).memory
unfolding run
run-IsDurable [] b d = d
run-IsDurable (e ∷ es) b d = run-IsDurable es (step e b) (step-IsDurable e b d)

restarted :
    (c : CircuitBreakerConfig) (b : CircuitBreaker)
    → IsDurable b.store b.memory
    → current (new_breaker c b.store) ≡ current b
unfolding new_breaker current
restarted c b d = ground arith

new_breaker-IsDurable :
    (c : CircuitBreakerConfig) (o : Option CircuitSnapshot)
    → let b = new_breaker c (stored o) in IsDurable b.store b.memory
unfolding new_breaker
new_breaker-IsDurable c none = refl
new_breaker-IsDurable c (some s) = tt

-- A breaker with a store that has lived through any events, and a new one made from what the store
-- then holds, show the same state, failure count and time of opening.
pub restart-current :
    (c : CircuitBreakerConfig) (o : Option CircuitSnapshot) (es : List Event)
    → let b = run es (new_breaker c (stored o)) in current (new_breaker c b.store) ≡ current b
restart-current c o es =
    let b = new_breaker c (stored o) in
    restarted c (run es b) (run-IsDurable es b (new_breaker-IsDurable c o))
