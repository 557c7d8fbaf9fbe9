-- ===== src/Core/Breaker/Machine.antt =====
-- The state machine of one breaker: its invariant, its transitions, and what it admits.
use era_ai.Prelude.{
  ℕ, suc, ◌+◌, ◌≤◌, ◌<◌, ◌≡◌, ◌≢◌, refl, ◌∙◌, ◌⊎◌, Bool, true, false, some, is_some, List, [], ◌∷◌,
  All, if◌then◌else◌, arith,
}
use era_ai.Core.Result.{CodeArg}
use era_ai.Core.Breaker.{
  CircuitState, closed, open_circuit, half_open, CircuitBreakerConfig, CircuitSnapshot, Store,
  stored, CircuitBreaker, admit, assertion_error, post_init, new_breaker, current, allow_request,
  record_success, record_failure,
}

-- A snapshot that the breaker itself can have made.
abbrev pub IsSound : ℕ → CircuitSnapshot → Type 0
IsSound threshold s =
    (s.state ≡ open_circuit → is_some s.opened_at ≡ true)
    × (s.state ≡ closed → s.consecutive_failures < threshold)

abbrev pub StoreIsSound : ℕ → Store → Type 0
StoreIsSound threshold (stored (some s)) = IsSound threshold s
StoreIsSound threshold _ = Unit

pub record IsValid (b : CircuitBreaker) : Type 0 where
  pub positive : 1 ≤ b.config.failure_threshold
  pub memory : IsSound b.config.failure_threshold b.memory
  pub store : StoreIsSound b.config.failure_threshold b.store

-- What a caller does to a breaker, with the clock's reading where it is read.
pub data Event : Type 0 where
  request : ℕ → Event
  success : Event
  failure : ℕ → CodeArg → Event

unfoldable pub step : Event → CircuitBreaker → CircuitBreaker
unfolding allow_request record_success record_failure
step (request now) b = (allow_request now b).1
step success b = record_success b
step (failure now code) b = record_failure now code b

unfoldable pub run : List Event → CircuitBreaker → CircuitBreaker
run [] b = b
run (e ∷ es) b = run es (step e b)

step-IsValid : (e : Event) (b : CircuitBreaker) → IsValid b → IsValid (step e b)
unfolding step
step-IsValid (request now) b v = ground arith
step-IsValid success b v = ground arith
step-IsValid (failure now code) b v = ground arith

new_breaker-IsValid :
    (c : CircuitBreakerConfig) (store : Store) {q : CircuitBreakerConfig}
    → post_init c ≡ some q
    → StoreIsSound c.failure_threshold store
    → IsValid (new_breaker c store)
unfolding post_init new_breaker
new_breaker-IsValid c store h k = ground arith

run-IsValid : (es : List Event) (b : CircuitBreaker) → IsValid b → IsValid (run es b)
unfolding run
run-IsValid [] b v = v
run-IsValid (e ∷ es) b v = run-IsValid es (step e b) (step-IsValid e b v)

allow_request-no_assertion :
    (now : ℕ) (b : CircuitBreaker) → IsValid b → (allow_request now b).0 ≢ assertion_error
unfolding allow_request
allow_request-no_assertion now b v h = ground arith

-- Whatever happens to a breaker of a validated configuration that starts from a sound store, the
-- `assert` in `allow_request` never fails.
pub run-no_assertion :
    (c : CircuitBreakerConfig) (store : Store) (es : List Event) (now : ℕ)
    {q : CircuitBreakerConfig}
    → post_init c ≡ some q
    → StoreIsSound c.failure_threshold store
    → (allow_request now (run es (new_breaker c store))).0 ≢ assertion_error
run-no_assertion c store es now h k =
    allow_request-no_assertion now (run es (new_breaker c store))
      (run-IsValid es (new_breaker c store) (new_breaker-IsValid c store h k))

-- The edges of the diagram.
pub data Edge : CircuitState → CircuitState → Type 0 where
  trip : Edge closed open_circuit
  probe : Edge open_circuit half_open
  close : Edge half_open closed
  reopen : Edge half_open open_circuit

-- A step keeps the state that `current` shows, or follows an edge.
pub step-Edge :
    (e : Event) (b : CircuitBreaker)
    → ((current (step e b)).state ≡ (current b).state)
      ⊎ Edge (current b).state (current (step e b)).state
unfolding step current
step-Edge (request now) b = grind (arith, trip, probe, close, reopen)
step-Edge success b = grind (arith, trip, probe, close, reopen)
step-Edge (failure now code) b = grind (arith, trip, probe, close, reopen)

-- The event's time, where it has one, lies before `t`.
abbrev pub IsBefore : ℕ → Event → Type 0
IsBefore t (request now) = now < t
IsBefore t success = Unit
IsBefore t (failure now code) = now < t

-- Is the request admitted?
abbrev pub admitted : Event → CircuitBreaker → Bool
admitted (request now) b = elim (allow_request now b).0 [ admit ↦ true | _ ↦ false ]
admitted _ b = false

pub admissions : List Event → CircuitBreaker → ℕ
admissions [] b = 0
admissions (e ∷ es) b =
    let rest = admissions es (step e b) in if admitted e b then suc rest else rest

blocked :
    (e : Event) (b : CircuitBreaker) (t : ℕ)
    → (current b).state ≡ open_circuit
    → (current b).opened_at ≡ some t
    → IsBefore (t + b.config.cooldown) e
    → (current (step e b) ≡ current b) × ((step e b).config ≡ b.config) × (admitted e b ≡ false)
unfolding step current allow_request
blocked (request now) b t s o h = (ground arith, ground arith, ground arith)
blocked success b t s o h = (ground arith, ground arith, refl)
blocked (failure now code) b t s o h = (ground arith, ground arith, refl)

-- From a circuit that is open since `t`, and as long as all events come before the cooldown ends,
-- no request is admitted, and the state that is shown does not change.
pub cooldown-admissions :
    (es : List Event) (b : CircuitBreaker) (t : ℕ)
    → (current b).state ≡ open_circuit
    → (current b).opened_at ≡ some t
    → All (IsBefore (t + b.config.cooldown)) es
    → (admissions es b ≡ 0) × (current (run es b) ≡ current b)
unfolding admissions run
cooldown-admissions [] b t s o h = (refl, refl)
cooldown-admissions (e ∷ es) b t s o h =
    let (same, conf, shut) = blocked e b t s o h.0 in
    let (none_in, stays) =
      cooldown-admissions es (step e b) t (rw same s) (rw same o) (rw conf h.1) in
    (rw shut none_in, stays ∙ same)
