-- ===== src/Core/Breaker.antt =====
-- era/core/circuit_breaker.py: the breaker of one provider and the registry of all breakers. Times
-- are counted in ticks, as in the retry loop. A method takes the clock's reading, and returns the
-- breaker behind it.
pub mod Machine
pub mod Streaks
pub mod Tests
use era_ai.Prelude.{
  ℕ, ◌+◌, ◌*◌, String, Bool, true, false, Option, none, some, ltb, leb, if◌then◌else◌, Dict, lookup,
  insert,
}
use era_ai.Core.Result.{ErrorCode, CodeArg, member, text, code_of_value}
use era_ai.Core.Retry.{CodeSet, default_retryable_codes}

pub data CircuitState : Type 0 where
  closed open_circuit half_open : CircuitState

pub record CircuitBreakerConfig : Type 0 where
  pub failure_threshold : ℕ
  pub cooldown : ℕ
  pub trip_codes : CodeSet

unfoldable pub default_config : ℕ → CircuitBreakerConfig
unfolding default_retryable_codes
default_config second = record {
  failure_threshold = 5;
  cooldown = 30 * second;
  trip_codes = default_retryable_codes;
}

-- `__post_init__`: `none` is `ValueError`. A negative cooldown is no number of ticks.
unfoldable pub post_init : CircuitBreakerConfig → Option CircuitBreakerConfig
post_init c = if ltb c.failure_threshold 1 then none else some c

code_in : CodeSet → Option ErrorCode → Bool
code_in codes none = false
code_in codes (some c) = codes c

unfoldable pub is_eligible : CircuitBreakerConfig → CodeArg → Bool
unfolding code_in code_of_value
is_eligible c (member code) = c.trip_codes code
is_eligible c (text s) = code_in c.trip_codes (code_of_value s)

pub record CircuitSnapshot : Type 0 where
  pub state : CircuitState
  pub consecutive_failures : ℕ
  pub opened_at : Option ℕ

-- The store of a breaker: none is configured, or it holds the provider's last snapshot, if any.
pub data Store : Type 0 where
  no_store : Store
  stored : Option CircuitSnapshot → Store

pub record CircuitBreaker : Type 0 where
  pub config : CircuitBreakerConfig
  pub memory : CircuitSnapshot
  pub store : Store

abbrev pub initial : CircuitSnapshot
initial = record { state = closed; consecutive_failures = 0; opened_at = none }

-- `_refresh`: what the store holds replaces what the object remembers.
loaded : Store → CircuitSnapshot → CircuitSnapshot
loaded no_store s = s
loaded (stored none) s = s
loaded (stored (some t)) s = t

refresh : CircuitBreaker → CircuitBreaker
unfolding loaded
refresh b = record b { memory = loaded b.store b.memory }

saved : Store → CircuitSnapshot → Store
saved no_store s = no_store
saved (stored _) s = stored (some s)

-- Sets the fields and calls `_persist`.
persist : CircuitBreaker → CircuitSnapshot → CircuitBreaker
unfolding saved
persist b s = record b { memory = s; store = saved b.store s }

-- `__init__`
unfoldable pub new_breaker : CircuitBreakerConfig → Store → CircuitBreaker
unfolding refresh
new_breaker config store = refresh (record { config = config; memory = initial; store = store })

-- The `state` property. It refreshes.
unfoldable pub current : CircuitBreaker → CircuitSnapshot
unfolding loaded
current b = loaded b.store b.memory

-- The gate's answer, or the `AssertionError` of an open circuit with no time of opening.
pub data Gate : Type 0 where
  admit block assertion_error : Gate

-- `now - opened_at >= cooldown`, over the integers.
gate_open : Option ℕ → ℕ → CircuitBreaker → Gate × CircuitBreaker
gate_open none now b = (assertion_error, b)
gate_open (some t) now b =
    if leb (t + b.config.cooldown) now
    then (admit, persist b (record b.memory { state = half_open }))
    else (block, b)

gate : CircuitState → ℕ → CircuitBreaker → Gate × CircuitBreaker
unfolding gate_open persist
gate closed now b = (admit, b)
gate half_open now b = (admit, b)
gate open_circuit now b = gate_open b.memory.opened_at now b

unfoldable pub allow_request : ℕ → CircuitBreaker → Gate × CircuitBreaker
unfolding gate refresh
allow_request now b = let b' = refresh b in gate b'.memory.state now b'

succeed : CircuitState → CircuitBreaker → CircuitBreaker
unfolding persist
succeed open_circuit b = b
succeed half_open b =
    persist b (record { state = closed; consecutive_failures = 0; opened_at = none })
succeed closed b = persist b (record { state = closed; consecutive_failures = 0; opened_at = none })

unfoldable pub record_success : CircuitBreaker → CircuitBreaker
unfolding succeed refresh
record_success b = let b' = refresh b in succeed b'.memory.state b'

fail : CircuitState → ℕ → CircuitBreaker → CircuitBreaker
unfolding persist
fail open_circuit now b = b
fail half_open now b =
    persist b (record { state = open_circuit; consecutive_failures = 1; opened_at = some now })
fail closed now b =
    let n = b.memory.consecutive_failures + 1 in
    persist b (
      if leb b.config.failure_threshold n
      then record { state = open_circuit; consecutive_failures = n; opened_at = some now }
      else record b.memory { consecutive_failures = n })

unfoldable pub record_failure : ℕ → CodeArg → CircuitBreaker → CircuitBreaker
unfolding fail refresh is_eligible
record_failure now code b =
    if is_eligible b.config code then (let b' = refresh b in fail b'.memory.state now b') else b

-- `CircuitBreakerRegistry`: the breakers made so far, by provider id, and the shared store's
-- snapshots, if the registry has a store.
pub record Registry : Type 0 where
  pub config : CircuitBreakerConfig
  pub breakers : Dict CircuitBreaker
  pub snapshots : Option (Dict CircuitSnapshot)

store_for : Option (Dict CircuitSnapshot) → String → Store
store_for none provider_id = no_store
store_for (some d) provider_id = stored (lookup provider_id d)

made : String → Option CircuitBreaker → Registry → CircuitBreaker × Registry
unfolding store_for new_breaker
made provider_id (some b) r = (b, r)
made provider_id none r =
    let b = new_breaker r.config (store_for r.snapshots provider_id) in
    (b, record r { breakers = insert provider_id b r.breakers })

unfoldable pub get_breaker : Registry → String → CircuitBreaker × Registry
unfolding made lookup insert
get_breaker r provider_id = made provider_id (lookup provider_id r.breakers) r

-- The breaker object is shared: a method's effect on it is seen by every later `get`.
unfoldable pub put_breaker : Registry → String → CircuitBreaker → Registry
unfolding insert
put_breaker r provider_id b = record r { breakers = insert provider_id b r.breakers }
