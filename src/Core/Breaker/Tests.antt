-- ===== src/Core/Breaker/Tests.antt =====
-- The breaker on concrete runs: a threshold of 2 failures and a cooldown of 30 ticks.
use era_ai.Prelude.{◌≡◌, ◌≢◌, ◌⊎◌, refl, none, some, List, [], ◌∷◌, arith}
use era_ai.Core.Result.{unavailable, provider_error, member}
use era_ai.Core.Retry.{default_retryable_codes}
use era_ai.Core.Breaker.{
  closed, open_circuit, CircuitBreakerConfig, no_store, stored, CircuitBreaker, admit, block,
  assertion_error, post_init, is_eligible, new_breaker, current, allow_request, record_success,
  record_failure,
}
use era_ai.Core.Breaker.Machine.{
  Event, request, success, failure, step, run, run-no_assertion, Edge, step-Edge, admissions,
  cooldown-admissions,
}

abbrev twice : CircuitBreakerConfig
twice = record { failure_threshold = 2; cooldown = 30; trip_codes = default_retryable_codes }

abbrev two_failures : List Event
two_failures = failure 10 (member unavailable) ∷ failure 12 (member provider_error) ∷ []

-- Opened at 12, the breaker blocks before 42, lets one request probe at 42, and closes on success.
opens_and_heals :
    (current (run two_failures (new_breaker twice no_store))
      ≡ record { state = open_circuit; consecutive_failures = 2; opened_at = some 12 })
    × ((allow_request 41 (run two_failures (new_breaker twice no_store))).0 ≡ block)
    × ((allow_request 42 (run two_failures (new_breaker twice no_store))).0 ≡ admit)
    × ((current
          (run (request 42 ∷ success ∷ []) (run two_failures (new_breaker twice no_store)))).state
        ≡ closed)
unfolding run step current allow_request record_failure record_success new_breaker is_eligible
    default_retryable_codes
opens_and_heals = (refl, refl, refl, refl)

run-no_assertion_example :
    (allow_request 15 (run two_failures (new_breaker twice (stored none)))).0 ≢ assertion_error
unfolding post_init
run-no_assertion_example = run-no_assertion twice (stored none) two_failures 15 {q = twice} refl tt

step-Edge_example :
    ((current (step success (new_breaker twice no_store))).state
      ≡ (current (new_breaker twice no_store)).state)
    ⊎ Edge
        (current (new_breaker twice no_store)).state
        (current (step success (new_breaker twice no_store))).state
step-Edge_example = step-Edge success (new_breaker twice no_store)

abbrev tripped : CircuitBreaker
tripped = record {
  config = twice;
  memory = record { state = open_circuit; consecutive_failures = 2; opened_at = some 12 };
  store = no_store;
}

abbrev early : List Event
early = request 20 ∷ failure 30 (member unavailable) ∷ success ∷ request 41 ∷ []

cooldown-admissions_example :
    (admissions early tripped ≡ 0) × (current (run early tripped) ≡ current tripped)
unfolding current
cooldown-admissions_example =
    cooldown-admissions early tripped 12 refl refl
      (ground arith, (ground arith, (tt, (ground arith, tt))))
