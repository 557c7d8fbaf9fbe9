-- ===== src/Core/Retry.antt =====
-- era/core/retry.py: the retry policy and the retry loop. Times are counted in ticks, whole numbers of a fixed small unit that stand for
-- Python's float seconds; the backoff factor is a fraction, and a delay is rounded down to a tick.
pub mod Codes
pub mod Loop
pub mod Origin
pub mod Deadline
pub mod Keeps
pub mod Tests
use era_ai.Prelude.{
  ℕ, zero, suc, ◌+◌, ◌-◌, ◌*◌, ◌/◌, ◌^◌, min, max, String, Bool, true, false, Option, none, some,
  ltb, leb, if◌then◌else◌,
}
use era_ai.Core.Result.{
  ErrorCode, validation, auth, forbidden, not_found, conflict, timeout, side_effect_unknown,
  unavailable, not_implemented, provider_error, internal, unknown, CodeArg, member, text,
  code_of_value, ToolError, Raises, ok, tool_error, exception,
}

-- A `frozenset` of codes is its membership test.
abbrev pub CodeSet : Type 0
CodeSet = ErrorCode → Bool

unfoldable pub default_retryable_codes : CodeSet
default_retryable_codes unavailable = true
default_retryable_codes provider_error = true
default_retryable_codes _ = false

abbrev pub max_attempts_bound : ℕ
max_attempts_bound = 10

unfoldable pub never_retry_codes : CodeSet
never_retry_codes validation = true
never_retry_codes auth = true
never_retry_codes forbidden = true
never_retry_codes not_found = true
never_retry_codes conflict = true
never_retry_codes timeout = true
never_retry_codes side_effect_unknown = true
never_retry_codes not_implemented = true
never_retry_codes internal = true
never_retry_codes unknown = true
never_retry_codes unavailable = false
never_retry_codes provider_error = false

-- The factor is `factor_num / factor_den`, with a denominator that is not 0.
pub record RetryPolicy : Type 0 where
  pub max_attempts : ℕ
  pub base_backoff : ℕ
  pub max_backoff : ℕ
  pub factor_num : ℕ
  pub factor_den : ℕ
  pub retryable_codes : CodeSet

-- `__post_init__`: `none` is `ValueError`. The tests for a negative backoff cannot fail on ticks.
unfoldable pub post_init : RetryPolicy → Option RetryPolicy
post_init p =
    if ltb p.max_attempts 1
    then none
    else if ltb max_attempts_bound p.max_attempts
    then none
    else if ltb p.factor_num p.factor_den
    then none
    else some p

code_in : CodeSet → Option ErrorCode → Bool
unfolding never_retry_codes
code_in codes none = false
code_in codes (some c) = if never_retry_codes c then false else codes c

unfoldable pub is_retryable : RetryPolicy → CodeArg → Bool
unfolding code_in code_of_value
is_retryable p (member c) = code_in p.retryable_codes (some c)
is_retryable p (text s) = code_in p.retryable_codes (code_of_value s)

unfoldable pub backoff_for : RetryPolicy → ℕ → ℕ
backoff_for p attempt =
    let k = max attempt 1 - 1 in
    min (p.base_backoff * p.factor_num ^ k / p.factor_den ^ k) p.max_backoff

abbrev timed_out : Option String → String → ToolError
timed_out provider_id message = record {
  message = message;
  provider_id = provider_id;
  code = timeout;
}

-- What an attempt's result leads to: the end, or the error and a world that has slept.
pub data Next {ℓ κ} (W : Type ℓ) (A : Type κ) : Type (ℓ ⊔ κ) where
  stop : Raises A → W → Next W A
  again : ToolError → W → Next W A

-- The arguments of `with_retry`. `call`, `now` and `sleep` act on a world that the caller chooses.
pub record RetryCall {ℓ κ} (W : Type ℓ) (A : Type κ) : Type (ℓ ⊔ κ) where
  pub policy : RetryPolicy
  pub deadline : Option ℕ
  pub provider_id : Option String
  pub call : W → Raises A × W
  pub now : W → ℕ × W
  pub sleep : ℕ → W → W

module _ {ℓ κ} {W : Type ℓ} {A : Type κ} (r : RetryCall W A) where
  open r use {policy, deadline, provider_id, call, now, sleep}

  -- The test before an attempt: `deadline - now() <= 0`. No deadline reads no clock.
  unfoldable pub attempt_refused : Option ℕ → W → Bool × W
  attempt_refused none w = (false, w)
  attempt_refused (some d) w = let (t, w') = now w in (leb d t, w')

  -- The test before a sleep: `remaining <= 0 or delay > remaining`.
  unfoldable pub backoff_refused : Option ℕ → ℕ → W → Bool × W
  backoff_refused none delay w = (false, w)
  backoff_refused (some d) delay w =
      let (t, w') = now w in (if leb d t then true else ltb (d - t) delay, w')

  -- The code behind the loop.
  unfoldable pub after_loop : Option ToolError → Raises A
  after_loop (some e) = tool_error e
  after_loop none = tool_error (record {
    message = "provider execute retry loop terminated without result";
    provider_id = provider_id;
    code = internal;
  })

  unfoldable pub sleep_or_stop : ToolError → ℕ → Bool × W → Next W A
  sleep_or_stop e delay (true, w) =
      stop (tool_error (timed_out provider_id "provider execute retry budget exhausted (backoff)"))
        w
  sleep_or_stop e delay (false, w) = again e (sleep delay w)

  -- The `except ToolError` clause.
  unfoldable pub on_error : ℕ → ToolError → W → Next W A
  on_error attempt e w =
      if is_retryable policy (member e.code)
      then if leb policy.max_attempts attempt
        then stop (tool_error e) w
        else (let delay = backoff_for policy attempt in
            sleep_or_stop e delay (backoff_refused deadline delay w))
      else stop (tool_error e) w

  unfoldable pub on_result : ℕ → Raises A × W → Next W A
  on_result attempt (ok a, w) = stop (ok a) w
  on_result attempt (tool_error e, w) = on_error attempt e w
  on_result attempt (exception m, w) = stop (exception m) w

  unfoldable pub call_unless : ℕ → Bool × W → Next W A
  call_unless attempt (true, w) =
      stop
        (tool_error
          (timed_out provider_id "provider execute retry budget exhausted (deadline reached)"))
        w
  call_unless attempt (false, w) = on_result attempt (call w)

  -- One iteration of the `for`.
  unfoldable pub round : ℕ → W → Next W A
  unfolding call_unless on_result on_error sleep_or_stop backoff_refused attempt_refused
  round attempt w = call_unless attempt (attempt_refused deadline w)

  -- `rounds` iterations are left, and `attempt` is the number of this one.
  unfoldable pub attempts : ℕ → ℕ → Option ToolError → W → Raises A × W
  attempts zero attempt last w = (after_loop last, w)
  attempts (suc rounds) attempt last w = elim (round attempt w) [
    | stop result w' ↦ (result, w')
    | again e w' ↦ attempts rounds (attempt + 1) (some e) w'
  ]

  unfoldable pub with_retry : W → Raises A × W
  unfolding attempts round after_loop
  with_retry w = attempts policy.max_attempts 1 none w
