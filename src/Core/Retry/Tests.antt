-- ===== src/Core/Retry/Tests.antt =====
-- The retry loop on concrete worlds: a clock and the number of calls made.
use era_ai.Prelude.{
  ℕ, ◌+◌, ◌<◌, ◌≡◌, refl, ◌⊎◌, false, Option, none, some, ◌==◌, if◌then◌else◌, arith,
}
use era_ai.Core.Result.{ErrorCode, unavailable, ToolError, Raises, ok, tool_error, member}
use era_ai.Core.Retry.{
  RetryPolicy, default_retryable_codes, is_retryable, backoff_for, RetryCall, with_retry,
}
use era_ai.Core.Retry.Loop.{with_retry_gives_up}
use era_ai.Core.Retry.Origin.{with_retry-origin, FromCall, IsOutOfTime}
use era_ai.Core.Retry.Deadline.{with_retry-deadline}

abbrev thrice : RetryPolicy
thrice = record {
  max_attempts = 3;
  base_backoff = 4;
  max_backoff = 10;
  factor_num = 2;
  factor_den = 1;
  retryable_codes = default_retryable_codes;
}

abbrev failed_with : ErrorCode → ToolError
failed_with c = record { message = "no"; provider_id = none; code = c }

-- A call takes 5 ticks; the first `bad` calls fail with the code.
abbrev calls_that : ErrorCode → ℕ → ℕ × ℕ → Raises ℕ × (ℕ × ℕ)
calls_that c bad (t, n) = (if n == bad then ok n else tool_error (failed_with c), (t + 5, n + 1))

abbrev loop : ErrorCode → ℕ → Option ℕ → RetryCall (ℕ × ℕ) ℕ
loop c bad deadline = record {
  policy = thrice;
  deadline = deadline;
  provider_id = none;
  call = calls_that c bad;
  now = λ w. (w.0, w);
  sleep = λ delay w. (w.0 + delay, w.1);
}

-- Two failures with pauses of 4 and 8 ticks, then a success.
recovers : with_retry (loop unavailable 2 none) (0, 0) ≡ (ok 2, (27, 3))
unfolding with_retry is_retryable backoff_for default_retryable_codes
recovers = refl

-- The third attempt would begin too late.
runs_out : (with_retry (loop unavailable 2 (some 20)) (0, 0)).1 ≡ (14, 2)
unfolding with_retry is_retryable backoff_for default_retryable_codes
runs_out = refl

with_retry_gives_up_example :
    (is_retryable thrice (member unavailable) ≡ false)
    ⊎ ((with_retry (loop unavailable 9 none) (0, 0)).1.1 ≡ 3)
unfolding with_retry is_retryable backoff_for default_retryable_codes
with_retry_gives_up_example =
    with_retry_gives_up (loop unavailable 9 none) (λ w. w.1) (λ w. refl) (λ t w. refl) (λ w. refl)
      (0, 0) {e = failed_with unavailable} refl refl

with_retry-origin_example :
    FromCall
      (loop unavailable 2 (some 20))
      (0, 0)
      (with_retry (loop unavailable 2 (some 20)) (0, 0))
    ⊎ IsOutOfTime
        (loop unavailable 2 (some 20))
        (with_retry (loop unavailable 2 (some 20)) (0, 0)).0
with_retry-origin_example = with_retry-origin (loop unavailable 2 (some 20)) (0, 0) (ground arith)

-- With calls of 5 ticks and the deadline 20, the clock stops before 25.
with_retry-deadline_example : (with_retry (loop unavailable 2 (some 20)) (0, 0)).1.0 < 25
with_retry-deadline_example =
    with_retry-deadline (loop unavailable 2 (some 20)) 20 refl (λ w. w.0 < 25) (λ w h. h)
      (λ w h k. omega (arith, k)) (λ delay w h k. omega (arith, k)) (0, 0) (ground arith)
