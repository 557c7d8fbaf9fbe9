-- ===== src/Core/Retry/Deadline.antt =====
-- The retry loop against a deadline: no call begins at it or later, and no sleep runs past it.
use era_ai.Prelude.{
  ℕ, zero, suc, ◌+◌, ◌-◌, ◌≤◌, ◌<◌, ◌≡◌, inl, inr, true, Option, none, some, ltb, leb, arith,
  Bool-cases, if◌then◌else◌,
}
use era_ai.Core.Result.{ToolError, Raises, ok, tool_error, exception, member}
use era_ai.Core.Retry.{
  RetryCall, is_retryable, backoff_for, attempt_refused, backoff_refused, sleep_or_stop, on_error,
  on_result, call_unless, round, attempts, with_retry,
}
use era_ai.Core.Retry.Loop.{after, Next-cases}

module _ {ℓ κ ι} {W : Type ℓ} {A : Type κ} (r : RetryCall W A) (d : ℕ) (has : r.deadline ≡ some d)
    (Inv : W → Type ι) (keeps_now : (w : W) → Inv w → Inv (r.now w).1)
    (keeps_call : (w : W) → Inv w → (r.now w).0 < d → Inv (r.call (r.now w).1).1)
    (keeps_sleep : (delay : ℕ) (w : W)
      → Inv w
      → (r.now w).0 + delay ≤ d
      → Inv (r.sleep delay (r.now w).1)) where
  slept-Inv :
      (e : ToolError) (delay : ℕ) (w : W)
      → Inv w
      → Inv (after (sleep_or_stop r e delay (backoff_refused r (some d) delay w)))
  unfolding backoff_refused sleep_or_stop
  slept-Inv e delay w h =
      elim (Bool-cases (if leb d (r.now w).0 then true else ltb (d - (r.now w).0) delay)) [
        | inl p ↦ rw (p, sleep_or_stop) (keeps_now w h)
        | inr p ↦ rw (p, sleep_or_stop) (keeps_sleep delay w h (ground arith))
      ]

  on_error-Inv : (n : ℕ) (e : ToolError) (w : W) → Inv w → Inv (after (on_error r n e w))
  unfolding on_error
  on_error-Inv n e w h = elim (Bool-cases (is_retryable r.policy (member e.code))) [
    | inr p ↦ rw p h
    | inl p ↦ rw p (elim (Bool-cases (leb r.policy.max_attempts n)) [
      | inl q ↦ rw q h
      | inr q ↦ rw q (simp has (slept-Inv e (backoff_for r.policy n) w h))
    ])
  ]

  on_result-Inv : (n : ℕ) (c : Raises A × W) → Inv c.1 → Inv (after (on_result r n c))
  unfolding on_result
  on_result-Inv n (ok a, w) h = h
  on_result-Inv n (tool_error e, w) h = on_error-Inv n e w h
  on_result-Inv n (exception m, w) h = h

  called-Inv :
      (n : ℕ) (w : W) → Inv w → Inv (after (call_unless r n (attempt_refused r (some d) w)))
  unfolding call_unless attempt_refused
  called-Inv n w h = elim (Bool-cases (leb d (r.now w).0)) [
    | inl p ↦ rw (p, call_unless) (keeps_now w h)
    | inr p ↦
        rw (p, call_unless) (on_result-Inv n (r.call (r.now w).1) (keeps_call w h (ground arith)))
  ]

  round-Inv : (n : ℕ) (w : W) → Inv w → Inv (after (round r n w))
  unfolding round
  round-Inv n w h = simp has (called-Inv n w h)

  attempts-Inv :
      (rounds n : ℕ) (last : Option ToolError) (w : W) → Inv w → Inv (attempts r rounds n last w).1
  unfolding attempts
  attempts-Inv zero n last w h = h
  attempts-Inv (suc rounds) n last w h = elim (Next-cases (round r n w)) [
    | inl (a, w', q) ↦ rw (q, attempts) (rw q at (round-Inv n w h))
    | inr (e, w', q) ↦
        rw (q, attempts) (attempts-Inv rounds (n + 1) (some e) w' (rw q at (round-Inv n w h)))
  ]

  -- With the deadline `d`, an invariant of the world that reading the clock keeps, that a call
  -- keeps if the clock read just before it showed less than `d`, and that a sleep keeps if it ends
  -- by `d` on the clock read just before it, holds behind `with_retry`.
  pub with_retry-deadline : (w : W) → Inv w → Inv (with_retry r w).1
  unfolding with_retry
  with_retry-deadline w h = attempts-Inv r.policy.max_attempts 1 none w h
