-- ===== src/Core/Retry/Keeps.antt =====
-- The loop keeps what the clock, the call and the sleep keep.
use era_ai.Prelude.{
  ℕ, zero, suc, ◌+◌, inl, inr, Bool, true, false, Option, none, some, leb, Bool-cases,
}
use era_ai.Core.Result.{ToolError, Raises, ok, tool_error, exception, member}
use era_ai.Core.Retry.{
  RetryCall, is_retryable, backoff_for, attempt_refused, backoff_refused, sleep_or_stop, on_error,
  on_result, call_unless, round, attempts, with_retry,
}
use era_ai.Core.Retry.Loop.{after, Next-cases}

module _ {ℓ κ ι} {W : Type ℓ} {A : Type κ} (r : RetryCall W A) (Inv : W → Type ι)
    (keeps_now : (w : W) → Inv w → Inv (r.now w).1)
    (keeps_call : (w : W) → Inv w → Inv (r.call w).1)
    (keeps_sleep : (delay : ℕ) (w : W) → Inv w → Inv (r.sleep delay w)) where
  slept-Inv :
      (e : ToolError) (delay : ℕ) (b : Bool × W) → Inv b.1 → Inv (after (sleep_or_stop r e delay b))
  unfolding sleep_or_stop
  slept-Inv e delay (true, w) h = h
  slept-Inv e delay (false, w) h = keeps_sleep delay w h

  backoff-Inv : (o : Option ℕ) (delay : ℕ) (w : W) → Inv w → Inv (backoff_refused r o delay w).1
  unfolding backoff_refused
  backoff-Inv none delay w h = h
  backoff-Inv (some d) delay w h = keeps_now w h

  refused-Inv : (o : Option ℕ) (w : W) → Inv w → Inv (attempt_refused r o w).1
  unfolding attempt_refused
  refused-Inv none w h = h
  refused-Inv (some d) w h = keeps_now w h

  on_error-Inv : (n : ℕ) (e : ToolError) (w : W) → Inv w → Inv (after (on_error r n e w))
  unfolding on_error
  on_error-Inv n e w h = elim (Bool-cases (is_retryable r.policy (member e.code))) [
    | inr p ↦ rw p h
    | inl p ↦ rw p (elim (Bool-cases (leb r.policy.max_attempts n)) [
      | inl q ↦ rw q h
      | inr q ↦
          let delay = backoff_for r.policy n in
          rw q (
            slept-Inv e delay (backoff_refused r r.deadline delay w)
              (backoff-Inv r.deadline delay w h))
    ])
  ]

  on_result-Inv : (n : ℕ) (c : Raises A × W) → Inv c.1 → Inv (after (on_result r n c))
  unfolding on_result
  on_result-Inv n (ok a, w) h = h
  on_result-Inv n (tool_error e, w) h = on_error-Inv n e w h
  on_result-Inv n (exception m, w) h = h

  called-Inv : (n : ℕ) (b : Bool × W) → Inv b.1 → Inv (after (call_unless r n b))
  unfolding call_unless
  called-Inv n (true, w) h = h
  called-Inv n (false, w) h = on_result-Inv n (r.call w) (keeps_call w h)

  round-Inv : (n : ℕ) (w : W) → Inv w → Inv (after (round r n w))
  unfolding round
  round-Inv n w h = called-Inv n (attempt_refused r r.deadline w) (refused-Inv r.deadline w h)

  attempts-Inv :
      (rounds n : ℕ) (last : Option ToolError) (w : W) → Inv w → Inv (attempts r rounds n last w).1
  unfolding attempts
  attempts-Inv zero n last w h = h
  attempts-Inv (suc rounds) n last w h = elim (Next-cases (round r n w)) [
    | inl (a, w', q) ↦ rw (q, attempts) (rw q at (round-Inv n w h))
    | inr (e, w', q) ↦
        rw (q, attempts) (attempts-Inv rounds (n + 1) (some e) w' (rw q at (round-Inv n w h)))
  ]

  pub with_retry-Inv : (w : W) → Inv w → Inv (with_retry r w).1
  unfolding with_retry
  with_retry-Inv w h = attempts-Inv r.policy.max_attempts 1 none w h
