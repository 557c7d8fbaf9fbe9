-- ===== src/Core/Retry/Loop.antt =====
-- What `with_retry` promises, for every callable, clock and sleep.
use era_ai.Prelude.{
  ℕ, zero, suc, ◌+◌, ◌≤◌, ◌<◌, ◌≡◌, refl, ◌⊎◌, inl, inr, true, false, Option, none, some, arith,
}
use era_ai.Core.Result.{ToolError, Raises, tool_error, member}
use era_ai.Core.Retry.{RetryCall, is_retryable, Next, stop, again, round, attempts, with_retry}

-- The world behind an iteration.
abbrev pub after {ℓ κ} : {W : Type ℓ} {A : Type κ} → Next W A → W
after (stop r w) = w
after (again e w) = w

pub Next-cases {ℓ κ} :
    {W : Type ℓ} {A : Type κ} (s : Next W A)
    → ((a : Raises A) × (w : W) × (s ≡ stop a w)) ⊎ ((e : ToolError) × (w : W) × (s ≡ again e w))
Next-cases (stop a w) = inl (a, w, refl)
Next-cases (again e w) = inr (e, w, refl)

-- `calls` counts the calls that a world has seen.
module _ {ℓ κ} {W : Type ℓ} {A : Type κ} (r : RetryCall W A) (calls : W → ℕ)
    (now_makes_none : (w : W) → calls (r.now w).1 ≡ calls w)
    (sleep_makes_none : (t : ℕ) (w : W) → calls (r.sleep t w) ≡ calls w)
    (call_makes_one : (w : W) → calls (r.call w).1 ≡ calls w + 1) where
  calls-round : (n : ℕ) (w : W) → calls (after (round r n w)) ≤ calls w + 1
  unfolding round
  calls-round n w = grind (arith, now_makes_none, sleep_makes_none, call_makes_one)

  calls-attempts :
      (rounds n : ℕ) (last : Option ToolError) (w : W)
      → calls (attempts r rounds n last w).1 ≤ calls w + rounds
  unfolding attempts
  calls-attempts zero n last w = omega arith
  calls-attempts (suc rounds) n last w = grind (
    arith,
    calls-round n w,
    λ (e : ToolError) (w' : W). calls-attempts rounds (n + 1) (some e) w',
  )

  -- `with_retry` makes at most `max_attempts` calls.
  pub with_retry-calls-le : (w : W) → calls (with_retry r w).1 ≤ calls w + r.policy.max_attempts
  unfolding with_retry
  with_retry-calls-le w = calls-attempts r.policy.max_attempts 1 none w

  calls-round-again :
      (n : ℕ) (w : W) {e : ToolError} {w' : W}
      → round r n w ≡ again e w'
      → (calls w' ≡ calls w + 1)
        × (is_retryable r.policy (member e.code) ≡ true)
        × (n < r.policy.max_attempts)
  unfolding round
  calls-round-again n w h = grind (arith, now_makes_none, sleep_makes_none, call_makes_one)

  calls-round-stop :
      (n : ℕ) (w : W) {e : ToolError} {w' : W}
      → r.deadline ≡ none
      → round r n w ≡ stop (tool_error e) w'
      → (calls w' ≡ calls w + 1)
        × ((is_retryable r.policy (member e.code) ≡ false) ⊎ (r.policy.max_attempts ≤ n))
  unfolding round
  calls-round-stop n w d h = grind (arith, now_makes_none, sleep_makes_none, call_makes_one)

  attempts_give_up :
      (rounds n : ℕ) (last : Option ToolError) (w : W) {e : ToolError}
      → r.deadline ≡ none
      → rounds + n ≡ r.policy.max_attempts + 1
      → (attempts r rounds n last w).0 ≡ tool_error e
      → (is_retryable r.policy (member e.code) ≡ false)
        ⊎ (calls (attempts r rounds n last w).1 ≡ calls w + rounds)
  unfolding attempts
  attempts_give_up zero n last w d k h = inr (omega arith)
  attempts_give_up (suc rounds) n last w {e} d k h = elim (Next-cases (round r n w)) [
    | inl (x, w', q) ↦ ground (arith, calls-round-stop n w {e = e} {w' = w'} d, q)
    | inr (x, w', q) ↦
        ground
          (arith, q, calls-round-again n w q, attempts_give_up rounds (n + 1) (some x) w' {e = e} d)
  ]

  -- With no deadline, `with_retry` raises only an error that is not retryable, or one behind which
  -- all `max_attempts` calls were made.
  pub with_retry_gives_up :
      (w : W) {e : ToolError}
      → r.deadline ≡ none
      → (with_retry r w).0 ≡ tool_error e
      → (is_retryable r.policy (member e.code) ≡ false)
        ⊎ (calls (with_retry r w).1 ≡ calls w + r.policy.max_attempts)
  unfolding with_retry
  with_retry_gives_up w d h = attempts_give_up r.policy.max_attempts 1 none w d refl h
