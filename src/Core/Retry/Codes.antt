-- ===== src/Core/Retry/Codes.antt =====
-- Which codes a policy retries, and how long a backoff is.
use native.Mathlib.Nat.{
  div-mul-le_self, le-div_iff_mul-le, one-le-pow, pow-suc, pow-zero, mul_assoc, mul-le-mul,
}
use era_ai.Prelude.{
  ℕ, zero, suc, ◌+◌, ◌-◌, ◌*◌, ◌/◌, ◌^◌, ◌≤◌, ◌<◌, min, max, ◌≡◌, ap, ◌⊎◌, true, some, arith,
}
use era_ai.Core.Result.{ErrorCode, unavailable, provider_error, member}
use era_ai.Core.Retry.{RetryPolicy, post_init, is_retryable, backoff_for}

-- Whatever codes a policy is configured with, it retries none but `UNAVAILABLE` and
-- `PROVIDER_ERROR`, and those only if they are configured.
pub is_retryable-transient :
    (p : RetryPolicy) (c : ErrorCode)
    → is_retryable p (member c) ≡ true
    → ((c ≡ unavailable) ⊎ (c ≡ provider_error)) × (p.retryable_codes c ≡ true)
unfolding is_retryable
is_retryable-transient p c h = ground arith

-- Scaling a bound by two factors of which one is at most the other.
scale_le : (x d b den num : ℕ) → x * d ≤ b → den ≤ num → x * (d * den) ≤ b * num
scale_le x d b den num h k = rw (← mul_assoc x d den) (mul-le-mul h k)

quotient_grows :
    (base num den k : ℕ)
    → 0 < den
    → den ≤ num
    → base * num ^ k / den ^ k ≤ base * num ^ suc k / den ^ suc k
quotient_grows base num den k pos h = (le-div_iff_mul-le (one-le-pow (suc k) den pos)).1 (
    rw (pow-suc den k, pow-suc num k, ← mul_assoc base (num ^ k) num)
      (scale_le (base * num ^ k / den ^ k) (den ^ k) (base * num ^ k) den num
        (div-mul-le_self (base * num ^ k) (den ^ k)) h))

backoff-le-next :
    (p : RetryPolicy) (n : ℕ)
    → 0 < p.factor_den
    → p.factor_den ≤ p.factor_num
    → backoff_for p n ≤ backoff_for p (n + 1)
unfolding backoff_for
backoff-le-next p zero pos h = omega arith
backoff-le-next p (suc k) pos h =
    let this : max (suc k) 1 - 1 ≡ k = omega arith in
    let next : max (suc k + 1) 1 - 1 ≡ suc k = omega arith in
    simp (this, next)
      (omega (arith, quotient_grows p.base_backoff p.factor_num p.factor_den k pos h))

backoff-first : (p : RetryPolicy) → backoff_for p 1 ≡ min p.base_backoff p.max_backoff
unfolding backoff_for
backoff-first p =
    let q : p.base_backoff * p.factor_num ^ 0 / p.factor_den ^ 0 ≡ p.base_backoff =
      simp (pow-zero, pow-zero) (omega arith) in
    ap (λ (t : ℕ). min t p.max_backoff) q

-- A policy that passed validation waits at most `max_backoff`, first `base_backoff` where that is
-- less, and before each later attempt at least as long as before the one ahead of it.
pub backoff_grows :
    (p : RetryPolicy) {q : RetryPolicy} (n : ℕ)
    → 0 < p.factor_den
    → post_init p ≡ some q
    → (backoff_for p n ≤ p.max_backoff)
      × (backoff_for p 1 ≡ min p.base_backoff p.max_backoff)
      × (backoff_for p n ≤ backoff_for p (n + 1))
unfolding post_init
backoff_grows p n pos h =
    (unfold backoff_for in omega arith, backoff-first p, backoff-le-next p n pos (ground arith))
