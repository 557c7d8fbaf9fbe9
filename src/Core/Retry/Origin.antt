-- ===== src/Core/Retry/Origin.antt =====
-- Where the outcome of `with_retry` comes from: the calls that it makes, told without its loop.
use era_ai.Prelude.{
  ℕ, zero, suc, ◌+◌, ◌-◌, is_some, ◌≤◌, ◌<◌, ◌≡◌, refl, sym, ap, subst, ◌⊎◌, inl, inr, Bool, true,
  false, Option, none, some, ltb, leb, Bool-cases, if◌then◌else◌, arith,
}
use era_ai.Core.Result.{ErrorCode, timeout, ToolError, Raises, ok, tool_error, exception, member}
use era_ai.Core.Retry.{
  RetryCall, is_retryable, backoff_for, Next, stop, again, on_result, on_error, backoff_refused,
  sleep_or_stop, call_unless, attempt_refused, round, attempts, with_retry,
}
use era_ai.Core.Retry.Loop.{Next-cases}

abbrev pub code_of {κ} : {A : Type κ} → Raises A → Option ErrorCode
code_of (tool_error e) = some e.code
code_of _ = none

-- Room for a pause of so many ticks: without a deadline, the world is as it was; with one, the clock is
-- read once, shows less than the deadline, and the pause ends by it.
abbrev pub HasRoom {ℓ κ} : {W : Type ℓ} {A : Type κ} → RetryCall W A → Option ℕ → ℕ → W → W → Type ℓ
HasRoom r none pause w v = v ≡ w
HasRoom r (some d) pause w v = (v ≡ (r.now w).1) × ((r.now w).0 < d) × ((r.now w).0 + pause ≤ d)

-- `with_retry`, begun in the world `start`, makes its n-th call in a world: the first one where there is
-- room; the next one behind a call that raised a retryable error, while attempts are left, and a sleep of
-- the backoff, where there is room for each.
pub data CallAt {ℓ κ} {W : Type ℓ} {A : Type κ} (r : RetryCall W A) (start : W)
    : ℕ → W → Type (ℓ ⊔ κ) where
  first : {w : W} → HasRoom r r.deadline 0 start w → CallAt r start 1 w
  next :
      (n : ℕ) (u v : W) (e : ToolError) {w : W}
      → CallAt r start n u
      → (r.call u).0 ≡ tool_error e
      → is_retryable r.policy (member e.code) ≡ true
      → n < r.policy.max_attempts
      → HasRoom r r.deadline (backoff_for r.policy n) (r.call u).1 v
      → HasRoom r r.deadline 0 (r.sleep (backoff_for r.policy n) v) w
      → CallAt r start (n + 1) w

module _ {ℓ κ} {W : Type ℓ} {A : Type κ} (r : RetryCall W A) where
  -- Outcome and last world are those of a call that was made.
  abbrev pub FromCall : W → Raises A × W → Type (ℓ ⊔ κ)
  FromCall start c =
      (n : ℕ) × (w : W) × CallAt r start n w × (n ≤ r.policy.max_attempts) × (r.call w ≡ c)

  -- The `TIMEOUT` of an exhausted deadline.
  abbrev pub IsOutOfTime : Raises A → Type 0
  IsOutOfTime result = (is_some r.deadline ≡ true) × (code_of result ≡ some timeout)

  -- Where the n-th round begins
  abbrev RoundAt : W → ℕ → W → Type (ℓ ⊔ κ)
  RoundAt start n w = (v : W) → HasRoom r r.deadline 0 w v → CallAt r start n v

  room_lem :
      (o : Option ℕ) (w : W)
      → ((attempt_refused r o w).0 ≡ true) × (is_some o ≡ true)
        ⊎ ((attempt_refused r o w).0 ≡ false) × HasRoom r o 0 w (attempt_refused r o w).1
  unfolding attempt_refused
  room_lem none w = inr (refl, refl)
  room_lem (some d) w = elim (Bool-cases (leb d (r.now w).0)) [
    | inl q ↦ inl (q, refl)
    | inr q ↦ inr (q, (refl, ground (arith, q), ground (arith, q)))
  ]

  pause_lem :
      (o : Option ℕ) (pause : ℕ) (w : W)
      → ((backoff_refused r o pause w).0 ≡ true) × (is_some o ≡ true)
        ⊎ ((backoff_refused r o pause w).0 ≡ false)
          × HasRoom r o pause w (backoff_refused r o pause w).1
  unfolding backoff_refused
  pause_lem none pause w = inr (refl, refl)
  pause_lem (some d) pause w =
      elim (Bool-cases (if leb d (r.now w).0 then true else ltb (d - (r.now w).0) pause)) [
        | inl q ↦ inl (q, refl)
        | inr q ↦ inr (q, (refl, ground (arith, q), ground (arith, q)))
      ]

  -- What a round that is the n-th leads to
  abbrev Tells : W → ℕ → Next W A → Type (ℓ ⊔ κ)
  Tells start n (stop a w) = FromCall start (a, w) ⊎ IsOutOfTime a
  Tells start n (again e w) = (n < r.policy.max_attempts) × RoundAt start (n + 1) w

  slept-Tells :
      (start : W) (n : ℕ) (u w : W) (e : ToolError) (b : Bool × W)
      → CallAt r start n u
      → r.call u ≡ (tool_error e, w)
      → is_retryable r.policy (member e.code) ≡ true
      → n < r.policy.max_attempts
      → (b.0 ≡ true) × (is_some r.deadline ≡ true)
        ⊎ (b.0 ≡ false) × HasRoom r r.deadline (backoff_for r.policy n) w b.1
      → Tells start n (sleep_or_stop r e (backoff_for r.policy n) b)
  unfolding sleep_or_stop
  slept-Tells start n u w e (true, v) at c retry l (inl (q, d)) = inr (d, refl)
  slept-Tells start n u w e (true, v) at c retry l (inr (q, room)) = ground (arith, q)
  slept-Tells start n u w e (false, v) at c retry l (inl (q, d)) = ground (arith, q)
  slept-Tells start n u w e (false, v) at c retry l (inr (q, room)) = (
    l,
    λ x more.
        next n u v e at (ap (λ p. p.0) c) retry l
          (subst (λ y. HasRoom r r.deadline (backoff_for r.policy n) y v) (sym (ap (λ p. p.1) c))
            room)
          more,
  )

  error-Tells :
      (start : W) (n : ℕ) (u w : W) (e : ToolError)
      → CallAt r start n u
      → n ≤ r.policy.max_attempts
      → r.call u ≡ (tool_error e, w)
      → Tells start n (on_error r n e w)
  unfolding on_error
  error-Tells start n u w e at l c = elim (Bool-cases (is_retryable r.policy (member e.code))) [
    | inr p ↦ rw p (inl (n, u, at, l, c))
    | inl p ↦ rw p (elim (Bool-cases (leb r.policy.max_attempts n)) [
      | inl q ↦ rw q (inl (n, u, at, l, c))
      | inr q ↦ rw q (
          slept-Tells start n u w e (backoff_refused r r.deadline (backoff_for r.policy n) w) at c p
            (ground (arith, q)) (pause_lem r.deadline (backoff_for r.policy n) w))
    ])
  ]

  result-Tells :
      (start : W) (n : ℕ) (u : W) (c : Raises A × W)
      → CallAt r start n u
      → n ≤ r.policy.max_attempts
      → r.call u ≡ c
      → Tells start n (on_result r n c)
  unfolding on_result
  result-Tells start n u (ok a, w) at l c = inl (n, u, at, l, c)
  result-Tells start n u (tool_error e, w) at l c = error-Tells start n u w e at l c
  result-Tells start n u (exception m, w) at l c = inl (n, u, at, l, c)

  called-Tells :
      (start : W) (n : ℕ) (w : W) (b : Bool × W)
      → RoundAt start n w
      → n ≤ r.policy.max_attempts
      → (b.0 ≡ true) × (is_some r.deadline ≡ true) ⊎ (b.0 ≡ false) × HasRoom r r.deadline 0 w b.1
      → Tells start n (call_unless r n b)
  unfolding call_unless
  called-Tells start n w (true, v) h l (inl (q, d)) = inr (d, refl)
  called-Tells start n w (true, v) h l (inr (q, room)) = ground (arith, q)
  called-Tells start n w (false, v) h l (inl (q, d)) = ground (arith, q)
  called-Tells start n w (false, v) h l (inr (q, room)) =
      result-Tells start n v (r.call v) (h v room) l refl

  round-Tells :
      (start : W) (n : ℕ) (w : W)
      → RoundAt start n w
      → n ≤ r.policy.max_attempts
      → Tells start n (round r n w)
  unfolding round
  round-Tells start n w h l =
      called-Tells start n w (attempt_refused r r.deadline w) h l (room_lem r.deadline w)

  attempts-origin :
      (start : W) (rounds n : ℕ) (last : Option ToolError) (w : W)
      → RoundAt start n w
      → 1 ≤ rounds
      → rounds + n ≡ r.policy.max_attempts + 1
      → FromCall start (attempts r rounds n last w) ⊎ IsOutOfTime (attempts r rounds n last w).0
  unfolding attempts
  attempts-origin start zero n last w h p k = absurd (omega arith)
  attempts-origin start (suc rounds) n last w h p k = elim (Next-cases (round r n w)) [
    | inl (x, w', q) ↦ rw (q, attempts) (rw q at (round-Tells start n w h (omega (arith, k))))
    | inr (e, w', q) ↦
        let (l, later) : Tells start n (again e w') =
          rw q at (round-Tells start n w h (omega (arith, k))) in
        rw (q, attempts)
          (attempts-origin start rounds (n + 1) (some e) w' later (omega (arith, k, l))
            (omega (arith, k)))
  ]

  -- With `1 ≤ max_attempts`, the outcome and the last world of `with_retry` are those of one of the calls
  -- that it makes, or, where a deadline is set, it raises a `TIMEOUT`. A call that it makes is the first,
  -- or follows one that raised a retryable error, while attempts were left, and a sleep of the backoff;
  -- with a deadline, the clock shows less than it before each call, and the sleep ends by it.
  pub with_retry-origin :
      (w : W)
      → 1 ≤ r.policy.max_attempts
      → FromCall w (with_retry r w) ⊎ IsOutOfTime (with_retry r w).0
  unfolding with_retry
  with_retry-origin w h =
      attempts-origin w r.policy.max_attempts 1 none w (λ v room. first room) h refl
