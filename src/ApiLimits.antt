-- ===== src/ApiLimits.antt =====
-- era/api/rate_limit.py: the fixed-window limiter of the HTTP edge, by source address and key. Times
-- are ticks, `per_second` of them in a second; the lock makes a check one step.
pub mod Windows
pub mod Grants
pub mod Tests
use Prim.Native.String
use era_ai.Prelude.{
  ℕ, zero, suc, ◌+◌, ◌-◌, ◌/◌, max, min, String, Bool, true, false, Option, none, some, List, [],
  ◌∷◌, length, ltb, leb, ◌==◌, ◌%◌, str_eq, Dict, lookup, insert, if◌then◌else◌,
}

pub record Window : Type 0 where
  pub started_at : ℕ
  pub count : ℕ

pub record RateLimitDecision : Type 0 where
  pub allowed : Bool
  pub limit : ℕ
  pub remaining : ℕ
  pub retry_after : ℕ

pub record FixedWindowRateLimiter : Type 0 where
  pub key_limit : ℕ
  pub ip_limit : ℕ
  pub window : ℕ
  pub per_second : ℕ
  pub windows : Dict Window
  pub checks : ℕ

-- `__init__`, which raises ValueError at a limit or a window below one.
unfoldable pub new_limiter : ℕ → ℕ → ℕ → ℕ → Option FixedWindowRateLimiter
new_limiter key_limit ip_limit window per_second =
    if ltb key_limit 1
    then none
    else if ltb ip_limit 1
    then none
    else if leb window 0
    then none
    else some record {
      key_limit = key_limit;
      ip_limit = ip_limit;
      window = window;
      per_second = per_second;
      windows = [];
      checks = 0;
    }

-- `f"{first}{second}"`
joined : String → String → String
joined String.[] second = second
joined (String.◌∷◌ c rest) second = String.◌∷◌ c (joined rest second)

unfoldable pub ip_identity : String → String
unfolding joined
ip_identity ip = joined "ip:" ip

unfoldable pub key_identity : String → String
unfolding joined
key_identity hash = joined "key:" hash

-- An absent or empty hash of a key has no bucket.
unfoldable pub buckets : FixedWindowRateLimiter → Option String → String → List (String × ℕ)
unfolding ip_identity key_identity
buckets l none ip = (ip_identity ip, l.ip_limit) ∷ []
buckets l (some hash) ip =
    (ip_identity ip, l.ip_limit)
    ∷ (if str_eq hash "" then [] else (key_identity hash, l.key_limit) ∷ [])

unfoldable pub current : ℕ → ℕ → Option Window → Window
current window now none = record { started_at = now; count = 0 }
current window now (some w) =
    if leb window (now - w.started_at) then record { started_at = now; count = 0 } else w

-- The window of an identity, a new one behind the end of the old.
unfoldable pub window_of : FixedWindowRateLimiter → ℕ → String → Window
unfolding current lookup
window_of l now identity = current l.window now (lookup identity l.windows)

unfoldable pub set_window : String → Window → FixedWindowRateLimiter → FixedWindowRateLimiter
unfolding insert
set_window identity w l = record l { windows = insert identity w l.windows }

-- `max(1, math.ceil(window_seconds - (now - started_at)))`
unfoldable pub retry_after_of : FixedWindowRateLimiter → ℕ → ℕ → ℕ
retry_after_of l now started_at =
    max 1 ((l.window - (now - started_at) + (l.per_second - 1)) / l.per_second)

-- The buckets in order, up to the first that is exhausted.
unfoldable pub visit :
    ℕ
    → List (String × ℕ)
    → FixedWindowRateLimiter
    → Option RateLimitDecision × FixedWindowRateLimiter
unfolding window_of set_window retry_after_of
visit now [] l = (none, l)
visit now (b ∷ bs) l =
    let w = window_of l now b.0 in
    let opened = set_window b.0 w l in
    let rest = visit now bs opened in
    if leb b.1 w.count
    then (
      some record {
        allowed = false;
        limit = b.1;
        remaining = 0;
        retry_after = retry_after_of l now w.started_at;
      },
      opened,
    )
    else rest

-- `window.count += 1` for the active windows.
unfoldable pub charge : ℕ → List (String × ℕ) → FixedWindowRateLimiter → FixedWindowRateLimiter
unfolding window_of set_window
charge now [] l = l
charge now (b ∷ bs) l =
    let w = window_of l now b.0 in charge now bs (set_window b.0 record w { count = w.count + 1 } l)

keep_active : ℕ → ℕ → Dict Window → Dict Window
keep_active now window [] = []
keep_active now window (entry ∷ rest) =
    let kept = keep_active now window rest in
    if ltb now (entry.1.started_at + window) then entry ∷ kept else kept

unfoldable pub remove_stale : ℕ → FixedWindowRateLimiter → FixedWindowRateLimiter
unfolding keep_active
remove_stale now l = record l { windows = keep_active now l.window l.windows }

-- `min(f(x) for x in xs)` of a list that is not empty.
minimum : (String × ℕ → ℕ) → List (String × ℕ) → ℕ
minimum f [] = 0
minimum f (b ∷ []) = f b
minimum f (b ∷ c ∷ bs) = min (f b) (minimum f (c ∷ bs))

unfoldable pub allowance : FixedWindowRateLimiter → ℕ → List (String × ℕ) → RateLimitDecision
unfolding window_of retry_after_of minimum
allowance l now bs = record {
  allowed = true;
  limit = minimum (λ b. b.1) bs;
  remaining = minimum (λ b. b.1 - (window_of l now b.0).count) bs;
  retry_after = minimum (λ b. retry_after_of l now (window_of l now b.0).started_at) bs;
}

unfoldable pub swept : ℕ → FixedWindowRateLimiter → FixedWindowRateLimiter
unfolding remove_stale
swept now l = if (l.checks % 256) == 0 then remove_stale now l else l

unfoldable pub settle :
    ℕ
    → List (String × ℕ)
    → Option RateLimitDecision × FixedWindowRateLimiter
    → RateLimitDecision × FixedWindowRateLimiter
unfolding charge allowance swept
settle now bs (some refusal, l) = (refusal, l)
settle now bs (none, l) =
    let charged = charge now bs l in (allowance charged now bs, swept now charged)

unfoldable pub check :
    FixedWindowRateLimiter → Option String → String → ℕ → RateLimitDecision × FixedWindowRateLimiter
unfolding buckets visit settle
check l hash ip now =
    let bs = buckets l hash ip in settle now bs (visit now bs record l { checks = l.checks + 1 })
