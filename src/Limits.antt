-- ===== src/Limits.antt =====
-- era/providers/_rate_limit.py: the rolling-window limiter of the providers. Times are ticks, and the
-- window is at least one; `now` is the reading that the caller passes or the clock shows.
pub mod Uses
mod Account
pub mod Window
pub mod Tests
use era_ai.Prelude.{
  ℕ, zero, suc, ◌+◌, ◌-◌, max, String, Bool, true, false, Option, none, some, List, [], ◌∷◌, ◌++◌,
  length, ltb, leb, ◌==◌, str_eq, Dict, lookup, insert, if◌then◌else◌,
}

pub record ActorRateLimiter : Type 0 where
  pub limit : ℕ
  pub window : ℕ
  pub timestamps : Dict (List ℕ)

-- `__init__`
unfoldable pub new_limiter : ℕ → ℕ → ActorRateLimiter
new_limiter limit window = record { limit = max 1 limit; window = max 1 window; timestamps = [] }

-- `actor_id or "<anonymous>"`
unfoldable pub bucket_key : Option String → String
bucket_key none = "<anonymous>"
bucket_key (some actor) = if str_eq actor "" then "<anonymous>" else actor

bucket_or_empty : Option (List ℕ) → List ℕ
bucket_or_empty none = []
bucket_or_empty (some bucket) = bucket

-- `_timestamps[key]` of a `defaultdict`
unfoldable pub bucket_of : ActorRateLimiter → String → List ℕ
unfolding lookup bucket_or_empty
bucket_of l key = bucket_or_empty (lookup key l.timestamps)

-- `while bucket and bucket[0] <= now - window: bucket.popleft()`
unfoldable pub prune : ℕ → ℕ → List ℕ → List ℕ
prune window now [] = []
prune window now (t ∷ bucket) =
    let rest = prune window now bucket in if leb (t + window) now then rest else t ∷ bucket

unfoldable pub repeat : ℕ → ℕ → List ℕ
repeat t zero = []
repeat t (suc n) = t ∷ repeat t n

unfoldable pub set_bucket : ActorRateLimiter → String → List ℕ → ActorRateLimiter
unfolding insert
set_bucket l key bucket = record l { timestamps = insert key bucket l.timestamps }

unfoldable pub consume : ActorRateLimiter → String → ℕ → ℕ → List ℕ → Bool × ActorRateLimiter
unfolding set_bucket repeat
consume l key count now bucket =
    if ltb l.limit (length bucket + count)
    then (false, set_bucket l key bucket)
    else (true, set_bucket l key (bucket ++ repeat now count))

unfoldable pub allow_many : ActorRateLimiter → Option String → ℕ → ℕ → Bool × ActorRateLimiter
unfolding bucket_key bucket_of prune consume
allow_many l actor count now =
    let key = bucket_key actor in
    if ltb count 1
    then (false, l)
    else consume l key count now (prune l.window now (bucket_of l key))

unfoldable pub allow : ActorRateLimiter → Option String → ℕ → Bool × ActorRateLimiter
unfolding allow_many
allow l actor now = allow_many l actor 1 now

-- `remaining` prunes too.
unfoldable pub remaining : ActorRateLimiter → Option String → ℕ → ℕ × ActorRateLimiter
unfolding bucket_key bucket_of prune set_bucket
remaining l actor now =
    let key = bucket_key actor in
    let bucket = prune l.window now (bucket_of l key) in
    (l.limit - length bucket, set_bucket l key bucket)
