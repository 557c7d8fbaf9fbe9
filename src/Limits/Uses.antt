-- ===== src/Limits/Uses.antt =====
-- Runs of the limiter, and the slots that are taken in them.
use era_ai.Prelude.{
  ℕ, ◌+◌, ◌≤◌, String, ◌≡◌, refl, ◌&&◌, Option, List, [], ◌∷◌, ◌++◌, length, All, ltb, leb, str_eq,
  if◌then◌else◌, arith,
}
use era_ai.Limits.{ActorRateLimiter, bucket_key, repeat, allow_many, remaining}

-- A call of `allow_many`, or of `remaining`.
pub data Use : Type 0 where
  ask : Option String → ℕ → ℕ → Use
  look : Option String → ℕ → Use

abbrev pub time_of : Use → ℕ
time_of (ask actor count now) = now
time_of (look actor now) = now

unfoldable pub step : Use → ActorRateLimiter → ActorRateLimiter
unfolding allow_many remaining
step (ask actor count now) l = (allow_many l actor count now).1
step (look actor now) l = (remaining l actor now).1

-- The slots that a call takes from the bucket, each with its time.
unfoldable pub taken : String → Use → ActorRateLimiter → List ℕ
unfolding allow_many repeat bucket_key
taken key (ask actor count now) l =
    if (allow_many l actor count now).0 && str_eq (bucket_key actor) key
    then repeat now count
    else []
taken key (look actor now) l = []

unfoldable pub run : List Use → ActorRateLimiter → ActorRateLimiter
unfolding step
run [] l = l
run (u ∷ us) l = run us (step u l)

-- All slots that were taken from a bucket in a run.
unfoldable pub grants : String → List Use → ActorRateLimiter → List ℕ
unfolding taken step
grants key [] l = []
grants key (u ∷ us) l = taken key u l ++ grants key us (step u l)

-- The times do not go back, from `t` on.
abbrev pub IsOrdered : ℕ → List Use → Type 0
IsOrdered t [] = Unit
IsOrdered t (u ∷ us) = (t ≤ time_of u) × IsOrdered (time_of u) us

abbrev pub last_time : ℕ → List Use → ℕ
last_time t [] = t
last_time t (u ∷ us) = last_time (time_of u) us

-- How many of the times lie in the window that ends at `now`: after `now - window`, not after `now`.
unfoldable pub in_window : ℕ → ℕ → List ℕ → ℕ
in_window window now [] = 0
in_window window now (t ∷ ts) =
    if ltb now (t + window) && leb t now
    then 1 + in_window window now ts
    else in_window window now ts

pub in_window-le : (window now : ℕ) (ts : List ℕ) → in_window window now ts ≤ length ts
unfolding in_window
in_window-le window now [] = omega arith
in_window-le window now (t ∷ ts) = ground (arith, in_window-le window now ts)

pub in_window_past :
    (window now : ℕ) (ts : List ℕ) → All (λ t. t + window ≤ now) ts → in_window window now ts ≡ 0
unfolding in_window
in_window_past window now [] h = refl
in_window_past window now (t ∷ ts) (p, h) = ground (arith, p, in_window_past window now ts h)

pub in_window-append :
    (window now : ℕ) (ts us : List ℕ)
    → in_window window now (ts ++ us) ≡ in_window window now ts + in_window window now us
unfolding in_window
in_window-append window now [] us = omega arith
in_window-append window now (t ∷ ts) us = ground (arith, in_window-append window now ts us)
