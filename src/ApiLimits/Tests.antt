-- ===== src/ApiLimits/Tests.antt =====
-- The limiter on a concrete run: two checks of an address in ten ticks.
use era_ai.Prelude.{◌+◌, ◌≤◌, ◌≡◌, refl, none, some, lookup, List, [], ◌∷◌, arith}
use era_ai.ApiLimits.{Window, FixedWindowRateLimiter, check, ip_identity}
use era_ai.ApiLimits.Grants.{Check, grants, grants-ip_limit}

abbrev opened : Window
opened = record { started_at = 3; count = 1 }

abbrev limiter : FixedWindowRateLimiter
limiter = record {
  key_limit = 5;
  ip_limit = 2;
  window = 10;
  per_second = 1;
  windows = (ip_identity "10.0.0.1", opened) ∷ [];
  checks = 255;
}

abbrev busy : List Check
busy =
    record { key_hash = some "k"; ip = "10.0.0.1"; at = 4 }
    ∷ record { key_hash = none; ip = "10.0.0.2"; at = 5 }
    ∷ record { key_hash = some "k"; ip = "10.0.0.1"; at = 12 }
    ∷ []

one_taken : grants "10.0.0.1" busy limiter ≡ 1
unfolding grants check
one_taken = refl

grants-ip_limit_example : 1 + grants "10.0.0.1" busy limiter ≤ 2
unfolding lookup ip_identity
grants-ip_limit_example = grants-ip_limit limiter "10.0.0.1" opened busy refl (ground arith) (
  (ground arith, ground arith),
  ((ground arith, ground arith), ((ground arith, ground arith), tt)),
)
