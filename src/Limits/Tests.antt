-- ===== src/Limits/Tests.antt =====
-- The limiter on a concrete run: two slots in ten ticks.
use era_ai.Prelude.{◌≤◌, ◌≡◌, refl, max, none, some, List, [], ◌∷◌, arith}
use era_ai.Limits.{new_limiter, allow_many}
use era_ai.Limits.Uses.{Use, ask, look, grants, in_window}
use era_ai.Limits.Window.{grants-limit}

abbrev busy : List Use
busy =
    ask (some "ann") 1 3
    ∷ ask none 1 4
    ∷ ask (some "ann") 1 5
    ∷ ask (some "ann") 1 6
    ∷ look (some "ann") 12
    ∷ ask (some "ann") 1 13
    ∷ []

-- The call at 6 is refused; at 13 the slot of 3 is free again.
three_taken : grants "ann" busy (new_limiter 2 10) ≡ 3 ∷ 5 ∷ 13 ∷ []
unfolding grants new_limiter allow_many
three_taken = refl

grants-limit_example : in_window (max 1 10) 14 (grants "ann" busy (new_limiter 2 10)) ≤ max 1 2
grants-limit_example =
    grants-limit 2 10 "ann" busy 14
      (
        ground arith,
        (ground arith, (ground arith, (ground arith, (ground arith, (ground arith, tt))))),
      )
      (ground arith)
