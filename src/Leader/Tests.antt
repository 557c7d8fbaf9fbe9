-- ===== src/Leader/Tests.antt =====
-- Two processes and a timeout of 30 ticks.
use era_ai.Prelude.{String, ◌≡◌, ◌≢◌, refl, false, some, [], ◌∷◌, eq_iff, arith}
use era_ai.Leader.{SchedulerLeader}
use era_ai.Leader.Lease.{claims, releases, step, run, told, run-lease}

abbrev held : SchedulerLeader
held = record { leader_id = "a"; heartbeat_at = 100; version = 1 }

-- A released row is not free at once: it has a fresh heartbeat and no leader.
waits_after_release :
    (step 30 (claims "b" 120) (run 30 (releases "a" 110 ∷ []) (some held))).0 ≡ false
unfolding step run
waits_after_release = refl

is_other : ◌≢◌ {A = String} "b" "a"
is_other h = ground (arith, h, eq_iff "b" "a")

run-lease_example :
    (run 30 (claims "b" 120 ∷ releases "b" 125 ∷ claims "b" 130 ∷ []) (some held) ≡ some held)
    × (told 30 (claims "b" 120 ∷ releases "b" 125 ∷ claims "b" 130 ∷ []) (some held) ≡ 0)
run-lease_example =
    run-lease 30 (claims "b" 120 ∷ releases "b" 125 ∷ claims "b" 130 ∷ []) held
      ((is_other, ground arith), ((is_other, ground arith), ((is_other, ground arith), tt)))
