-- ===== src/Leader/Lease.antt =====
-- Leadership is a lease: while a leader's heartbeat is fresh, nobody else gets it.
use era_ai.Prelude.{
  ℕ, ◌+◌, ◌≤◌, ◌<◌, String, ◌≡◌, ◌≢◌, ◌⊎◌, refl, Bool, true, false, none, some, List, [], ◌∷◌, All,
  eq_iff, if◌then◌else◌, arith,
}
use era_ai.Leader.{
  SchedulerLeader, Table, is_stale, led_by, claim_row, try_claim, heartbeat, release, is_leader,
}

-- What a process does, with the clock's reading.
pub data Event : Type 0 where
  claims beats releases : String → ℕ → Event

abbrev pub process_of : Event → String
process_of (claims p now) = p
process_of (beats p now) = p
process_of (releases p now) = p

abbrev pub time_of : Event → ℕ
time_of (claims p now) = now
time_of (beats p now) = now
time_of (releases p now) = now

-- Whether the process is told that it leads, and the table behind it.
unfoldable pub step : ℕ → Event → Table → Bool × Table
unfolding try_claim heartbeat release
step timeout (claims p now) t = try_claim p timeout now t
step timeout (beats p now) t = heartbeat p now t
step timeout (releases p now) t = (false, release p now t)

unfoldable pub run : ℕ → List Event → Table → Table
unfolding step
run timeout [] t = t
run timeout (e ∷ es) t = run timeout es (step timeout e t).1

-- How many of the events end with a process that is told that it leads.
unfoldable pub told : ℕ → List Event → Table → ℕ
unfolding step
told timeout [] t = 0
told timeout (e ∷ es) t =
    let rest = told timeout es (step timeout e t).1 in
    if (step timeout e t).0 then 1 + rest else rest

-- The event is another process's, and comes while a heartbeat at `beat` is fresh.
abbrev pub IsOutside : String → ℕ → ℕ → Event → Type 0
IsOutside leader beat timeout e = (process_of e ≢ leader) × (time_of e ≤ beat + timeout)

kept :
    (timeout : ℕ) (e : Event) (row : SchedulerLeader)
    → IsOutside row.leader_id row.heartbeat_at timeout e
    → step timeout e (some row) ≡ (false, some row)
unfolding step try_claim claim_row heartbeat release is_stale
kept timeout (claims p now) row (other, fresh) =
    ground (arith, other, fresh, eq_iff row.leader_id p)
kept timeout (beats p now) row (other, fresh) = ground (arith, other, fresh, eq_iff row.leader_id p)
kept timeout (releases p now) row (other, fresh) =
    ground (arith, other, fresh, eq_iff row.leader_id p)

-- As long as the leader's heartbeat is not older than the timeout, whatever the other processes try:
-- none is told that it leads, and the row, so the leader, stays.
pub run-lease :
    (timeout : ℕ) (es : List Event) (row : SchedulerLeader)
    → All (IsOutside row.leader_id row.heartbeat_at timeout) es
    → (run timeout es (some row) ≡ some row) × (told timeout es (some row) ≡ 0)
unfolding run told
run-lease timeout [] row h = (refl, refl)
run-lease timeout (e ∷ es) row (o, h) =
    let (p, q) = run-lease timeout es row h in rw (kept timeout e row o) (p, q)

-- Who is told that it leads is the leader behind the step, and any earlier leader was itself, or had a
-- heartbeat older than the timeout.
pub step-takeover :
    (timeout : ℕ) (e : Event) (t : Table)
    → (step timeout e t).0 ≡ true
    → (is_leader (process_of e) (step timeout e t).1 ≡ true)
      × ((row : SchedulerLeader)
          → t ≡ some row
          → (row.leader_id ≡ process_of e) ⊎ (row.heartbeat_at + timeout < time_of e))
unfolding step try_claim claim_row heartbeat is_leader led_by is_stale
step-takeover timeout (claims p now) none h =
    (ground (arith, eq_iff p p), λ row q. ground (arith, q))
step-takeover timeout (claims p now) (some row) h = (
  ground (arith, h, eq_iff p p, eq_iff row.leader_id p),
  λ r q. ground (arith, h, q, eq_iff row.leader_id p),
)
step-takeover timeout (beats p now) none h = ground (arith, h)
step-takeover timeout (beats p now) (some row) h = (
  ground (arith, h, eq_iff p p, eq_iff row.leader_id p),
  λ r q. ground (arith, h, q, eq_iff row.leader_id p),
)
step-takeover timeout (releases p now) t h = ground (arith, h)
