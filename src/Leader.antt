-- ===== src/Leader.antt =====
-- era/services/scheduler_leader.py: the election of the one process that runs the scheduler. The
-- database's row is the state, a method of a process is one transaction, and timestamps are ticks that
-- are never malformed.
pub mod Lease
pub mod Tests
use era_ai.Prelude.{
  ℕ, ◌+◌, String, Bool, true, false, Option, none, some, ltb, str_eq, if◌then◌else◌,
}

pub record SchedulerLeader : Type 0 where
  pub leader_id : String
  pub heartbeat_at : ℕ
  pub version : ℕ

-- The singleton row, once it is inserted.
abbrev pub Table : Type 0
Table = Option SchedulerLeader

-- `_is_stale`: `now - heartbeat_at > timeout`
unfoldable pub is_stale : ℕ → ℕ → ℕ → Bool
is_stale timeout now heartbeat_at = ltb (heartbeat_at + timeout) now

-- The row as the process that leads writes it.
unfoldable pub led_by : String → ℕ → SchedulerLeader → SchedulerLeader
led_by process now row = record row {
  leader_id = process;
  heartbeat_at = now;
  version = row.version + 1;
}

unfoldable pub claim_row : String → ℕ → ℕ → SchedulerLeader → Bool × Table
unfolding led_by is_stale
claim_row process timeout now row =
    if str_eq row.leader_id process
    then (true, some (led_by process now row))
    else if is_stale timeout now row.heartbeat_at
    then (true, some (led_by process now row))
    else (false, some row)

unfoldable pub try_claim : String → ℕ → ℕ → Table → Bool × Table
unfolding claim_row
try_claim process timeout now none =
    (true, some (record { leader_id = process; heartbeat_at = now; version = 1 }))
try_claim process timeout now (some row) = claim_row process timeout now row

unfoldable pub heartbeat : String → ℕ → Table → Bool × Table
unfolding led_by
heartbeat process now none = (false, none)
heartbeat process now (some row) =
    if str_eq row.leader_id process
    then (true, some (led_by process now row))
    else (false, some row)

-- Leadership is cleared with a fresh heartbeat.
unfoldable pub release : String → ℕ → Table → Table
unfolding led_by
release process now none = none
release process now (some row) =
    if str_eq row.leader_id process then some (led_by "" now row) else some row

unfoldable pub is_leader : String → Table → Bool
is_leader process none = false
is_leader process (some row) = str_eq row.leader_id process
