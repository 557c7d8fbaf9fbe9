-- ===== src/Agents/Loop.antt =====
-- era/agents/loop.py, `_drive` 148-180 and its end: the loop around the work on one task. The work
-- itself (brain, tool calls, verification, repairs) is a parameter that may call what it likes and
-- leave any table of tasks.
pub mod Halting
use era_ai.Prelude.{
  ℕ, zero, suc, ◌+◌, Bool, true, false, Option, none, some, List, [], ◌∷◌, ◌⊎◌, inl, inr,
  if◌then◌else◌,
}
use era_ai.Agents.Budget.{AgentBudget, AbortReason, check}
use era_ai.Agents.Budget.Caps.{Event, tool_call, llm_call, attempt}
use era_ai.Agents.Tasks.{Task, next_ready, has_pending, mark_running, update}
use era_ai.Agents.Tasks.Stuck.{skip_stuck}

pub data RunStatus : Type 0 where
  run_planning : RunStatus
  run_running : RunStatus
  run_waiting_for_user : RunStatus
  run_completed : RunStatus
  run_failed : RunStatus
  budget_exceeded : RunStatus

-- What the work on a task asks of the budget, with the time.
pub data Call : Type 0 where
  tool : ℕ → Call
  llm : ℕ → ℕ → ℕ → Call

unfoldable pub event_of : Call → Event
event_of (tool now) = tool_call now
event_of (llm now tokens cost) = llm_call now tokens cost

-- The work on a task: what it asked for, the table it leaves, and the status if the run ends there.
pub record Work : Type 0 where
  pub calls : List Call
  pub table : List Task
  pub ends : Option RunStatus

pub record LoopState : Type 0 where
  pub budget : AgentBudget
  pub table : List Task
  pub turns : ℕ

unfoldable pub spend_all : List Call → AgentBudget → AgentBudget
unfolding event_of attempt
spend_all [] b = b
spend_all (c ∷ cs) b = spend_all cs (attempt (event_of c) b).1

-- `clock n` is the reading of the clock at turn `n`.
module _ (clock : ℕ → ℕ) (work : ℕ → Task → List Task → Work) where
  -- Behind the work: the run ends or the loop goes on.
  unfoldable pub after_work : LoopState → Work → LoopState ⊎ RunStatus
  unfolding spend_all
  after_work s w = elim w.ends [
    | none ↦ inl record {
      budget = spend_all w.calls record s.budget { iterations = s.budget.iterations + 1 };
      table = w.table;
      turns = s.turns + 1;
    }
    | some status ↦ inr status
  ]

  unfoldable pub on_ready : LoopState → Option Task → LoopState ⊎ RunStatus
  unfolding after_work has_pending skip_stuck mark_running update
  on_ready s none =
      if has_pending s.table
      then inl record s { table = skip_stuck s.table; turns = s.turns + 1 }
      else inr run_completed
  on_ready s (some t) =
      after_work s (work s.turns (mark_running t) (update t.id mark_running s.table))

  unfoldable pub on_check : LoopState → Option AbortReason → LoopState ⊎ RunStatus
  unfolding on_ready next_ready
  on_check s (some reason) = inr budget_exceeded
  on_check s none = on_ready s (next_ready s.table)

  -- One turn of `while True`.
  unfoldable pub turn : LoopState → LoopState ⊎ RunStatus
  unfolding on_check check
  turn s = on_check s (check (clock s.turns) s.budget)

  -- The fuel bounds the turns.
  unfoldable pub drive : ℕ → LoopState → Option RunStatus
  unfolding turn
  drive zero s = none
  drive (suc fuel) s = elim (turn s) [ inl next ↦ drive fuel next | inr status ↦ some status ]
