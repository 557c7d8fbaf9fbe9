-- ===== src/Agents/Tests.antt =====
-- The budget and the loop on concrete runs.
use era_ai.Prelude.{ℕ, ◌≤◌, ◌≡◌, refl, true, none, some, List, [], ◌∷◌, String}
use era_ai.Agents.Budget.{
  AgentBudget, snapshot, restore, check, can_tool_call, can_llm_call, record_tool_call,
  record_llm_call,
}
use era_ai.Agents.Budget.Caps.{
  Event, iteration, tool_call, llm_call, resumption, fresh_budget, admitted, count, is_iteration,
  is_tool_call, is_llm_call, admitted-Capped,
}
use era_ai.Agents.Tasks.{Task, pending_status, complete, update, next_ready}
use era_ai.Agents.Loop.{RunStatus, budget_exceeded, Work, LoopState, tool, drive}
use era_ai.Agents.Loop.Halting.{drive-halts}

abbrev small_budget : AgentBudget
small_budget = record {
  max_iterations = 1;
  max_tool_calls = 2;
  max_llm_calls = 1;
  timeout = 100;
  cost_cap = 5;
  started_at = 0;
  iterations = 0;
  tool_calls = 0;
  llm_calls = 0;
  tokens_used = 0;
  cost_used = 0;
}

abbrev asked : List Event
asked =
    iteration 1
    ∷ tool_call 2
    ∷ llm_call 3 10 2
    ∷ resumption 50
    ∷ iteration 51
    ∷ llm_call 52 10 2
    ∷ tool_call 53
    ∷ iteration 54
    ∷ tool_call 55
    ∷ []

-- The second iteration passes under a cap of one, but neither its tool call nor a model call does.
asked_run :
    admitted asked (fresh_budget 0 small_budget)
    ≡ iteration 1 ∷ tool_call 2 ∷ llm_call 3 10 2 ∷ resumption 50 ∷ iteration 51 ∷ []
unfolding admitted fresh_budget check can_tool_call can_llm_call record_tool_call restore
    record_llm_call snapshot
asked_run = refl

admitted-Capped_example :
    (count is_tool_call (admitted asked (fresh_budget 0 small_budget)) ≤ 2)
    × (count is_llm_call (admitted asked (fresh_budget 0 small_budget)) ≤ 1)
    × (count is_iteration (admitted asked (fresh_budget 0 small_budget)) ≤ 2)
admitted-Capped_example = admitted-Capped 0 small_budget asked

abbrev new_task : String → List String → Task
new_task id depends_on = record {
  id = id;
  action_type = "fs.read";
  status = pending_status;
  depends_on = depends_on;
  required = true;
  attempt = 0;
  max_attempts = 3;
  observations = [];
  waiting_on = [];
  correction_note = none;
  error = none;
}

-- `b` waits for `a`, and `c` for itself.
abbrev plan : List Task
plan = new_task "b" ("a" ∷ []) ∷ new_task "a" [] ∷ new_task "c" ("c" ∷ []) ∷ []

abbrev start : AgentBudget → LoopState
start budget = record { budget = budget; table = plan; turns = 0 }

-- Every task works at its first attempt.
unfoldable completes : ℕ → Task → List Task → Work
unfolding update complete
completes n t table = record {
  calls = tool n ∷ [];
  table = update t.id complete table;
  ends = none;
}

a_first : next_ready plan ≡ some (new_task "a" [])
unfolding next_ready
a_first = refl

all_done : drive (λ n. n) completes 4 (start small_budget) ≡ some budget_exceeded
unfolding drive completes can_tool_call record_tool_call
all_done = refl

drive-halts_example :
    (fuel : ℕ) × ((status : RunStatus) × (drive (λ n. n) completes fuel (start small_budget)
        ≡ some status))
drive-halts_example = drive-halts (λ n. n) completes (start small_budget)
