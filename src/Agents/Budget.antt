-- ===== src/Agents/Budget.antt =====
-- era/agents/budget.py. Times and costs are natural numbers of a unit small enough to be exact.
pub mod Caps
use era_ai.Prelude.{
  ℕ, ◌+◌, ◌-◌, max, Bool, true, false, Option, none, some, List, [], ◌∷◌, ltb, leb, Dict, lookup,
  if◌then◌else◌,
}

pub record AgentBudget : Type 0 where
  pub max_iterations : ℕ
  pub max_tool_calls : ℕ
  pub max_llm_calls : ℕ
  pub timeout : ℕ
  pub cost_cap : ℕ
  pub started_at : ℕ
  pub iterations : ℕ
  pub tool_calls : ℕ
  pub llm_calls : ℕ
  pub tokens_used : ℕ
  pub cost_used : ℕ

-- The texts of the abort reasons, with the numbers that they print.
pub data AbortReason : Type 0 where
  run_timeout_exceeded : ℕ → AbortReason
  max_iterations_exceeded : ℕ → AbortReason
  max_tool_calls_exceeded : ℕ → AbortReason
  max_llm_calls_exceeded : ℕ → AbortReason
  cost_cap_exceeded : ℕ → ℕ → AbortReason

-- `now` is what `time.monotonic()` reads.
unfoldable pub check : ℕ → AgentBudget → Option AbortReason
check now b =
    if ltb b.timeout (now - b.started_at)
    then some (run_timeout_exceeded b.timeout)
    else if ltb b.max_iterations b.iterations
    then some (max_iterations_exceeded b.max_iterations)
    else if ltb b.max_tool_calls b.tool_calls
    then some (max_tool_calls_exceeded b.max_tool_calls)
    else if ltb b.max_llm_calls b.llm_calls
    then some (max_llm_calls_exceeded b.max_llm_calls)
    else if ltb b.cost_cap b.cost_used
    then some (cost_cap_exceeded b.cost_used b.cost_cap)
    else none

unfoldable pub can_tool_call : ℕ → AgentBudget → Option AbortReason
unfolding check
can_tool_call now b =
    if leb b.max_tool_calls b.tool_calls
    then some (max_tool_calls_exceeded b.max_tool_calls)
    else check now b

unfoldable pub can_llm_call : ℕ → AgentBudget → Option AbortReason
unfolding check
can_llm_call now b =
    if leb b.max_llm_calls b.llm_calls
    then some (max_llm_calls_exceeded b.max_llm_calls)
    else check now b

unfoldable pub record_tool_call : AgentBudget → AgentBudget
record_tool_call b = record b { tool_calls = b.tool_calls + 1 }

-- Negative tokens and costs count as none, which `max(0, ...)` does in the source.
unfoldable pub record_llm_call : ℕ → ℕ → AgentBudget → AgentBudget
record_llm_call tokens cost b = record b {
  llm_calls = b.llm_calls + 1;
  tokens_used = b.tokens_used + tokens;
  cost_used = b.cost_used + cost;
}

-- An entry of a snapshot: a number, or anything else.
pub data Entry : Type 0 where
  number : ℕ → Entry
  not_a_number : Entry

unfoldable pub snapshot : AgentBudget → Dict Entry
snapshot b =
    ("iterations", number b.iterations)
    ∷ ("tool_calls", number b.tool_calls)
    ∷ ("llm_calls", number b.llm_calls)
    ∷ ("tokens_used", number b.tokens_used)
    ∷ ("cost_used_usd", number b.cost_used)
    ∷ []

-- `setattr` with the entry if it is a number; else the counter stays.
restored : Option Entry → ℕ → ℕ
restored (some (number n)) old = n
restored (some not_a_number) old = old
restored none old = old

-- An empty snapshot has no entry, so nothing changes.
unfoldable pub restore : Dict Entry → AgentBudget → AgentBudget
unfolding restored lookup
restore s b = record b {
  iterations = restored (lookup "iterations" s) b.iterations;
  tool_calls = restored (lookup "tool_calls" s) b.tool_calls;
  llm_calls = restored (lookup "llm_calls" s) b.llm_calls;
  tokens_used = restored (lookup "tokens_used" s) b.tokens_used;
  cost_used = restored (lookup "cost_used_usd" s) b.cost_used;
}
