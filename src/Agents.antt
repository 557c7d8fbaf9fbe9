-- ===== src/Agents.antt =====
-- era/agents: the agent loop's budget, its table of tasks, and the loop that they bound.
pub mod Budget
pub mod Tasks
pub mod Loop
pub mod Tests
