-- ===== src/Orchestrator.antt =====
-- orchestrator/orchestrator.py: the run loop and the agent graph.
pub mod Budget
pub mod Run
pub mod Graph
mod Tests
