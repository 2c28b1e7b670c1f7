-- ===== src/Agent.antt =====
-- agents/agent_factory.py: agent construction and the operations of an autonomous agent.
pub mod Types
pub mod Decode
pub mod Runtime
pub mod Confined
mod Tests
