-- ===== src/Agent.antt =====
-- The agent on the host (agent/).
pub mod Contract
pub mod DryRun
pub mod Runtime
pub mod Recovery
pub mod Sample
pub mod Tests
