-- ===== src/Agent/Recovery.antt =====
-- The agent's recovery plans (agent/remediation_recovery.py).
pub mod Sources
pub mod Compile
pub mod Acceptance
pub mod Accord
pub mod Agreement
pub mod Binding
pub mod Bound
pub mod Documents
pub mod Passage
pub mod Passing
pub mod Positions
pub mod Tests
