-- ===== src/Agent/DryRun.antt =====
-- The agent's dry run of a contract (agent/remediation_contract.py).
pub mod Checks
pub mod Run
pub mod Readiness
pub mod Verdict
pub mod Tests
