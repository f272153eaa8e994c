-- ===== src/Receipts/Tests.antt =====
-- The recovery plan of the scenario.
