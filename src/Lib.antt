-- ===== src/Lib.antt =====
-- The remediation core of the LSA platform (apps/api/lsa): from a finding to a signed, read-only
-- validation on the host.
--
-- An administrator plans the remediation of a finding and another decides on the plan
-- (api/remediations.py). Approved plans are put into a change set, whose payload is signed once nine
-- readiness gates hold (api/change_sets.py, services/change_set_signing.py). Below an authorized change set,
-- jobs are queued for the agents: validation, then a checkpoint, then a verification of the recovery. An agent
-- polls for its jobs and answers with a signed receipt (api/agents.py), which is checked against the frozen
-- contract (services/remediation_execution_contract.py, services/remediation_receipts.py).
--
-- What models what:
--   Base, Json, Library: Python's tests and lists, exceptions as values, JSON documents, and the
--     third-party functions as the fields of a record that the definitions take as a parameter.
--   Schema: the tables of models.py and the schemas of schemas.py; Schema/Database is the database, each
--     table the list of its rows. db.get and a query for one row are the first row that passes the test.
--   Catalog: services/remediation_catalog.py, over a loaded catalog.
--   Plans: the handlers of api/remediations.py; Plans/Requests runs a sequence of them.
--   Signing: services/change_set_signing.py and sign_platform_envelope of platform_command_trust.py.
--   Receipts: validate_recovery_plan of services/remediation_receipts.py.
--   ChangeSets: api/change_sets.py. Creation is create_change_set (Scope its hosts and limits, Envelope
--     its payload; Targets and Strictness are about them); Requests runs a sequence of creations and decisions. Integrity is _assert_envelope_integrity, Checks and Gates are
--     _readiness_gates, Decisions are authorize_change_set and cancel_change_set, Contracts is
--     _validation_contract_for_agent with the contract's document, Jobs are the three queue handlers.
--   Delivery: api/agents.py. Control is _signed_control_response, Validation is
--     next_remediation_validation, Checkpoint is next_remediation_checkpoint and
--     next_recovery_verification, CheckpointReceipt and
--     VerificationReceipt are submit_remediation_checkpoint_receipt and
--     submit_recovery_verification_receipt, Receipt is submit_remediation_validation_receipt; the loop of a poll stands in Delivery
--     itself. Delivery/Lifecycle runs a sequence of requests.
--   Agent/Contract: agent/remediation_contract.py. Contract has its keys and helpers, Action is
--     _validate_action_record, Preview is validate_remediation_contract_preview.
--   Agent/Runtime: agent/lsa_agent.py. Envelope is verify_platform_envelope, Rotation is
--     apply_platform_key_rotation, Control is verify_control_response with what its two callers record, Policies is
--     accept_policy_version, Cycle the exchange of policy and heartbeat in agent_cycle; Replay and Rollback run
--     sequences of answers and of cycles.
--   Agent/DryRun: agent/remediation_contract.py, dry_run_remediation_contract.
--     Checks has the checks on one item, Run the loop over the actions.
--   Agent/Recovery: agent/remediation_recovery.py. Sources is _inspect_source, Compile is compile_recovery_plan, Binding is
--     validate_recovery_plan_binding. Agreement, Acceptance and Passage compare them with the platform's Receipts.
--   Scenario and the modules named Tests: a small fleet, and the theorems applied to it.
--
-- A handler maps the database to the database after its commit, or to what it raises, in which case nothing
-- is written. New identifiers, generated keys and readings of the clock are arguments; times are numbers
-- of microseconds. Numbers are unbounded, as Python's are. All loops go through lists, so no fuel is used.
--
-- Not modelled: enrolment and heartbeats, ingestion, vulnerability data, the
-- rest of the agent's program, and everything that only reads or renders. Response bodies of the administrators' handlers, the detail texts of
-- the gates and of a failed Pydantic validation, and the order of rows that SQL leaves open are left out.
pub mod Base
pub mod Json
pub mod Schema
pub mod Library
pub mod Catalog
pub mod Plans
pub mod Signing
pub mod Receipts
pub mod ChangeSets
pub mod Delivery
pub mod Agent
pub mod Scenario
