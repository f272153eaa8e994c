-- ===== src/ChangeSets/Tests.antt =====
-- The change set of the scenario: its authorization, its cancellation and its jobs.
use lsa.Base.{
  ℕ, String, Bool, true, false, ◌≡◌, refl, List, [], ◌∷◌, ◌++◌, Option, none, some, find, any,
  string_eq, Result, ok, err, pos, ◌⊎◌,
}
use lsa.Json.{Json, Fields, Items, nil, cons, end, field, bool, int, str, list, dict, null}
use lsa.Schema.ChangeSets.{RemediationChangeSet, is_canceled}
use lsa.Schema.Database.{Db}
use lsa.ChangeSets.Integrity.{assert_envelope_integrity}
use lsa.ChangeSets.Decisions.{is_set_of, authorize_change_set, cancel_change_set}
use lsa.ChangeSets.Authorization.{Authorization, authorize-eq-ok}
use lsa.ChangeSets.Cancellation.{Canceled, cancel-Canceled}
use lsa.ChangeSets.Jobs.{queue_checkpoint_job, is_checkpoint_of, checkpoint_row}
use lsa.Json.{Fields, end}
use lsa.Schema.Fleet.{LinuxAgent}
use lsa.ChangeSets.Contracts.{validation_contract_for_agent}
use lsa.ChangeSets.Trust.{Trusted, contract-Trusted}
use lsa.ChangeSets.Provenance.{Preflight, queue_checkpoint-eq-ok}
use lsa.Receipts.{validate_recovery_plan}
use lsa.Scenario.{
  toy, admin, change_key, fleet, busy_fleet, checked_fleet, authorized_fleet, authorized_set, agent,
  returns, returned, returns-eq-ok,
}

authorization_returns :
    returns (authorize_change_set toy change_key 2000 2001 admin "cs1" fleet) ≡ true
unfolding authorize_change_set string_eq lsa.ChangeSets.Gates.readiness_gates
    assert_envelope_integrity native.Mathlib.Decide.ℕ_discrete lsa.Base.sort_by lsa.Json.last_by
    lsa.Json.py_eq lsa.ChangeSets.latest_policy_version lsa.ChangeSets.Checks.int_limit
    lsa.ChangeSets.policy_limit lsa.ChangeSets.Checks.strictest lsa.Plans.stored_action
    lsa.Catalog.validate_action_snapshot lsa.Catalog.action_digest lsa.Base.option_eq
    lsa.Plans.latest_report_id lsa.ChangeSets.Checks.approvers lsa.Signing.sign_change_set
    lsa.Base.insert_by lsa.Base.text_lt lsa.ChangeSets.Checks.check_plan
    lsa.ChangeSets.Checks.check_target lsa.ChangeSets.Decisions.keyed
    lsa.ChangeSets.Integrity.check_columns lsa.ChangeSets.Integrity.check_identity
    lsa.ChangeSets.Integrity.check_links lsa.ChangeSets.Integrity.check_plan
    lsa.ChangeSets.Integrity.envelope_records lsa.ChangeSets.Integrity.operational_values
    lsa.ChangeSets.latest_version lsa.Signing.active_change_signing_key
authorization_returns = refl

authorize-eq-ok_example :
    Authorization toy change_key 2000 2001 admin "cs1" fleet
      (returned fleet (authorize_change_set toy change_key 2000 2001 admin "cs1" fleet))
authorize-eq-ok_example = authorize-eq-ok toy change_key 2000 2001 admin "cs1" fleet (
    returns-eq-ok fleet (authorize_change_set toy change_key 2000 2001 admin "cs1" fleet)
      authorization_returns)

cancellation_returns : returns (cancel_change_set toy 4000 admin "cs1" "late" busy_fleet) ≡ true
unfolding cancel_change_set string_eq
cancellation_returns = refl

cancel-Canceled_example :
    (cs : RemediationChangeSet) × (find (is_set_of admin "cs1") busy_fleet.change_sets ≡ some cs)
    × (is_canceled cs.status ≡ false)
    × Canceled cs.id busy_fleet
        (returned fleet (cancel_change_set toy 4000 admin "cs1" "late" busy_fleet))
cancel-Canceled_example = cancel-Canceled toy 4000 admin "cs1" "late" busy_fleet (
    returns-eq-ok fleet (cancel_change_set toy 4000 admin "cs1" "late" busy_fleet)
      cancellation_returns)

checkpoint_returns :
    returns (queue_checkpoint_job toy "j2" 4000 admin "cs1" "j1" checked_fleet) ≡ true
unfolding queue_checkpoint_job string_eq validate_recovery_plan lsa.Receipts.expected_entries
    native.Mathlib.Decide.ℕ_discrete lsa.Json.py_eq lsa.Receipts.restores
checkpoint_returns = refl

abbrev checkpointed : Db
checkpointed = returned fleet (queue_checkpoint_job toy "j2" 4000 admin "cs1" "j1" checked_fleet)

queue_checkpoint-eq-ok_example :
    (p : Preflight toy 4000 admin "cs1" "j1" checked_fleet) × ((any
            (is_checkpoint_of p.row.job.id)
            checked_fleet.checkpoint_jobs
          ≡ true)
        × (checkpointed ≡ checked_fleet)
      ⊎ (any (is_checkpoint_of p.row.job.id) checked_fleet.checkpoint_jobs ≡ false)
        × (checkpointed.checkpoint_jobs
            ≡ checked_fleet.checkpoint_jobs
              ++ (checkpoint_row toy "j2" 4000 admin p.cs p.row.job p.plan ∷ [])))
queue_checkpoint-eq-ok_example =
    queue_checkpoint-eq-ok toy "j2" 4000 admin "cs1" "j1" checked_fleet (
      returns-eq-ok fleet (queue_checkpoint_job toy "j2" 4000 admin "cs1" "j1" checked_fleet)
        checkpoint_returns)

abbrev nothing : Fields × LinuxAgent
nothing = (end, agent)

abbrev built : Fields × LinuxAgent
built =
    returned nothing (validation_contract_for_agent toy authorized_fleet authorized_set "t" "a1")

contract_returns :
    returns (validation_contract_for_agent toy authorized_fleet authorized_set "t" "a1") ≡ true
unfolding validation_contract_for_agent string_eq assert_envelope_integrity
    native.Mathlib.Decide.ℕ_discrete lsa.Base.sort_by lsa.Json.last_by lsa.Json.py_eq
    lsa.Signing.verify_signature lsa.Base.option_eq lsa.Plans.stored_action
    lsa.Catalog.validate_action_snapshot lsa.Catalog.action_digest
    lsa.Signing.sign_platform_envelope
contract_returns = refl

contract-Trusted_example : Trusted toy authorized_fleet authorized_set "t" "a1" built.0 built.1
contract-Trusted_example = contract-Trusted toy authorized_fleet authorized_set "t" "a1" (
    returns-eq-ok nothing
      (validation_contract_for_agent toy authorized_fleet authorized_set "t" "a1") contract_returns)
