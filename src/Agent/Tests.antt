-- ===== src/Agent/Tests.antt =====
-- The agent's preview of a contract that it accepts, and of one that the platform builds.
use lsa.Base.{ℕ, Bool, true, false, ◌≡◌, ◌≢◌, refl, List, [], ◌∷◌, ◌++◌, string_eq, ok}
use lsa.Json.{Json, dict, end}
use lsa.Agent.Contract.Preview.{validate_remediation_contract_preview}
use lsa.Agent.Contract.Soundness.{Accepted, preview-Accepted}
use lsa.Schema.ChangeSets.{RemediationChangeSet}
use lsa.ChangeSets.Creation.Envelope.{plan_item, target_item, payload_with}
use lsa.ChangeSets.Creation.{create_change_set, new_change_set}
use lsa.ChangeSets.Contracts.{contract_document, change_set_block, endorsement_of}
use lsa.ChangeSets.CreationTests.{creation_returns}
use lsa.Agent.Contract.Refusal.{created-refused}
use lsa.Agent.Sample.{accepted_contract, pins, entry, signed_target}
use lsa.Scenario.{
  toy, admin, plan, host, agent, group, policy, version, change_key, command_key, idle_fleet, made,
  asked_for, returns, returned, returns-eq-ok,
}

preview_returns :
    returns (validate_remediation_contract_preview toy pins 2000 (dict accepted_contract)) ≡ true
unfolding validate_remediation_contract_preview string_eq lsa.Agent.Contract.Preview.trusted_payload
    native.Mathlib.Decide.ℕ_discrete lsa.Json.py_eq lsa.Agent.Contract.Preview.check_safeguards
    lsa.Agent.Contract.Preview.check_target lsa.Json.mem_eq lsa.Agent.Contract.Preview.check_rollout
    lsa.Agent.Contract.Preview.covered_actions lsa.Json.last_by
    lsa.Agent.Contract.Action.validate_action_record lsa.Agent.Contract.walk_keys lsa.Json.text_in
    lsa.Agent.Contract.validate_path
preview_returns = refl

preview-Accepted_example :
    Accepted toy pins 2000
      (dict accepted_contract)
      (returned end (validate_remediation_contract_preview toy pins 2000 (dict accepted_contract)))
preview-Accepted_example = preview-Accepted toy pins 2000 (dict accepted_contract) (
    returns-eq-ok end (validate_remediation_contract_preview toy pins 2000 (dict accepted_contract))
      preview_returns)

-- The change set that the request of the scenario creates.
abbrev created_records : List Json
created_records = dict (plan_item plan host) ∷ []

abbrev created_targets : List Json
created_targets =
    dict (
      target_item host (record { agent = agent; group = group; policy = policy; version = version })
        "canary")
    ∷ []

abbrev created_set : RemediationChangeSet
created_set =
    new_change_set toy made 2001 admin asked_for
      (payload_with toy "cs1" 2001 admin asked_for created_records created_targets)

created_last :
    (returned idle_fleet
      (create_change_set toy made 2000 2001 admin asked_for idle_fleet)).change_sets
    ≡ idle_fleet.change_sets ++ (created_set ∷ [])
unfolding create_change_set string_eq native.Mathlib.Decide.ℕ_discrete
    lsa.ChangeSets.Creation.check_plans lsa.Base.sort_by lsa.Plans.stored_action
    lsa.Catalog.validate_action_snapshot lsa.Catalog.action_digest
    lsa.ChangeSets.Creation.Scope.scope_of lsa.Base.sorted_set lsa.ChangeSets.latest_policy_version
    lsa.ChangeSets.Creation.Scope.check_limits lsa.ChangeSets.Checks.strictest
    lsa.ChangeSets.Checks.int_limit lsa.ChangeSets.policy_limit
    lsa.ChangeSets.Creation.Envelope.payload_of
created_last = refl

created-refused_example :
    validate_remediation_contract_preview toy pins 2500 (
      dict (
        contract_document
          (change_set_block created_set "signature" change_key)
          (endorsement_of created_set change_key command_key)
          "signature"
          signed_target
          (dict entry ∷ [])))
    ≢ ok end
created-refused_example =
    created-refused toy made 2000 2001 admin asked_for idle_fleet created_set "signature"
      "signature" change_key command_key signed_target (dict entry ∷ []) pins 2500 end
      (returns-eq-ok idle_fleet (create_change_set toy made 2000 2001 admin asked_for idle_fleet)
        creation_returns)
      created_last
