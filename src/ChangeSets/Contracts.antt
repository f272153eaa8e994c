-- ===== src/ChangeSets/Contracts.antt =====
-- `_validation_contract_for_agent`, with `build_validation_contract`
-- (apps/api/lsa/services/remediation_execution_contract.py): the document that an agent is given.
use lsa.Base.{
  String, false, ◌&&◌, not, List, [], ◌∷◌, Option, none, some, ◌==◌, ◌!=◌, string_eq, option_eq,
  contains, find, sort_by, map, Result, ok, http, catalog_409, on_error, ◌>>=◌, ◌>>◌, require,
  or_raise, pos, if◌then◌else◌,
}
use lsa.Json.{Json, Fields, end, field, items, str, int, bool, list, dict, get, text_is, is_some}
use lsa.Library.{Library}
use lsa.Schema.Action.{Action}
use lsa.Schema.Fleet.{LinuxAgent, PlatformCommandSigningKey, PlatformChangeSigningKey}
use lsa.Schema.Plans.{RemediationPlan}
use lsa.Schema.ChangeSets.{
  RemediationChangeSet, RemediationChangeSetPlan, RemediationChangeSetTarget, is_authorized,
}
use lsa.Schema.Database.{Db, get_plan, get_agent, get_command_key, get_change_key}
use lsa.Signing.{sign_platform_envelope, verify_signature}
use lsa.Plans.{stored_action}
use lsa.ChangeSets.Integrity.{plan_links, assert_envelope_integrity, envelope_records}

-- `change_signing_trust_descriptor`
abbrev pub trust_descriptor : PlatformChangeSigningKey → Fields
trust_descriptor key = field "key_id" (str key.id) (
    field "algorithm" (str "Ed25519")
      (field "public_key" (str key.public_key) (field "fingerprint" (str key.fingerprint) end)))

-- The endorsement that the platform key signs.
abbrev pub endorsement_of :
    RemediationChangeSet → PlatformChangeSigningKey → PlatformCommandSigningKey → Fields
endorsement_of cs change_key command_key = field "schema_version" (str "1.0") (
    field "kind" (str "change-signing-key-endorsement") (
      field "tenant_id" (str cs.tenant_id) (
        field "purpose" (str "remediation-validation") (
          field "platform_command_key_id" (str command_key.id)
            (field "change_signing_key" (dict (trust_descriptor change_key)) end)))))

abbrev pub change_set_block : RemediationChangeSet → String → PlatformChangeSigningKey → Fields
change_set_block cs signature key = field "change_set_id" (str cs.id) (
    field "tenant_id" (str cs.tenant_id) (
      field "digest" (str cs.digest) (
        field "payload" (dict cs.payload) (
          field "signature" (str signature)
            (field "signing_key" (dict (trust_descriptor key)) end)))))

-- `RemediationExecutionContractPreview(…).model_dump(mode="json")`
abbrev pub contract_document : Fields → Fields → String → Fields → List Json → Fields
contract_document change_set endorsement signature target actions =
    field "schema_version" (str "1.0") (
      field "contract_type" (str "remediation-validation") (
        field "mode" (str "validate_only") (
          field "execution_enabled" (bool false) (
            field "dispatch_enabled" (bool false) (
              field "change_set" (dict change_set) (
                field "platform_endorsement" (dict endorsement) (
                  field "platform_endorsement_signature" (str signature) (
                    field "target" (dict target)
                      (field "actions" (list (items actions)) end)))))))))

-- A record of an action, with the plan that it is sorted by.
abbrev pub Entry : Type 0
Entry = record { plan_id : String; entry : Json }

abbrev pub nonempty : List Entry → Option (List Entry)
nonempty [] = none
nonempty entries = some entries

-- The four conditions on the platform key of the agent.
abbrev pub trusted_key :
    String → LinuxAgent → Option PlatformCommandSigningKey → Option PlatformCommandSigningKey
trusted_key tenant_id agent none = none
trusted_key tenant_id agent (some key) =
    if key.tenant_id == tenant_id
      && key.status == "active"
      && not (is_some key.revoked_at)
      && some key.fingerprint == agent.platform_command_key_fingerprint
    then some key
    else none

abbrev pub command_key_of : Db → LinuxAgent → Option PlatformCommandSigningKey
command_key_of db agent = elim agent.platform_command_key_id [
  | none ↦ none
  | some id ↦ get_command_key db id
]

abbrev pub usable_agent : String → Option LinuxAgent → Option LinuxAgent
usable_agent tenant_id none = none
usable_agent tenant_id (some agent) =
    if agent.tenant_id == tenant_id
      && not (is_some agent.revoked_at)
      && contains agent.capabilities "remediation-contract-validation-v1"
    then some agent
    else none

module _ (L : Library) where
  -- The signing key of the change set, if its signature verifies.
  abbrev pub verified_key :
      String
      → RemediationChangeSet
      → String
      → Option PlatformChangeSigningKey
      → Option PlatformChangeSigningKey
  verified_key tenant_id cs signature none = none
  verified_key tenant_id cs signature (some key) =
      if key.tenant_id == tenant_id
        && not (is_some key.revoked_at)
        && verify_signature L key.public_key cs.payload signature
      then some key
      else none

  abbrev action_entry : RemediationPlan → Action → Entry
  action_entry plan action = record {
    plan_id = plan.id;
    entry = dict (
        field "plan_id" (str plan.id) (
          field "host_id" (str plan.host_id) (
            field "control_id" (str plan.control_id) (
              field "action_id" (str action.action_id) (
                field "action_version" (int (pos action.version)) (
                  field "action_digest" (str action.digest)
                    (field "action_snapshot" (dict (L.dump_action action)) end)))))));
  }

  -- The loop over the plans of the agent's host.
  unfoldable pub collect_actions :
      Db → LinuxAgent → List RemediationChangeSetPlan → Result (List Entry)
  collect_actions db agent [] = ok []
  collect_actions db agent (link ∷ links) =
      let rest = collect_actions db agent links in
      elim (get_plan db link.plan_id) [
        | none ↦ rest
        | some plan ↦ if plan.host_id != agent.host_id then rest else (do
          stored ← on_error catalog_409 (stored_action L plan)
          action ← or_raise stored (http 409 "Target plan has no reviewed action")
          entries ← rest
          ok (action_entry plan action ∷ entries))
      ]

  -- The contract as a document, and the agent that it is for.
  unfoldable pub validation_contract_for_agent :
      Db → RemediationChangeSet → String → String → Result (Fields × LinuxAgent)
  unfolding collect_actions
  validation_contract_for_agent db cs tenant_id agent_id = do
    require (is_authorized cs.status)
        (http 409 "Only an authorized change set can produce a validation contract")
    on_error catalog_409 (assert_envelope_integrity L db cs)
    signature ← or_raise cs.signature (http 409 "Authorized change-set signature is missing")
    key_id ← or_raise cs.signing_key_id (http 409 "Authorized change-set signature is missing")
    change_key ←
        or_raise (verified_key tenant_id cs signature (get_change_key db key_id))
          (http 409 "Authorized change-set signature does not verify")
    link ←
        or_raise
          (find
            (λ (l : RemediationChangeSetTarget). l.change_set_id == cs.id && l.agent_id == agent_id)
            db.target_links)
          (http 404 "Agent is not a target of this change set")
    agent ←
        or_raise (usable_agent tenant_id (get_agent db link.agent_id))
          (http 409 "Target agent has not attested validation-only remediation contract support")
    command_key ←
        or_raise (trusted_key tenant_id agent (command_key_of db agent))
          (http 409 "Target agent platform trust is unavailable")
    records ← envelope_records cs "targets"
    target ←
        or_raise
          (find
            (λ item.
              text_is agent.id (get "agent_id" item) && text_is agent.host_id (get "host_id" item))
            records)
          (http 409 "Signed target binding is unavailable")
    entries ← collect_actions db agent (plan_links db cs)
    actions ← or_raise (nonempty entries) (http 409 "Target has no reviewed remediation actions")
    endorsement_signature ←
        sign_platform_envelope L command_key (endorsement_of cs change_key command_key)
    ok (
      contract_document (change_set_block cs signature change_key)
          (endorsement_of cs change_key command_key) endorsement_signature target
          (map (λ (e : Entry). e.entry) (sort_by (λ (e : Entry). e.plan_id) actions)),
      agent,
    )
