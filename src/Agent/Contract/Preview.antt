-- ===== src/Agent/Contract/Preview.antt =====
-- `validate_remediation_contract_preview`: whom a contract comes from, what it covers, and that it only
-- asks for a validation.
use lsa.Base.{
  ℕ, ◌+◌, ◌*◌, String, Bool, true, false, ◌&&◌, List, [], ◌∷◌, Option, none, some, length, ltb, leb,
  ◌==◌, nat_eq, string_eq, contains, all, select, Result, ok, err, contract_error, type_error,
  ◌>>=◌, ◌>>◌, raise_if, require, or_raise, for_each, traverse, on_error, pos,
}
use lsa.Json.{
  Json, Fields, end, field, null, bool, int, str, list, dict, elems, get, as_dict, as_list, as_text,
  is_false, text_is, in_set, mem_eq, py_eq, last_by,
}
use lsa.Library.{same_bytes, Library, Bytes, minutes, digest_of}
use lsa.ChangeSets.Integrity.{safeguards_hold}
use lsa.Agent.Contract.{
  plan_keys, target_keys, exact_keys, decode_public_key, verify_signature, parse_time,
}
use lsa.Agent.Contract.Action.{has_keys, validate_action_record}

abbrev pub root_keys : List String
root_keys =
    "schema_version" ∷ "contract_type" ∷ "mode" ∷ "execution_enabled" ∷ "dispatch_enabled"
    ∷ "change_set" ∷ "platform_endorsement" ∷ "platform_endorsement_signature" ∷ "target"
    ∷ "actions" ∷ []

abbrev pub is_locked : Fields → Bool
is_locked root =
    text_is "1.0" (get "schema_version" root)
    && text_is "remediation-validation" (get "contract_type" root)
    && text_is "validate_only" (get "mode" root)
    && is_false (get "execution_enabled" root)
    && is_false (get "dispatch_enabled" root)

abbrev pub endorsement_keys : List String
endorsement_keys =
    "schema_version" ∷ "kind" ∷ "tenant_id" ∷ "purpose" ∷ "platform_command_key_id"
    ∷ "change_signing_key" ∷ []

abbrev pub change_set_keys : List String
change_set_keys =
    "change_set_id" ∷ "tenant_id" ∷ "digest" ∷ "payload" ∷ "signature" ∷ "signing_key" ∷ []

abbrev pub payload_keys : List String
payload_keys =
    "schema_version" ∷ "change_set_id" ∷ "tenant_id" ∷ "requested_at" ∷ "maintenance_window"
    ∷ "rollout" ∷ "safeguards" ∷ "plans" ∷ "targets" ∷ []

abbrev pub safeguard_keys : List String
safeguard_keys =
    "execution_enabled" ∷ "four_eyes_required" ∷ "post_change_verification_required"
    ∷ "rollback_checkpoint_required" ∷ []

-- What the agent knows of its platform and of itself.
pub record Pins : Type 0 where
  pub platform_key : Bytes
  pub platform_raw : Bytes
  pub platform_key_id : String
  pub agent_id : String
  pub host_id : String

abbrev pub is_bound : Pins → Fields → Bool
is_bound pins endorsement =
    length pins.platform_raw == 32
    && same_bytes pins.platform_key pins.platform_raw
    && text_is "1.0" (get "schema_version" endorsement)
    && text_is "change-signing-key-endorsement" (get "kind" endorsement)
    && text_is "remediation-validation" (get "purpose" endorsement)
    && text_is pins.platform_key_id (get "platform_command_key_id" endorsement)

-- The maintenance window ends later, and has a length of 30 minutes to 8 hours.
abbrev pub is_open_window : ℕ → ℕ → ℕ → Bool
is_open_window now start finish =
    ltb now finish
    && ltb start finish
    && leb (start + minutes 30) finish
    && leb finish (start + minutes (8 * 60))

module _ (L : Library) where
  abbrev pub same_payload : Fields → Fields → Fields → Bool
  same_payload payload change_set endorsement =
      text_is "1.0" (get "schema_version" payload)
      && py_eq (get "change_set_id" payload) (get "change_set_id" change_set)
      && py_eq (get "tenant_id" payload) (get "tenant_id" change_set)
      && py_eq (get "tenant_id" payload) (get "tenant_id" endorsement)
      && text_is (digest_of L (dict payload)) (get "digest" change_set)

  -- From the endorsement to the signed payload.
  unfoldable pub trusted_payload : Pins → Fields → Result Fields
  unfolding exact_keys decode_public_key verify_signature
  trusted_payload pins root = do
    endorsement ←
        exact_keys (get "platform_endorsement" root) endorsement_keys "platform endorsement"
    require (is_bound pins endorsement) (contract_error "platform endorsement binding is invalid")
    verify_signature L pins.platform_key (get "platform_endorsement_signature" root) endorsement
        "platform endorsement"
    change_set ← exact_keys (get "change_set" root) change_set_keys "change set"
    require (py_eq (get "signing_key" change_set) (get "change_signing_key" endorsement))
        (contract_error "change-set signer is not platform endorsed")
    change_key ← decode_public_key L (get "change_signing_key" endorsement) "change-signing key"
    payload ← exact_keys (get "payload" change_set) payload_keys "change-set payload"
    require (same_payload payload change_set endorsement)
        (contract_error "change-set identity or digest is invalid")
    verify_signature L change_key (get "signature" change_set) payload "change set"
    ok payload

  unfoldable pub check_window : ℕ → Fields → Result (Unit {0})
  unfolding exact_keys parse_time
  check_window now payload = do
    window ←
        exact_keys (get "maintenance_window" payload) ("start" ∷ "end" ∷ []) "maintenance window"
    start ← parse_time L (get "start" window) "maintenance window start"
    finish ← parse_time L (get "end" window) "maintenance window end"
    require (is_open_window now start finish)
        (contract_error "maintenance window is expired or invalid")

-- `isinstance(v, int) and not isinstance(v, bool) and low <= v <= high`
abbrev pub in_range : ℕ → ℕ → Json → Bool
in_range low high (int (pos n)) = leb low n && leb n high
in_range low high _ = false

unfoldable pub check_rollout : Fields → Result (Unit {0})
unfolding exact_keys
check_rollout payload = do
  rollout ←
      exact_keys (get "rollout" payload) ("strategy" ∷ "batch_size" ∷ "batch_interval_minutes" ∷ [])
        "change-set rollout"
  require
      (text_is "canary" (get "strategy" rollout)
        && in_range 1 25 (get "batch_size" rollout)
        && in_range 15 1440 (get "batch_interval_minutes" rollout))
      (contract_error "change-set rollout is invalid")

unfoldable pub check_safeguards : Fields → Result (Unit {0})
unfolding exact_keys
check_safeguards payload = do
  let invalid = contract_error "signed change-set safeguards are invalid"
  safeguards ←
      on_error (λ e. invalid)
        (exact_keys (get "safeguards" payload) safeguard_keys "change-set safeguards")
  require (safeguards_hold safeguards) invalid

abbrev pub check_targets : Json → Result (Unit {0})
check_targets (list xs) = for_each (has_keys target_keys "signed remediation target") (elems xs)
check_targets _ = ok tt

-- The target of the contract is one of the signed ones, and is this agent on this host.
unfoldable pub check_target : Pins → Fields → Fields → Result Fields
unfolding has_keys
check_target pins root payload = do
  let unbound = contract_error "remediation target binding is invalid"
  check_targets (get "targets" payload)
  target ← or_raise (as_dict (get "target" root)) unbound
  targets ← or_raise (as_list (get "targets" payload)) unbound
  require
      (mem_eq (get "target" root) targets
        && text_is pins.agent_id (get "agent_id" target)
        && text_is pins.host_id (get "host_id" target))
      unbound
  known ← in_set (get "rollout_phase" target) ("canary" ∷ "deferred" ∷ [])
  require known unbound
  ok target

-- A key of a dict cannot be a list or a dict.
abbrev pub hashable : Json → Result (Unit {0})
hashable (list xs) = err type_error
hashable (dict fs) = err type_error
hashable _ = ok tt

-- `plans_for_host`, as the records that it is built from.
abbrev pub plans_for_host : String → List Fields → List Fields
plans_for_host host_id plans = select (λ item. text_is host_id (get "host_id" item)) plans

abbrev pub is_covered : List String → Fields → Bool
is_covered ids plan = elim (as_text (get "plan_id" plan)) [
  | none ↦ false
  | some id ↦ contains ids id
]

abbrev pub some_actions : List Json → Option (List Json)
some_actions [] = none
some_actions actions = some actions

abbrev change_set_id_of : Fields → Json
change_set_id_of root = elim (as_dict (get "change_set" root)) [
  | none ↦ null
  | some change_set ↦ get "change_set_id" change_set
]

abbrev signer_fingerprint : Fields → Json
signer_fingerprint root = elim (as_dict (get "platform_endorsement" root)) [
  | none ↦ null
  | some endorsement ↦ elim (as_dict (get "change_signing_key" endorsement)) [
    | none ↦ null
    | some descriptor ↦ get "fingerprint" descriptor
  ]
]

module _ (L : Library) where
  -- The loop over the actions, with the plans that are done.
  unfoldable pub check_actions :
      List Fields → String → List String → List Json → Result (List String)
  check_actions plans host_id ids [] = ok ids
  check_actions plans host_id ids (action ∷ actions) = do
    let invalid = contract_error "remediation action record is invalid"
    let uncovered = contract_error "remediation action plan coverage is invalid"
    entry ← or_raise (as_dict action) invalid
    plan_id ← or_raise (as_text (get "plan_id" entry)) invalid
    raise_if (contains ids plan_id) uncovered
    plan ← or_raise (last_by "plan_id" plan_id plans) uncovered
    validate_action_record L entry plan host_id
    check_actions plans host_id (plan_id ∷ ids) actions

  -- The actions of the contract, once each of them is that of a signed plan, and each plan of the host
  -- has one.
  unfoldable pub covered_actions : Pins → Fields → Fields → Result (List Json)
  unfolding exact_keys check_actions
  covered_actions pins root payload = do
    let missing = contract_error "remediation actions are missing"
    signed_plans ← or_raise (as_list (get "plans" payload)) missing
    listed ← or_raise (as_list (get "actions" root)) missing
    actions ← or_raise (some_actions listed) missing
    plans ← traverse (λ item. exact_keys item plan_keys "signed remediation plan") signed_plans
    let own = plans_for_host pins.host_id plans
    for_each (λ plan. hashable (get "plan_id" plan)) own
    ids ← check_actions own pins.host_id [] actions
    require (all (is_covered ids) own)
        (contract_error "remediation action plan coverage is incomplete")
    ok actions

  -- The summary that the agent keeps.
  abbrev pub summary_of : Pins → Fields → Fields → List Json → Fields
  summary_of pins root target actions = field "validated" (bool true) (
      field "mode" (str "validate_only") (
        field "execution_enabled" (bool false) (
          field "dispatch_enabled" (bool false) (
            field "change_set_id" (change_set_id_of root) (
              field "agent_id" (str pins.agent_id) (
                field "host_id" (str pins.host_id) (
                  field "rollout_phase" (get "rollout_phase" target) (
                    field "action_count" (int (pos (length actions))) (
                      field "platform_key_fingerprint" (str (L.sha256 pins.platform_raw)) (
                        field "change_signing_key_fingerprint" (signer_fingerprint root)
                          end))))))))))

  unfoldable pub validate_remediation_contract_preview : Pins → ℕ → Json → Result Fields
  unfolding exact_keys check_window
  validate_remediation_contract_preview pins now contract = do
    root ← exact_keys contract root_keys "remediation contract"
    require (is_locked root) (contract_error "remediation contract safety lock is invalid")
    payload ← trusted_payload L pins root
    check_safeguards payload
    target ← check_target pins root payload
    check_window L now payload
    check_rollout payload
    actions ← covered_actions pins root payload
    ok (summary_of pins root target actions)
