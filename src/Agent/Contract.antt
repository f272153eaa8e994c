-- ===== src/Agent/Contract.antt =====
-- agent/remediation_contract.py: the helpers that the preview of a contract is made of. The check of an
-- action and the preview are the modules below.
pub mod Action
pub mod Preview
pub mod Backups
pub mod ActionSoundness
pub mod Coverage
pub mod Trust
pub mod Soundness
pub mod Refusal
use lsa.Base.{
  concat, ℕ, String, Bool, true, false, ◌&&◌, not, List, [], ◌∷◌, ◌++◌, Option, none, some, length,
  ◌==◌, nat_eq, string_eq, contains, any, Result, ok, err, contract_error, ◌>>=◌, ◌>>◌, raise_if,
  require, or_raise, if◌then◌else◌,
}
use lsa.Json.{
  Json, Items, Fields, null, str, list, dict, nil, cons, end, field, keys, get, text_is, as_text,
  is_text, same_set,
}
use lsa.Library.{Library, Bytes, Moment, naive, aware}
use text.Mathlib.Text.{starts_with}

abbrev pub forbidden_keys : List String
forbidden_keys =
    "arg" ∷ "args" ∷ "argv" ∷ "command" ∷ "commands" ∷ "executable" ∷ "script" ∷ "shell" ∷ []

abbrev pub allowed_operation_kinds : List String
allowed_operation_kinds =
    "config_setting" ∷ "restore_backup" ∷ "service_reload" ∷ "sysctl_reload" ∷ "sysctl_setting" ∷ []

abbrev pub action_keys : List String
action_keys =
    "action_id" ∷ "version" ∷ "digest" ∷ "status" ∷ "control_ids" ∷ "title" ∷ "description"
    ∷ "supported_systems" ∷ "risk" ∷ "parameters" ∷ "preconditions" ∷ "operations" ∷ "validation"
    ∷ "rollback" ∷ "impact" ∷ "execution_enabled" ∷ "execution_status" ∷ []

abbrev pub operation_keys : List String
operation_keys =
    "kind" ∷ "resource" ∷ "path" ∷ "format" ∷ "key" ∷ "value_from" ∷ "backup_required" ∷ []

abbrev pub support_keys : List String
support_keys = "family" ∷ "versions" ∷ []

abbrev pub parameter_keys : List String
parameter_keys =
    "name" ∷ "type" ∷ "required" ∷ "default" ∷ "allowed_values" ∷ "minimum" ∷ "maximum"
    ∷ "description" ∷ []

abbrev pub precondition_keys : List String
precondition_keys = "kind" ∷ "resource" ∷ "expected" ∷ "failure_mode" ∷ "description" ∷ []

abbrev pub validation_keys : List String
validation_keys = "kind" ∷ "resource" ∷ "key" ∷ "expected" ∷ []

abbrev pub impact_keys : List String
impact_keys = "service_restart" ∷ "reboot_required" ∷ "availability" ∷ "notes" ∷ []

abbrev pub plan_keys : List String
plan_keys =
    "plan_id" ∷ "host_id" ∷ "report_id" ∷ "control_id" ∷ "action_id" ∷ "action_version"
    ∷ "action_digest" ∷ []

abbrev pub target_keys : List String
target_keys =
    "host_id" ∷ "hostname" ∷ "agent_id" ∷ "group_id" ∷ "group_name" ∷ "policy_id" ∷ "policy_name"
    ∷ "policy_version" ∷ "rollout_phase" ∷ "required_capability" ∷ "capability_attested" ∷ []

-- `_exact_keys`
unfoldable pub exact_keys : Json → List String → String → Result Fields
exact_keys (dict fs) expected label =
    if same_set (keys fs) expected
    then ok fs
    else err (contract_error (concat label " schema is invalid"))
exact_keys _ expected label = err (contract_error (concat label " schema is invalid"))

-- `key.verify` raises where the signature is not one of the message.
abbrev pub is_signed_by : Library → Bytes → Fields → Bytes → Bool
is_signed_by L key payload signature =
    length signature == 64 && L.ed25519_verify key (L.canonical (dict payload)) signature

abbrev pub is_key : Library → Fields → Bytes → Bool
is_key L descriptor raw =
    length raw == 32
    && text_is "Ed25519" (get "algorithm" descriptor)
    && text_is (L.sha256 raw) (get "fingerprint" descriptor)
    && is_text (get "key_id" descriptor)

-- `_walk_keys`
unfoldable mutual
  pub walk_keys : Library → Json → List String
  walk_keys L (dict fs) = walk_fields L fs
  walk_keys L (list xs) = walk_items L xs
  walk_keys L _ = []

  pub walk_items : Library → Items → List String
  walk_items L nil = []
  walk_items L (cons x xs) = walk_keys L x ++ walk_items L xs

  pub walk_fields : Library → Fields → List String
  walk_fields L end = []
  walk_fields L (field key child fs) = L.lower key ∷ walk_keys L child ++ walk_fields L fs

module _ (L : Library) where
  abbrev pub is_executable : Fields → Bool
  is_executable snapshot = any (contains forbidden_keys) (walk_keys L (dict snapshot))

  -- `_decode_public_key`, with the raw key.
  unfoldable pub decode_public_key : Json → String → Result Bytes
  unfolding exact_keys
  decode_public_key descriptor label = do
    let invalid = contract_error (concat label " is invalid")
    fs ← exact_keys descriptor ("key_id" ∷ "algorithm" ∷ "public_key" ∷ "fingerprint" ∷ []) label
    raw ← or_raise (L.b64decode (L.py_str (get "public_key" fs))) invalid
    require (is_key L fs raw) invalid
    ok raw

  -- `_verify_signature`
  unfoldable pub verify_signature : Bytes → Json → Fields → String → Result (Unit {0})
  verify_signature key signature payload label = do
    let invalid = contract_error (concat label " signature is invalid")
    decoded ← or_raise (L.b64decode (L.py_str signature)) invalid
    require (is_signed_by L key payload decoded) invalid

  -- `_parse_time`
  unfoldable pub parse_time : Json → String → Result ℕ
  parse_time value label = do
    text ← or_raise (as_text value) (contract_error (concat label " is invalid"))
    parsed ← or_raise (L.parse_iso text) (contract_error (concat label " is invalid"))
    elim parsed [
      | naive t ↦ err (contract_error (concat label " must include a timezone"))
      | aware t ↦ ok t
    ]

  -- The paths that `_validate_path` lets pass.
  abbrev pub is_reviewed : String → Bool
  is_reviewed path =
      starts_with path "/etc/"
      && not (contains (L.posix_parts path) "..")
      && L.posix_str path == path

  -- `_validate_path`
  unfoldable pub validate_path : Json → Result (Unit {0})
  validate_path null = ok tt
  validate_path (str path) =
      require (is_reviewed path)
        (contract_error "remediation operation path is outside reviewed roots")
  validate_path _ = err (contract_error "remediation operation path is invalid")
