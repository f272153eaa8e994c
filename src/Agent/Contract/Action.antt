-- ===== src/Agent/Contract/Action.antt =====
-- `_validate_action_record`: an action of a contract against the signed plan that it is for.
use lsa.Base.{
  concat, String, Bool, true, false, ◌&&◌, List, [], ◌∷◌, Option, none, some, string_eq, all,
  Result, ok, err, contract_error, type_error, ◌>>=◌, ◌>>◌, raise_if, require, or_raise, for_each,
  if◌then◌else◌,
}
use lsa.Json.{
  Json, Fields, str, list, dict, elems, get, without, as_list, is_text, is_true, is_false, text_is,
  in_set, mem_eq, py_eq, subset, text_in,
}
use lsa.Library.{Library, digest_of}
use lsa.ChangeSets.Checks.{is_nonempty}
use lsa.Agent.Contract.{
  action_keys, operation_keys, support_keys, parameter_keys, precondition_keys, validation_keys,
  impact_keys, allowed_operation_kinds, exact_keys, is_executable, validate_path,
}

abbrev pub record_keys : List String
record_keys =
    "plan_id" ∷ "host_id" ∷ "control_id" ∷ "action_id" ∷ "action_version" ∷ "action_digest"
    ∷ "action_snapshot" ∷ []

abbrev pub compared_keys : List String
compared_keys =
    "plan_id" ∷ "host_id" ∷ "control_id" ∷ "action_id" ∷ "action_version" ∷ "action_digest" ∷ []

-- `v in hay`, which raises where `hay` holds nothing or `v` cannot be looked up in it.
unfoldable pub is_in : Json → Json → Result Bool
is_in (str s) hay = text_in s hay
is_in v (list xs) = ok (mem_eq v (elems xs))
is_in (dict fs) (dict gs) = err type_error
is_in (list xs) (dict gs) = err type_error
is_in v (dict gs) = ok false
is_in v hay = err type_error

-- What the loops over operations and rollback collect.
pub record Paths : Type 0 where
  pub modified : List String
  pub restored : List String

abbrev pub added : Bool → Json → List String → List String
added true (str path) paths = path ∷ paths
added _ _ paths = paths

-- `isinstance(value, list) and value`
abbrev pub stage : String → Fields → Option (List Json)
stage key snapshot = elim (as_list (get key snapshot)) [
  | none ↦ none
  | some xs ↦ if is_nonempty xs then some xs else none
]

abbrev is_list : Json → Bool
is_list (list xs) = true
is_list _ = false

unfoldable pub has_keys : List String → String → Json → Result (Unit {0})
has_keys expected label value = do fs ← exact_keys value expected label; ok tt

unfoldable pub check_support : Json → Result (Unit {0})
check_support item = do
  typed ← exact_keys item support_keys "action supported system"
  require (is_text (get "family" typed) && is_list (get "versions" typed))
      (contract_error "action supported system is invalid")

unfoldable pub check_precondition : Json → Result (Unit {0})
check_precondition item = do
  typed ← exact_keys item precondition_keys "action precondition"
  require (text_is "stop" (get "failure_mode" typed))
      (contract_error "action precondition does not fail closed")

module _ (L : Library) where
  -- `_action_digest`
  unfoldable pub snapshot_digest : Fields → String
  snapshot_digest snapshot =
      digest_of L
        (dict (without ("digest" ∷ "execution_enabled" ∷ "execution_status" ∷ []) snapshot))

  -- The conditions on the snapshot's identity, up to the one that may raise.
  abbrev pub same_identity : Fields → Fields → Bool
  same_identity snapshot fs =
      is_false (get "execution_enabled" snapshot)
      && text_is "catalog_only" (get "execution_status" snapshot)
      && text_is "reviewed" (get "status" snapshot)
      && py_eq (get "action_id" snapshot) (get "action_id" fs)
      && py_eq (get "version" snapshot) (get "action_version" fs)
      && py_eq (get "digest" snapshot) (get "action_digest" fs)

  unfoldable pub check_identity : Fields → Fields → Result (Unit {0})
  unfolding is_in snapshot_digest
  check_identity snapshot fs = do
    let mismatch = contract_error "action snapshot identity or digest is invalid"
    require (same_identity snapshot fs) mismatch
    listed ← is_in (get "control_id" fs) (get "control_ids" snapshot)
    require (listed && text_is (snapshot_digest snapshot) (get "action_digest" fs)) mismatch

  -- One operation of a loop: its keys, kind and path, and what it adds to the paths.
  unfoldable pub check_operation : String → Json → Paths → Result Paths
  check_operation label operation paths = do
    typed ← exact_keys operation operation_keys (concat "action " (concat label " operation"))
    allowed ← in_set (get "kind" typed) allowed_operation_kinds
    require allowed (contract_error "action operation kind is not allow-listed")
    validate_path L (get "path" typed)
    ok (record {
      modified = added (is_true (get "backup_required" typed)) (get "path" typed) paths.modified;
      restored =
          added (text_is "restore_backup" (get "kind" typed)) (get "path" typed) paths.restored;
    })

  unfoldable pub check_operations : String → List Json → Paths → Result Paths
  unfolding check_operation
  check_operations label [] paths = ok paths
  check_operations label (operation ∷ operations) paths = do
    paths ← check_operation label operation paths
    check_operations label operations paths

  -- The stages of the snapshot, from "operations = snapshot.get(…)" on.
  unfoldable pub check_stages : Fields → Result (Unit {0})
  unfolding has_keys check_support check_precondition check_operations
  check_stages snapshot = do
    let missing = contract_error "action snapshot lacks safety stages"
    operations ← or_raise (stage "operations" snapshot) missing
    rollback ← or_raise (stage "rollback" snapshot) missing
    validation ← or_raise (stage "validation" snapshot) missing
    preconditions ← or_raise (stage "preconditions" snapshot) missing
    support ←
        or_raise (stage "supported_systems" snapshot)
          (contract_error "action snapshot lacks supported systems")
    for_each check_support support
    parameters ←
        or_raise (as_list (get "parameters" snapshot))
          (contract_error "action parameters are invalid")
    for_each (has_keys parameter_keys "action parameter") parameters
    for_each check_precondition preconditions
    for_each (has_keys validation_keys "action validation") validation
    has_keys impact_keys "action impact" (get "impact" snapshot)
    modified ← check_operations "operations" operations (record { modified = []; restored = [] })
    paths ← check_operations "rollback" rollback modified
    require (is_nonempty paths.modified && subset paths.modified paths.restored)
        (contract_error "action backup and rollback coverage is incomplete")

  unfoldable pub validate_action_record : Fields → Fields → String → Result (Unit {0})
  unfolding exact_keys check_identity check_stages
  validate_action_record entry signed_plan host_id = do
    fs ← exact_keys (dict entry) record_keys "remediation action record"
    require (all (λ key. py_eq (get key fs) (get key signed_plan)) compared_keys)
        (contract_error "remediation action does not match the signed plan")
    require (text_is host_id (get "host_id" fs))
        (contract_error "remediation action belongs to another host")
    snapshot ← exact_keys (get "action_snapshot" fs) action_keys "action snapshot"
    raise_if (is_executable L snapshot)
        (contract_error "action snapshot contains executable content")
    check_identity snapshot fs
    check_stages snapshot
