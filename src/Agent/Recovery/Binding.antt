-- ===== src/Agent/Recovery/Binding.antt =====
-- agent/remediation_recovery.py: validate_recovery_plan_binding, the agent's check of a plan that comes back.
use lsa.Base.{
  ℕ, suc, String, Bool, ◌&&◌, not, List, [], ◌∷◌, ◌++◌, ◌==◌, nat_eq, string_eq, if◌then◌else◌, ℤ,
  pos, length, traverse, Result, ok, type_error, runtime_error, attribute_error, ◌>>=◌, or_raise,
  require,
}
use lsa.Json.{
  Json, Fields, end, field, str, int, dict, get, at_key, is_true, is_false, is_null, text_is, py_eq,
  as_list, as_dict,
}
use lsa.Library.{Library, digest_of}
use lsa.Receipts.{agrees, distinct, in_order}
use lsa.Agent.Contract.Preview.{hashable}
use lsa.Agent.Recovery.Compile.{Point, restore_points, index_of, list_at}

abbrev pub indexes_at : Json → List Point → List ℕ
indexes_at path [] = []
indexes_at path ((v, i) ∷ points) =
    let later = indexes_at path points in if py_eq path v then i ∷ later else later

-- `_checkpoint_id` of an identity whose path need not be a text
abbrev pub target_id : Library → Json → Json → ℕ → ℤ → Json → String
target_id L plan_id action_digest i rollback_index path = digest_of L (
    dict (
      field "action_digest" action_digest (
        field "operation_index" (int (pos i)) (
          field "path" path
            (field "plan_id" plan_id (field "rollback_index" (int rollback_index) end))))))

abbrev pub target_fields : Library → Json → Json → ℕ → ℤ → Json → Fields
target_fields L plan_id action_digest i rollback_index path =
    field "checkpoint_id" (str (target_id L plan_id action_digest i rollback_index path)) (
      field "plan_id" plan_id (
        field "action_digest" action_digest (
          field "operation_index" (int (pos i))
            (field "rollback_index" (int rollback_index) (field "path" path end)))))

module _ (L : Library) (entry : Fields) (points : List Point) where
  abbrev pub target_at : ℕ → Json → Json → Result (List Fields)
  target_at i path required =
      if is_true required && not (is_null path)
      then (do
        hashed ← hashable path
        plan_id ← at_key "plan_id" entry
        action_digest ← at_key "action_digest" entry
        ok (target_fields L plan_id action_digest i (index_of (indexes_at path points)) path ∷ []))
      else ok []

  -- What the operations from position `i` on call for.
  unfoldable pub targets_from : ℕ → List Json → Result (List Fields)
  targets_from i [] = ok []
  targets_from i (op ∷ ops) = do
    fs ← or_raise (as_dict op) type_error
    path ← at_key "path" fs
    required ← at_key "backup_required" fs
    here ← target_at i path required
    later ← targets_from (suc i) ops
    ok (here ++ later)

module _ (L : Library) where
  unfoldable pub action_targets : Fields → Result (List Fields)
  action_targets entry = do
    value ← at_key "action_snapshot" entry
    snapshot ← or_raise (as_dict value) type_error
    rollback ← list_at "rollback" snapshot
    points ← restore_points 0 rollback
    operations ← list_at "operations" snapshot
    targets_from L entry points 0 operations

  unfoldable pub all_targets : List Json → Result (List Fields)
  unfolding action_targets
  all_targets [] = ok []
  all_targets (action ∷ actions) = do
    entry ← or_raise (as_dict action) type_error
    here ← action_targets entry
    later ← all_targets actions
    ok (here ++ later)

-- The entry in each place is as expected; `zip` has lists of one length.
unfoldable pub check_entries : List Json → List Fields → Result (Unit {0})
check_entries (entry ∷ entries) (target ∷ targets) = do
  fs ← or_raise (as_dict entry) attribute_error
  agreed ←
      require (agrees fs target) (runtime_error "recovery plan diverges from the reviewed action")
  check_entries entries targets
check_entries _ _ = ok tt

abbrev pub entry_id : Json → Result Json
entry_id entry = do fs ← or_raise (as_dict entry) type_error; at_key "checkpoint_id" fs

abbrev pub is_locked : Fields → Bool
is_locked plan =
    text_is "ready" (get "status" plan)
    && is_false (get "execution_enabled" plan)
    && is_false (get "changes_applied" plan)

unfoldable pub validate_recovery_plan_binding : Library → Fields → Fields → Result (Unit {0})
unfolding all_targets
validate_recovery_plan_binding L contract plan = do
  actions ← list_at "actions" contract
  expected ← all_targets L actions
  let invalid = runtime_error "recovery plan safety lock or coverage is invalid"
  locked ← require (is_locked plan) invalid
  entries ← or_raise (as_list (get "entries" plan)) invalid
  covered ← require (length entries == length expected) invalid
  agreed ← check_entries entries expected
  ids ← traverse entry_id entries
  require (distinct ids && in_order (get "rollback_order" plan) ids)
      (runtime_error "recovery plan rollback ordering is invalid")
