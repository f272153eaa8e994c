-- ===== src/Agent/Recovery/Compile.antt =====
-- agent/remediation_recovery.py: compile_recovery_plan, the recovery plan of a contract.
use lsa.Base.{
  concat, ℕ, suc, String, Bool, true, false, ◌&&◌, not, List, [], ◌∷◌, ◌++◌, ◌==◌, string_eq,
  nat_eq, all, map, select, length, ltb, if◌then◌else◌, ℤ, pos, negsuc, Result, ok, type_error,
  ◌>>=◌, ◌>>◌, or_raise,
}
use lsa.Json.{
  Json, Fields, end, field, str, int, bool, list, dict, items, at_key, is_true, is_null, text_is,
  as_list, as_dict, as_text,
}
use lsa.Library.{Library, digest_of}
use lsa.Agent.Contract.Preview.{hashable}
use mathlib.Core.List.{reverse}
use lsa.Agent.Recovery.Sources.{Disk, Source, inspect_source, source_fields, blocked}

pub record Entry : Type 0 where
  pub plan_id : Json
  pub action_digest : Json
  pub operation_index : ℕ
  pub rollback_index : ℤ
  pub path : String
  pub source : Source

-- `_checkpoint_id`, of an entry
abbrev pub checkpoint_id : Library → Entry → String
checkpoint_id L e = digest_of L (
    dict (
      field "action_digest" e.action_digest (
        field "operation_index" (int (pos e.operation_index)) (
          field "path" (str e.path)
            (field "plan_id" e.plan_id (field "rollback_index" (int e.rollback_index) end))))))

abbrev pub entry_fields : Library → Entry → Fields
entry_fields L e = field "checkpoint_id" (str (checkpoint_id L e)) (
    field "plan_id" e.plan_id (
      field "action_digest" e.action_digest (
        field "operation_index" (int (pos e.operation_index)) (
          field "rollback_index" (int e.rollback_index) (
            field "path" (str e.path)
              (field "backup_created" (bool false) (source_fields e.path e.source)))))))

-- The restore operations with their paths: `rollback_by_path`, in the order of the positions.
abbrev pub Point : Type 0
Point = Json × ℕ

abbrev pub point_at : ℕ → Fields → Json → Result (List Point)
point_at i fs kind =
    if text_is "restore_backup" kind
    then (do
      path ← at_key "path" fs
      if is_null path then ok [] else hashable path >> ok ((path, i) ∷ []))
    else ok []

unfoldable pub restore_points : ℕ → List Json → Result (List Point)
restore_points i [] = ok []
restore_points i (op ∷ ops) = do
  fs ← or_raise (as_dict op) type_error
  kind ← at_key "kind" fs
  here ← point_at i fs kind
  later ← restore_points (suc i) ops
  ok (here ++ later)

abbrev pub indexes_of : String → List Point → List ℕ
indexes_of path [] = []
indexes_of path ((v, i) ∷ points) =
    let later = indexes_of path points in if text_is path v then i ∷ later else later

abbrev pub index_of : List ℕ → ℤ
index_of (i ∷ []) = pos i
index_of _ = negsuc 0

abbrev pub source_of : Library → Disk → String → List ℕ → Source
source_of L disk path (i ∷ []) = inspect_source L disk path
source_of L disk path indexes =
    blocked (concat path " does not have exactly one reviewed restore operation")

module _ (L : Library) (disk : Disk) (entry : Fields) (points : List Point) where
  abbrev pub entry_at : ℕ → Json → Json → Result (List Entry)
  entry_at i path required =
      if is_true required && not (is_null path)
      then (do
        file ← or_raise (as_text path) type_error
        plan_id ← at_key "plan_id" entry
        action_digest ← at_key "action_digest" entry
        ok (
            record {
              plan_id = plan_id;
              action_digest = action_digest;
              operation_index = i;
              rollback_index = index_of (indexes_of file points);
              path = file;
              source = source_of L disk file (indexes_of file points);
            }
            ∷ []))
      else ok []

  -- The entries of the operations from position `i` on.
  unfoldable pub entries_from : ℕ → List Json → Result (List Entry)
  entries_from i [] = ok []
  entries_from i (op ∷ ops) = do
    fs ← or_raise (as_dict op) type_error
    path ← at_key "path" fs
    required ← at_key "backup_required" fs
    here ← entry_at i path required
    later ← entries_from (suc i) ops
    ok (here ++ later)

unfoldable pub list_at : String → Fields → Result (List Json)
list_at k fs = do v ← at_key k fs; or_raise (as_list v) type_error

module _ (L : Library) (disk : Disk) where
  unfoldable pub action_entries : Fields → Result (List Entry)
  unfolding list_at
  action_entries entry = do
    value ← at_key "action_snapshot" entry
    snapshot ← or_raise (as_dict value) type_error
    rollback ← list_at "rollback" snapshot
    points ← restore_points 0 rollback
    operations ← list_at "operations" snapshot
    entries_from L disk entry points 0 operations

  unfoldable pub all_entries : List Json → Result (List Entry)
  unfolding action_entries
  all_entries [] = ok []
  all_entries (action ∷ actions) = do
    entry ← or_raise (as_dict action) type_error
    here ← action_entries entry
    later ← all_entries actions
    ok (here ++ later)

-- A path that several entries target is blocked in each of them.
abbrev pub path_count : String → List Entry → ℕ
path_count path entries = length (select (λ (e : Entry). e.path == path) entries)

abbrev pub combined : List Entry → Entry → Entry
combined entries e = record e {
  source =
      if ltb 1 (path_count e.path entries)
      then blocked
          (concat e.path " is targeted by multiple actions; a combined reviewed action is required")
      else e.source;
}

abbrev pub is_ready : Source → Bool
is_ready (blocked detail) = false
is_ready _ = true

abbrev pub all_ready : List Entry → Bool
all_ready [] = false
all_ready entries = all (λ (e : Entry). is_ready e.source) entries

abbrev pub plan_of : Library → List Entry → Fields
plan_of L entries = field "schema_version" (str "1.0") (
    field "kind" (str "remediation-recovery-plan") (
      field "status" (str (if all_ready entries then "ready" else "blocked")) (
        field "backup_before_write" (bool true) (
          field "automatic_rollback_required" (bool true) (
            field "stop_on_failure" (bool true) (
              field "journal_state" (str "planned") (
                field "entries" (list (items (map (λ e. dict (entry_fields L e)) entries))) (
                  field "rollback_order"
                    (list (items (reverse (map (λ e. str (checkpoint_id L e)) entries))))
                    (field "execution_enabled" (bool false)
                      (field "changes_applied" (bool false) end))))))))))

unfoldable pub compile_recovery_plan : Library → Disk → Fields → Result Fields
unfolding list_at all_entries
compile_recovery_plan L disk contract = do
  actions ← list_at "actions" contract
  entries ← all_entries L disk actions
  ok (plan_of L (map (combined entries) entries))
