-- ===== src/Receipts.antt =====
-- `validate_recovery_plan` (apps/api/lsa/services/remediation_receipts.py): a recovery plan covers the
-- backups of the frozen contract, entry by entry and in order.
pub mod Soundness
pub mod Tests
use lsa.Base.{
  ℕ, suc, String, Bool, true, false, ◌&&◌, ◌||◌, not, List, [], ◌∷◌, ◌++◌, Option, none, some, ◌==◌,
  string_eq, nat_eq, all, any, map, length, if◌then◌else◌, ℤ, pos, negsuc, leb_ℤ,
}
use lsa.Json.{
  Json, Fields, end, field, str, int, list, dict, elems, get, is_true, is_false, is_null, text_is,
  as_list, as_dict, as_dicts, as_text, as_int, py_eq,
}
use lsa.Library.{Library, digest_of}
use mathlib.Core.List.{reverse}

-- Positions, from `i` on, of the operations that restore a path.
unfoldable pub restores : String → ℕ → List Json → List ℕ
restores path i [] = []
restores path i (dict op ∷ rest) =
    let later = restores path (suc i) rest in
    if text_is "restore_backup" (get "kind" op) && text_is path (get "path" op)
    then i ∷ later
    else later
restores path i (_ ∷ rest) = restores path (suc i) rest

-- The position if there is exactly one, or else -1.
abbrev pub only : List ℕ → ℤ
only (i ∷ []) = pos i
only _ = negsuc 0

-- `identity`, with the keys in the order of the source.
abbrev pub identity_of : Json → Json → ℕ → ℤ → String → Fields
identity_of plan_id action_digest operation_index rollback_index path =
    field "action_digest" action_digest (
      field "operation_index" (int (pos operation_index)) (
        field "path" (str path)
          (field "plan_id" plan_id (field "rollback_index" (int rollback_index) end))))

-- The path of an operation that wants a backup.
abbrev pub backed_up_path : Fields → Option String
backed_up_path op = if is_true (get "backup_required" op) then as_text (get "path" op) else none

abbrev pub append_some : Option (List Fields) → Option (List Fields) → Option (List Fields)
append_some (some xs) (some ys) = some (xs ++ ys)
append_some _ _ = none

abbrev pub is_index : Option ℤ → Bool
is_index none = false
is_index (some i) = leb_ℤ (pos 0) i

module _ (L : Library) where
  -- `_checkpoint_id`
  abbrev pub checkpoint_id : Fields → String
  checkpoint_id identity = digest_of L (dict identity)

  abbrev pub expected_entry : Json → Json → ℕ → ℤ → String → Fields
  expected_entry plan_id action_digest i rollback_index path =
      let identity = identity_of plan_id action_digest i rollback_index path in
      field "checkpoint_id" (str (checkpoint_id identity)) identity

  -- The entries that the operations from position `i` on call for; none where one is no dict.
  unfoldable pub expected_of : Json → Json → List Json → ℕ → List Json → Option (List Fields)
  expected_of plan_id action_digest rollbacks i [] = some []
  expected_of plan_id action_digest rollbacks i (dict op ∷ rest) =
      let later = expected_of plan_id action_digest rollbacks (suc i) rest in
      elim (backed_up_path op) [
        | none ↦ later
        | some path ↦ elim later [
          | none ↦ none
          | some entries ↦ some (
              expected_entry plan_id action_digest i (only (restores path 0 rollbacks)) path
              ∷ entries)
        ]
      ]
  expected_of plan_id action_digest rollbacks i (_ ∷ rest) = none

  -- The entries that all actions call for; none where the code returns `False`.
  unfoldable pub expected_entries : List Json → Option (List Fields)
  unfolding expected_of
  expected_entries [] = some []
  expected_entries (dict record' ∷ rest) =
      let later = expected_entries rest in
      elim (as_dict (get "action_snapshot" record')) [
        | none ↦ none
        | some snapshot ↦ elim (as_list (get "rollback" snapshot)) [
          | none ↦ none
          | some rollbacks ↦ elim (as_list (get "operations" snapshot)) [
            | none ↦ none
            | some operations ↦
                append_some
                  (expected_of (get "plan_id" record') (get "action_digest" record') rollbacks 0
                    operations)
                  later
          ]
        ]
      ]
  expected_entries (_ ∷ rest) = none

-- `all(entry.get(key) == value for key, value in expected.items())`
abbrev pub agrees : Fields → Fields → Bool
agrees entry end = true
agrees entry (field k v expected) = py_eq (get k entry) v && agrees entry expected

abbrev pub all_agree : List Fields → List Fields → Bool
all_agree [] [] = true
all_agree (entry ∷ entries) (e ∷ expected) = agrees entry e && all_agree entries expected
all_agree _ _ = false

abbrev metadata : Fields → List Json
metadata entry =
    get "source_digest" entry
    ∷ get "size_bytes" entry
    ∷ get "mode" entry
    ∷ get "uid" entry
    ∷ get "gid" entry
    ∷ []

-- The tests on one entry's state.
abbrev pub state_holds : Fields → Bool
state_holds entry =
    is_false (get "backup_created" entry)
    && (text_is "regular_file" (get "source_state" entry)
          && text_is "ready" (get "status" entry)
          && all (λ v. not (is_null v)) (metadata entry)
        || text_is "absent" (get "source_state" entry)
          && text_is "ready" (get "status" entry)
          && all is_null (metadata entry)
        || text_is "blocked" (get "source_state" entry)
          && text_is "blocked" (get "status" entry)
          && all is_null (metadata entry))

-- `len(set(xs)) == len(xs)` for texts.
abbrev pub distinct : List Json → Bool
distinct [] = true
distinct (x ∷ xs) = not (any (py_eq x) xs) && distinct xs

abbrev pub ids_of : List Fields → List Json
ids_of = map (get "checkpoint_id")

abbrev pub same_list : List Json → List Json → Bool
same_list [] [] = true
same_list (x ∷ xs) (y ∷ ys) = py_eq x y && same_list xs ys
same_list _ _ = false

abbrev pub in_order : Json → List Json → Bool
in_order (list order) ids = same_list (elems order) (reverse ids)
in_order _ ids = false

abbrev pub restorable : Fields → Bool
restorable entry =
    text_is "ready" (get "status" entry) && is_index (as_int (get "rollback_index" entry))

abbrev pub expected_ready : List Fields → Bool
expected_ready entries = distinct (map (get "path") entries) && all restorable entries

-- The checks that follow the comparison of lengths.
abbrev pub entries_hold : Fields → List Fields → List Fields → Bool
entries_hold plan entries expected =
    all_agree entries expected
    && all state_holds entries
    && distinct (ids_of entries)
    && in_order (get "rollback_order" plan) (ids_of entries)
    && text_is (if expected_ready entries then "ready" else "blocked") (get "status" plan)

abbrev pub nonempty : List Fields → Bool
nonempty [] = false
nonempty _ = true

unfoldable pub validate_recovery_plan : Library → Fields → Fields → Bool
validate_recovery_plan L contract plan = elim (as_list (get "actions" contract)) [
  | none ↦ false
  | some actions ↦ elim (expected_entries L actions) [
    | none ↦ false
    | some expected ↦ elim (as_dicts (get "entries" plan)) [
      | none ↦ false
      | some entries ↦
          length entries == length expected
          && nonempty entries
          && entries_hold plan entries expected
    ]
  ]
]
