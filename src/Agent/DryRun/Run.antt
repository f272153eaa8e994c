-- ===== src/Agent/DryRun/Run.antt =====
-- agent/remediation_contract.py: dry_run_remediation_contract, the checks over all actions of a contract.
use lsa.Base.{
  ℕ, suc, Bool, false, List, [], ◌∷◌, ◌++◌, string_eq, all, map, if◌then◌else◌, Result, ok,
  type_error, ◌>>=◌, or_raise, traverse,
}
use lsa.Json.{Json, Fields, bool, end, field, str, list, dict, items, at_key, as_dict}
use lsa.Library.{Library}
use lsa.Agent.Recovery.Compile.{list_at}
use lsa.Agent.DryRun.Checks.{
  ActionResult, Check, Host, is_supported, operation_check, parameter_check, precondition_check,
  support_check, validation_check,
}

-- `for index, item in enumerate(items): _append_check(checks, …)`
unfoldable pub checks_from : (ℕ → Fields → Result Check) → ℕ → List Json → Result (List Check)
checks_from check i [] = ok []
checks_from check i (item ∷ rest) = do
  fs ← or_raise (as_dict item) type_error
  here ← check i fs
  later ← checks_from check (suc i) rest
  ok (here ∷ later)

module _ (L : Library) (host : Host) where
  -- The result of one action.
  unfoldable pub action_result : Json → Result ActionResult
  unfolding list_at checks_from is_supported
  action_result action = do
    fs ← or_raise (as_dict action) type_error
    value ← at_key "action_snapshot" fs
    snapshot ← or_raise (as_dict value) type_error
    systems ← list_at "supported_systems" snapshot
    supported ← is_supported L host systems
    parameters ← list_at "parameters" snapshot
    defaults ← checks_from (parameter_check L host) 0 parameters
    preconditions ← list_at "preconditions" snapshot
    conditions ← checks_from (precondition_check L host) 0 preconditions
    operations ← list_at "operations" snapshot
    changes ← checks_from (operation_check L host) 0 operations
    validations ← list_at "validation" snapshot
    outcomes ← checks_from (validation_check L host) 0 validations
    plan_id ← at_key "plan_id" fs
    action_digest ← at_key "action_digest" fs
    ok (record {
      plan_id = plan_id;
      action_digest = action_digest;
      checks = support_check L host supported ∷ (defaults ++ (conditions ++ (changes ++ outcomes)));
    })

abbrev pub is_passed : ActionResult → Bool
is_passed r = all (λ (c : Check). c.passed) r.checks

abbrev pub check_fields : Check → Fields
check_fields c = field "code" (str c.code) (
    field "status" (str (if c.passed then "passed" else "blocked"))
      (field "detail" (str c.detail) end))

abbrev pub result_fields : ActionResult → Fields
result_fields r = field "plan_id" r.plan_id (
    field "action_digest" r.action_digest (
      field "status" (str (if is_passed r then "ready" else "blocked"))
        (field "checks" (list (items (map (λ c. dict (check_fields c)) r.checks))) end)))

abbrev pub all_passed : List ActionResult → Bool
all_passed [] = false
all_passed results = all is_passed results

abbrev pub dry_run_fields : List ActionResult → Fields
dry_run_fields results = field "status" (str (if all_passed results then "ready" else "blocked")) (
    field "action_results" (list (items (map (λ r. dict (result_fields r)) results)))
      (field "execution_enabled" (bool false) (field "changes_applied" (bool false) end)))

unfoldable pub dry_run_remediation_contract : Library → Host → Fields → Result Fields
unfolding action_result
dry_run_remediation_contract L host contract = do
  actions ← list_at "actions" contract
  results ← traverse (action_result L host) actions
  ok (dry_run_fields results)
