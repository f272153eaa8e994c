-- ===== src/Agent/Recovery/Tests.antt =====
-- The recovery plan of the scenario's contract, as the agent compiles it on a host without the file.
use lsa.Base.{
  false, true, ◌≡◌, refl, List, [], some, string_eq, ok, ◌==◌, if◌then◌else◌, ltb, length, map, All,
}
use lsa.Json.{field, bool, Json, Fields, str}
use lsa.Receipts.{expected_entries, validate_recovery_plan, distinct}
use lsa.Agent.Recovery.Sources.{Disk, missing, directory}
use lsa.Agent.Recovery.Compile.{Entry, list_at, all_entries, checkpoint_id, compile_recovery_plan}
use lsa.Agent.Recovery.Agreement.{expectation, all_entries-expected_entries}
use lsa.Agent.Recovery.Documents.{IsTexted}
use lsa.Agent.Recovery.Acceptance.{compile-passes}
use lsa.Agent.Recovery.Binding.{is_locked, validate_recovery_plan_binding}
use lsa.Agent.Recovery.Passage.{validate-binding}
use lsa.Scenario.{recovery_plan, toy, contract, returns, returned, returns-eq-ok}

abbrev empty_disk : Disk
empty_disk = record { stat = λ path. if path == "/etc" then directory else missing }

abbrev actions : List Json
actions = returned [] (list_at "actions" contract)

abbrev entries : List Entry
entries = returned [] (all_entries toy empty_disk actions)

actions_return : returns (list_at "actions" contract) ≡ true
unfolding list_at string_eq
actions_return = refl

entries_return : returns (all_entries toy empty_disk actions) ≡ true
unfolding all_entries string_eq lsa.Agent.Recovery.Compile.restore_points
    lsa.Agent.Recovery.Compile.entries_from
entries_return = refl

some_entry : ltb 0 (length entries) ≡ true
unfolding all_entries string_eq lsa.Agent.Recovery.Compile.restore_points
    lsa.Agent.Recovery.Compile.entries_from
some_entry = refl

ids_differ : distinct (map (λ e. str (checkpoint_id toy e)) entries) ≡ true
unfolding all_entries string_eq lsa.Agent.Recovery.Compile.restore_points
    lsa.Agent.Recovery.Compile.entries_from
ids_differ = refl

entries-IsTexted : All IsTexted entries
unfolding all_entries string_eq lsa.Agent.Recovery.Compile.restore_points
    lsa.Agent.Recovery.Compile.entries_from
entries-IsTexted = (("pl1", "digest", refl, refl), tt)

all_entries-expected_entries_example :
    expected_entries toy actions ≡ some (map (expectation toy) entries)
all_entries-expected_entries_example =
    all_entries-expected_entries toy empty_disk actions
      (returns-eq-ok [] (all_entries toy empty_disk actions) entries_return)

compile-passes_example :
    (plan : Fields) × (compile_recovery_plan toy empty_disk contract ≡ ok plan)
    × (validate_recovery_plan toy contract plan ≡ true)
compile-passes_example =
    compile-passes toy empty_disk contract
      (returns-eq-ok [] (list_at "actions" contract) actions_return)
      (returns-eq-ok [] (all_entries toy empty_disk actions) entries_return) some_entry
      entries-IsTexted ids_differ

abbrev ready_plan : Fields
ready_plan =
    field "execution_enabled" (bool false) (field "changes_applied" (bool false) recovery_plan)

ready_plan_passes : validate_recovery_plan toy contract ready_plan ≡ true
unfolding validate_recovery_plan string_eq expected_entries native.Mathlib.Decide.ℕ_discrete
    lsa.Json.py_eq lsa.Receipts.restores
ready_plan_passes = refl

ready_plan_locked : is_locked ready_plan ≡ true
unfolding string_eq
ready_plan_locked = refl

validate-binding_example : validate_recovery_plan_binding toy contract ready_plan ≡ ok tt
validate-binding_example =
    validate-binding toy empty_disk contract ready_plan
      (returns-eq-ok [] (list_at "actions" contract) actions_return)
      (returns-eq-ok [] (all_entries toy empty_disk actions) entries_return) ready_plan_passes
      ready_plan_locked
