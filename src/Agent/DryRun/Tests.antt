-- ===== src/Agent/DryRun/Tests.antt =====
-- The dry run of the sample contract on a host that has everything.
use lsa.Base.{true, false, ◌≡◌, refl, [], string_eq, ltb, length, All}
use lsa.Json.{Fields, end, get, text_is}
use lsa.Agent.Recovery.Compile.{list_at}
use lsa.Agent.DryRun.Checks.{Host}
use lsa.Agent.DryRun.Run.{dry_run_remediation_contract}
use lsa.Agent.DryRun.Verdict.{ReadyAction, ready-ReadyAction}
use lsa.Agent.Sample.{accepted_contract}
use lsa.Scenario.{toy, returns, returned, returns-eq-ok}

abbrev able_host : Host
able_host = record {
  family = "debian";
  version = "12";
  packages = [];
  lookup = λ program. true;
  probe = λ path. record {
    resolves_inside = true;
    parent = "/etc";
    parent_is_dir = true;
    exists = false;
    is_file = false;
  };
  kernel_path = λ key. key;
  is_readable = λ path. true;
}

abbrev run : Fields
run = returned end (dry_run_remediation_contract toy able_host accepted_contract)

run_returns : returns (dry_run_remediation_contract toy able_host accepted_contract) ≡ true
unfolding dry_run_remediation_contract string_eq lsa.Json.text_in lsa.Json.py_eq
run_returns = refl

run_ready : text_is "ready" (get "status" run) ≡ true
unfolding dry_run_remediation_contract string_eq lsa.Json.text_in lsa.Json.py_eq
run_ready = refl

actions_return : returns (list_at "actions" accepted_contract) ≡ true
unfolding list_at string_eq
actions_return = refl

ready-ReadyAction_example :
    (ltb 0 (length (returned [] (list_at "actions" accepted_contract))) ≡ true)
    × All (ReadyAction able_host) (returned [] (list_at "actions" accepted_contract))
ready-ReadyAction_example =
    ready-ReadyAction toy able_host accepted_contract run
      (returns-eq-ok [] (list_at "actions" accepted_contract) actions_return)
      (returns-eq-ok end (dry_run_remediation_contract toy able_host accepted_contract) run_returns)
      run_ready
