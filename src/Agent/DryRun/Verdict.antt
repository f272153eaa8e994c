-- ===== src/Agent/DryRun/Verdict.antt =====
-- A dry run that is ready, over all actions of the contract.
use lsa.Base.{
  ok_lem, ℕ, String, Bool, true, false, ◌&&◌, ◌≡◌, refl, sym, ap, ◌∙◌, List, [], ◌∷◌, ◌++◌, some,
  string_eq, all, All, contains, ltb, length, arith, Result, ok, after, traverse, or_raise,
  type_error, if◌then◌else◌,
}
use lsa.Json.{
  Json, Fields, null, bool, int, str, list, dict, get, at_key, as_dict, as_list, text_is, in_set,
}
use lsa.Library.{Library}
use lsa.Agent.Recovery.Compile.{list_at}
use lsa.Agent.Recovery.Agreement.{at_key_lem, dict_lem, list_at_lem}
use lsa.Agent.DryRun.Checks.{
  Host, Check, ActionResult, precondition_verdict, precondition_check, operation_verdict,
  operation_check, parameter_check, validation_check, is_supported, reload_verdict, path_preflight,
}
use lsa.Agent.DryRun.Run.{
  checks_from, action_result, is_passed, all_passed, dry_run_fields, dry_run_remediation_contract,
}
use lsa.Agent.DryRun.Readiness.{
  is_met, is_open, checks_from-All, traverse-All, verdict_lem, precondition_lem, reload_lem,
  preflight_lem,
}

reloads_lem :
    (L : Library) (host : Host) (s : String) (b : Bool)
    → contains ("service_reload" ∷ "sysctl_reload" ∷ []) s ≡ b
    → (reload_verdict L host (str s) b).0 ≡ true
    → is_open host (str s) null ≡ true
reloads_lem L host s true among found = reload_lem host s among found
reloads_lem L host s false among found = cc

plain_lem :
    (s : String) {v : Bool × String} {b : Bool} → ok (false, s) ≡ ok v → v.0 ≡ true → b ≡ true
plain_lem s e h = let same = verdict_lem false s e h in cc

operation_lem :
    (L : Library) (host : Host) (kind path : Json) {v : Bool × String}
    → operation_verdict L host kind path ≡ ok v
    → v.0 ≡ true
    → is_open host kind path ≡ true
operation_lem L host (str s) null e h =
    after (in_set (str s) ("service_reload" ∷ "sysctl_reload" ∷ [])) _ e λ reloads known e.
      reloads_lem L host s reloads (ok_lem known)
        (ap (λ p. p.0) (ok_lem {a = reload_verdict L host (str s) reloads} e) ∙ h)
operation_lem L host (list xs) null e h = cc
operation_lem L host (dict fs) null e h = cc
operation_lem L host null null e h = plain_lem _ e h
operation_lem L host (bool b) null e h = plain_lem _ e h
operation_lem L host (int n) null e h = plain_lem _ e h
operation_lem L host kind (str path) e h =
    preflight_lem host kind path
      (ap (λ p. p.0) (ok_lem {a = path_preflight path (host.probe path)} e) ∙ h)
operation_lem L host kind (bool b) e h = cc
operation_lem L host kind (int n) e h = cc
operation_lem L host kind (list xs) e h = cc
operation_lem L host kind (dict fs) e h = cc

-- What the host has for one action.
abbrev pub IsMet : Host → Json → Type 0
IsMet host v =
    (fs : Fields) × (v ≡ dict fs) × (is_met host (get "kind" fs) (get "resource" fs) ≡ true)

abbrev pub IsOpen : Host → Json → Type 0
IsOpen host v =
    (fs : Fields) × (v ≡ dict fs) × (is_open host (get "kind" fs) (get "path" fs) ≡ true)

pub record ReadyAction (host : Host) (action : Json) : Type 0 where
  pub entry : Fields
  pub snapshot : Fields
  pub conditions : List Json
  pub changes : List Json
  pub is_entry : action ≡ dict entry
  pub has_snapshot : get "action_snapshot" entry ≡ dict snapshot
  pub has_conditions : as_list (get "preconditions" snapshot) ≡ some conditions
  pub has_changes : as_list (get "operations" snapshot) ≡ some changes
  pub met : All (IsMet host) conditions
  pub reachable : All (IsOpen host) changes

check_lem : {a b : Check} → ok a ≡ ok b → b.passed ≡ true → a.passed ≡ true
check_lem {a} {b} e h =
    let same : a ≡ b = ground (arith, e) in ap (λ (c : Check). c.passed) same ∙ h

met_lem :
    (L : Library) (host : Host) (i : ℕ) (fs : Fields) (c : Check)
    → precondition_check L host i fs ≡ ok c
    → c.passed ≡ true
    → IsMet host (dict fs)
met_lem L host i fs c e h = after (at_key "kind" fs) _ e λ kind known e.
    after (at_key "resource" fs) _ e λ resource named e.
      after (precondition_verdict L host fs kind resource) _ e λ verdict judged e. (
        fs,
        refl,
        rw (at_key_lem "kind" fs known, at_key_lem "resource" fs named)
            (precondition_lem L host fs kind resource judged (check_lem e h)),
      )

open_lem :
    (L : Library) (host : Host) (i : ℕ) (fs : Fields) (c : Check)
    → operation_check L host i fs ≡ ok c
    → c.passed ≡ true
    → IsOpen host (dict fs)
open_lem L host i fs c e h = after (at_key "kind" fs) _ e λ kind known e.
    after (at_key "path" fs) _ e λ path located e.
      after (operation_verdict L host kind path) _ e λ verdict judged e. (
        fs,
        refl,
        rw (at_key_lem "kind" fs known, at_key_lem "path" fs located)
            (operation_lem L host kind path judged (check_lem e h)),
      )

all-append :
    (xs ys : List Check)
    → all (λ (c : Check). c.passed) (xs ++ ys)
      ≡ (all (λ (c : Check). c.passed) xs && all (λ (c : Check). c.passed) ys)
all-append [] ys = ground arith
all-append (x ∷ xs) ys = ground (arith, all-append xs ys)

parts_lem :
    (b : Bool) (ps qs rs ss : List Check)
    → (b && all (λ (c : Check). c.passed) (ps ++ (qs ++ (rs ++ ss)))) ≡ true
    → (all (λ (c : Check). c.passed) qs ≡ true) × (all (λ (c : Check). c.passed) rs ≡ true)
parts_lem b ps qs rs ss h = (
  ground (arith, all-append ps (qs ++ (rs ++ ss)), all-append qs (rs ++ ss)),
  ground (arith, all-append ps (qs ++ (rs ++ ss)), all-append qs (rs ++ ss), all-append rs ss),
)

passed_lem : {a b : ActionResult} → ok a ≡ ok b → is_passed b ≡ true → is_passed a ≡ true
passed_lem {a} {b} e h = let same : a ≡ b = ground (arith, e) in ap is_passed same ∙ h

action-ReadyAction :
    (L : Library) (host : Host) (action : Json) (r : ActionResult)
    → action_result L host action ≡ ok r
    → is_passed r ≡ true
    → ReadyAction host action
unfolding action_result
action-ReadyAction L host action r e h =
    after (or_raise (as_dict action) type_error) _ e λ fs shaped e.
      after (at_key "action_snapshot" fs) _ e λ value known e.
        after (or_raise (as_dict value) type_error) _ e λ snapshot is_dict e.
          after (list_at "supported_systems" snapshot) _ e λ systems systems_are e.
            after (is_supported L host systems) _ e λ supported judged e.
              after (list_at "parameters" snapshot) _ e λ parameters parameters_are e.
                after (checks_from (parameter_check L host) 0 parameters) _ e λ ps pe e.
                  after (list_at "preconditions" snapshot) _ e λ conditions conditions_are e.
                    after (checks_from (precondition_check L host) 0 conditions) _ e λ qs qe e.
                      after (list_at "operations" snapshot) _ e λ changes changes_are e.
                        after (checks_from (operation_check L host) 0 changes) _ e λ rs re e.
                          after (list_at "validation" snapshot) _ e λ outcomes outcomes_are e.
                            after (checks_from (validation_check L host) 0 outcomes) _ e λ ss se e.
                              after (at_key "plan_id" fs) _ e λ plan_id planned e.
                                after (at_key "action_digest" fs) _ e λ digest digested e.
                                  let parts = parts_lem supported ps qs rs ss (passed_lem e h) in
                                  record {
                                    entry = fs;
                                    snapshot = snapshot;
                                    conditions = conditions;
                                    changes = changes;
                                    is_entry = dict_lem action shaped;
                                    has_snapshot =
                                        at_key_lem "action_snapshot" fs known
                                        ∙ dict_lem value is_dict;
                                    has_conditions =
                                        list_at_lem "preconditions" snapshot conditions_are;
                                    has_changes = list_at_lem "operations" snapshot changes_are;
                                    met =
                                        checks_from-All (IsMet host) (precondition_check L host) 0
                                          conditions (met_lem L host) qe parts.0;
                                    reachable =
                                        checks_from-All (IsOpen host) (operation_check L host) 0
                                          changes (open_lem L host) re parts.1;
                                  }

status_lem :
    (rs : List ActionResult)
    → text_is "ready" (get "status" (dry_run_fields rs)) ≡ true
    → all_passed rs ≡ true
unfolding string_eq
status_lem rs h = branch_lem (all_passed rs) h
  where
    branch_lem :
        (b : Bool) → text_is "ready" (str (if b then "ready" else "blocked")) ≡ true → b ≡ true
    branch_lem true h = refl
    branch_lem false h = h

all_passed_lem : (rs : List ActionResult) → all_passed rs ≡ true → all is_passed rs ≡ true
all_passed_lem [] h = refl
all_passed_lem (r ∷ rs) h = h

some_action :
    (f : Json → Result ActionResult) (actions : List Json) {rs : List ActionResult}
    → traverse f actions ≡ ok rs
    → all_passed rs ≡ true
    → ltb 0 (length actions) ≡ true
some_action f [] {rs} e h =
    let same : [] ≡ rs = ground (arith, e) in empty_lem (ap all_passed same ∙ h)
  where
    empty_lem : {b : Bool} → false ≡ true → b ≡ true
    empty_lem h = cc
some_action f (action ∷ actions) e h = ground arith

-- If a dry run reports that it is ready, the contract has an action, and the host meets each of them: every
-- precondition is a program that it finds or the package that it has, and every operation has its path
-- inside the reviewed directories, or a reload interface that the host finds.
pub ready-ReadyAction :
    (L : Library) (host : Host) (contract doc : Fields) {actions : List Json}
    → list_at "actions" contract ≡ ok actions
    → dry_run_remediation_contract L host contract ≡ ok doc
    → text_is "ready" (get "status" doc) ≡ true
    → (ltb 0 (length actions) ≡ true) × All (ReadyAction host) actions
unfolding dry_run_remediation_contract
ready-ReadyAction L host contract doc {actions} a e h =
    after (list_at "actions" contract) _ e λ found listed e.
      after (traverse (action_result L host) found) _ e λ rs run e.
        let same : found ≡ actions = ok_lem (sym listed ∙ a) in
        let passed = status_lem rs (ap (λ fs. text_is "ready" (get "status" fs)) (ok_lem e) ∙ h) in
        rw (sym same) (
          some_action (action_result L host) found run passed,
          traverse-All (ReadyAction host) (action_result L host) found (action-ReadyAction L host)
              run (all_passed_lem rs passed),
        )
