-- ===== src/Plans/Tests.antt =====
-- Requests on plans of the scenario.
use lsa.Base.{
  ℕ, String, Bool, true, false, ◌≡◌, ◌≢◌, refl, List, [], ◌∷◌, Option, none, some, find, string_eq,
  option_eq, ◌==◌, Result, ok, err, Bool-cases, inl, inr, select, length, ◌≤◌, arith,
}
use lsa.Schema.Fleet.{User}
use lsa.Schema.Plans.{RemediationPlan, pending_approval, rejected}
use lsa.Schema.Database.{Db}
use lsa.Plans.{approve_remediation_plan, latest_report_id, stored_action}
use lsa.Plans.Requests.{Request, create, approve, cancel, serve}
use lsa.Plans.Invariant.{IsValid, serve-IsValid}
use lsa.Plans.Decisions.{Approval, approve-eq-ok, serve-keeps_closed}
use lsa.Scenario.{toy, action, admin, fleet, plan, returns, returned, returns-eq-ok}

-- Two requests to plan the same finding, an approval, and a cancellation.
abbrev requests : List (ℕ × User × Request)
requests =
    (2000, admin, create "pl2" "f1" none)
    ∷ (2001, admin, create "pl3" "f1" none)
    ∷ (2002, admin, approve "pl2")
    ∷ (2003, admin, cancel "pl1" "superseded")
    ∷ []

abbrev fleet_claim : String → Bool
fleet_claim id = plan.active_finding_id == some id

fleet-IsValid : IsValid fleet
unfolding string_eq
fleet-IsValid = record {
  sound = (
    record {
      active_finding = refl;
      versioned = omega arith;
      approved_known = λ e. refl;
      rejected_known = λ e. cc;
      canceled_known = λ e. cc;
    },
    tt,
  );
  one_claim = one_plan;
}
  where
    one_plan :
        (id : String)
        → length (select (λ (p : RemediationPlan). p.active_finding_id == some id) fleet.plans) ≤ 1
    one_plan id = elim (Bool-cases (fleet_claim id)) [
      | inl hit ↦ rw hit (omega arith)
      | inr miss ↦ rw miss (omega arith)
    ]

serve-IsValid_example : IsValid (serve toy (action ∷ []) requests fleet)
serve-IsValid_example = serve-IsValid toy (action ∷ []) requests fleet fleet-IsValid

abbrev pending_fleet : Db
pending_fleet = record fleet { plans = (record plan { status = pending_approval }) ∷ [] }

approval_returns : returns (approve_remediation_plan toy 2000 admin "pl1" pending_fleet) ≡ true
unfolding approve_remediation_plan latest_report_id stored_action string_eq lsa.Base.option_eq
    lsa.Catalog.validate_action_snapshot lsa.Catalog.action_digest native.Mathlib.Decide.ℕ_discrete
approval_returns = refl

approve-eq-ok_example :
    Approval toy 2000 admin "pl1" pending_fleet
      (returned fleet (approve_remediation_plan toy 2000 admin "pl1" pending_fleet))
approve-eq-ok_example = approve-eq-ok toy 2000 admin "pl1" pending_fleet (
    returns-eq-ok fleet (approve_remediation_plan toy 2000 admin "pl1" pending_fleet)
      approval_returns)

abbrev closed_plan : RemediationPlan
closed_plan = record plan { status = rejected; active_finding_id = none }

abbrev closed_fleet : Db
closed_fleet = record fleet { plans = closed_plan ∷ [] }

closed_found : find (λ (p : RemediationPlan). p.id == "pl1") closed_fleet.plans ≡ some closed_plan
unfolding string_eq
closed_found = refl

serve-keeps_closed_example :
    find
      (λ (p : RemediationPlan). p.id == "pl1")
      (serve toy (action ∷ []) requests closed_fleet).plans
    ≡ some closed_plan
serve-keeps_closed_example =
    serve-keeps_closed toy (action ∷ []) "pl1" requests closed_fleet closed_found refl
