-- ===== src/ChangeSets/Gates.antt =====
-- `_readiness_gates`: the nine gates that a change set passes before it is authorized. The detail
-- texts of the gates are not modelled.
use lsa.Base.{
  joined, ℕ, ◌+◌, String, Bool, false, ◌&&◌, not, List, [], ◌∷◌, Option, none, some, ltb, leb, ◌==◌,
  ◌!=◌, string_eq, nat_eq, contains, all, select, length, Result, ok, ◌>>=◌, ◌>>◌, traverse,
  option_eq, map,
}
use lsa.Library.{Library, minutes}
use lsa.Schema.Fleet.{User}
use lsa.Schema.Plans.{RemediationPlan}
use lsa.Schema.ChangeSets.{
  RemediationChangeSet, RemediationChangeSetPlan, RemediationChangeSetTarget,
}
use lsa.Schema.Database.{Db, get_plan}
use lsa.ChangeSets.Checks.{
  PlanChecks, TargetChecks, Limits, approvers, is_nonempty, check_plan, check_target, strictest,
  versions_of,
}
use lsa.ChangeSets.Integrity.{
  plan_links, target_links, Operational, envelope_records, operational_values,
  assert_envelope_integrity,
}

pub data GateCode : Type 0 where
  action_integrity evidence_freshness policy_authorization agent_attestation canary_scope : GateCode
  rate_limit maintenance_window rollback_checkpoint four_eyes : GateCode

-- `gate.code.replace("_", " ")`
abbrev gate_label : GateCode → String
gate_label action_integrity = "action integrity"
gate_label evidence_freshness = "evidence freshness"
gate_label policy_authorization = "policy authorization"
gate_label agent_attestation = "agent attestation"
gate_label canary_scope = "canary scope"
gate_label rate_limit = "rate limit"
gate_label maintenance_window = "maintenance window"
gate_label rollback_checkpoint = "rollback checkpoint"
gate_label four_eyes = "four eyes"

pub record Gate : Type 0 where
  pub code : GateCode
  pub passed : Bool

-- `blocked_labels`
abbrev pub blocked_labels : List Gate → String
blocked_labels gates =
    joined (map (λ (g : Gate). gate_label g.code) (select (λ (g : Gate). not g.passed) gates))

-- `len(target_links)` and `sum(link.rollout_phase == "canary" for link in target_links)`
abbrev pub canary_count : List RemediationChangeSetTarget → ℕ
canary_count links =
    length (select (λ (l : RemediationChangeSetTarget). l.rollout_phase == "canary") links)

-- The administrator who authorized, or else the one who is about to.
abbrev pub deciding : RemediationChangeSet → Option User → Option String
deciding cs authorizer = elim cs.authorized_by [
  | some id ↦ some id
  | none ↦ elim authorizer [ none ↦ none | some user ↦ some user.id ]
]

abbrev pub is_independent : RemediationChangeSet → List String → Option String → Bool
is_independent cs known none = false
is_independent cs known (some id) = id != cs.requested_by && not (contains known id)

abbrev pub plans_of : Db → RemediationChangeSet → List (Option RemediationPlan)
plans_of db cs = map (λ (l : RemediationChangeSetPlan). get_plan db l.plan_id) (plan_links db cs)

-- The gates, from what the loops over plans and targets have found.
abbrev pub gates_of :
    ℕ
    → RemediationChangeSet
    → Operational
    → List RemediationChangeSetTarget
    → List PlanChecks
    → List TargetChecks
    → Limits
    → Bool
    → List Gate
gates_of now cs window links plans targets limits independent =
    record { code = action_integrity; passed = all (λ (c : PlanChecks). c.actions) plans }
    ∷ record {
      code = evidence_freshness;
      passed =
          all (λ (c : PlanChecks). c.evidence) plans
          && all (λ (c : TargetChecks). c.evidence) targets;
    }
    ∷ record { code = policy_authorization; passed = all (λ (c : TargetChecks). c.policy) targets }
    ∷ record {
      code = agent_attestation;
      passed = all (λ (c : TargetChecks). c.attestation) targets;
    }
    ∷ record {
      code = canary_scope;
      passed =
          is_nonempty links
          && ltb 0 (canary_count links)
          && leb (canary_count links) limits.max_canaries
          && leb (length links) limits.max_targets;
    }
    ∷ record {
      code = rate_limit;
      passed =
          leb window.batch_size limits.max_batch && leb limits.min_interval window.batch_interval;
    }
    ∷ record {
      code = maintenance_window;
      passed =
          ltb now window.start
          && ltb window.start window.finish
          && leb (window.start + minutes 30) window.finish
          && leb window.finish (window.start + minutes 480);
    }
    ∷ record { code = rollback_checkpoint; passed = all (λ (c : PlanChecks). c.rollbacks) plans }
    ∷ record { code = four_eyes; passed = independent }
    ∷ []

module _ (L : Library) where
  unfoldable pub readiness_gates : Db → ℕ → RemediationChangeSet → Option User → Result (List Gate)
  unfolding check_plan check_target
  readiness_gates db now cs authorizer = do
    assert_envelope_integrity L db cs
    records ← envelope_records cs "targets"
    let plans = plans_of db cs
    let links = target_links db cs
    targets ← traverse (check_target L db now plans records) links
    limits ← strictest L (versions_of targets)
    window ← operational_values L cs
    ok (
        gates_of now cs window links (map (check_plan L db cs) plans) targets limits
          (is_independent cs (approvers cs plans) (deciding cs authorizer)))
