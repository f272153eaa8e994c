-- ===== src/ChangeSets/Checks.antt =====
-- The loops of `_readiness_gates`: what each plan and each target of a change set contributes, and the
-- strictest limits of the policies that the targets are under.
use Prim.Native.Nat.{min, max}
use lsa.Base.{
  ℕ, ◌+◌, String, Bool, true, false, ◌&&◌, not, List, [], ◌∷◌, Option, none, some, ltb, ◌==◌, ◌!=◌,
  string_eq, nat_eq, contains, all, Result, ok, err, type_error, ◌>>=◌, or_raise, traverse,
  if◌then◌else◌, option_eq,
}
use lsa.Json.{Json, Fields, str, get, has, text_is, truthy, last_by, opt_num, is_some, py_eq}
use lsa.Library.{Library, minutes}
use lsa.Schema.Action.{
  Action, Operation, OperationKind, restore_backup, service_reload, sysctl_reload,
}
use lsa.Schema.Fleet.{Host, AgentPolicy, AgentPolicyVersion, AgentGroup, LinuxAgent, mode_value}
use lsa.Schema.Findings.{Report}
use lsa.Schema.Plans.{RemediationPlan, is_approved}
use lsa.Schema.ChangeSets.{RemediationChangeSet, RemediationChangeSetTarget}
use lsa.Schema.Database.{Db, get_agent, get_host, get_group, get_policy, get_report}
use lsa.Plans.{latest_report_id, stored_action}
use lsa.ChangeSets.{latest_policy_version, policy_limit}

abbrev rolls_back : OperationKind → Bool
rolls_back restore_backup = true
rolls_back service_reload = true
rolls_back sysctl_reload = true
rolls_back _ = false

abbrev pub is_nonempty {ℓ} : {A : Type ℓ} → List A → Bool
is_nonempty [] = false
is_nonempty (x ∷ xs) = true

-- What one plan contributes to `actions_valid`, `rollbacks_valid` and `evidence_valid`.
pub record PlanChecks : Type 0 where
  pub actions : Bool
  pub rollbacks : Bool
  pub evidence : Bool

-- What one target contributes to `policy_valid`, `attestation_valid` and `evidence_valid`, and the
-- version of the policy whose limits it adds to `policy_limits`.
pub record TargetChecks : Type 0 where
  pub policy : Bool
  pub attestation : Bool
  pub evidence : Bool
  pub version : Option AgentPolicyVersion

-- `plan.tenant_id == change_set.tenant_id and plan.status == "approved"`
abbrev pub is_eligible : RemediationChangeSet → RemediationPlan → Bool
is_eligible cs plan = plan.tenant_id == cs.tenant_id && is_approved plan.status

-- `if plan.approved_by: approvers.add(plan.approved_by)` over the eligible plans.
unfoldable pub approvers : RemediationChangeSet → List (Option RemediationPlan) → List String
approvers cs [] = []
approvers cs (none ∷ plans) = approvers cs plans
approvers cs (some plan ∷ plans) =
    let rest = approvers cs plans in
    if is_eligible cs plan && plan.approved_by != some "" && is_some plan.approved_by
    then (elim plan.approved_by [ none ↦ rest | some u ↦ u ∷ rest ])
    else rest

-- The strictest limits of the assigned policies.
pub record Limits : Type 0 where
  pub max_targets : ℕ
  pub max_canaries : ℕ
  pub max_batch : ℕ
  pub min_interval : ℕ

abbrev effective_mode : AgentPolicyVersion → String → Json
effective_mode version control_id =
    if has control_id version.control_modes
    then get control_id version.control_modes
    else str (mode_value version.default_mode)

abbrev pub minimum : ℕ → List ℕ → ℕ
minimum d [] = d
minimum d (n ∷ []) = n
minimum d (n ∷ m ∷ ns) = min n (minimum d (m ∷ ns))

abbrev pub maximum : ℕ → List ℕ → ℕ
maximum d [] = d
maximum d (n ∷ []) = n
maximum d (n ∷ m ∷ ns) = max n (maximum d (m ∷ ns))

-- `agent is None or host is None or agent.revoked_at is not None`
abbrev active_agent : Option LinuxAgent → Option Host → Option LinuxAgent
active_agent (some agent) (some host) = if is_some agent.revoked_at then none else some agent
active_agent _ _ = none

abbrev pub versions_of : List TargetChecks → List AgentPolicyVersion
versions_of [] = []
versions_of (c ∷ checks) = elim c.version [
  | none ↦ versions_of checks
  | some v ↦ v ∷ versions_of checks
]

-- `now - t > age`
abbrev is_older : ℕ → ℕ → ℕ → Bool
is_older now t age = ltb (t + age) now

abbrev is_recent : ℕ → Option ℕ → ℕ → Bool
is_recent now none age = false
is_recent now (some t) age = not (is_older now t age)

abbrev is_fresh : ℕ → Option Report → ℕ → Bool
is_fresh now none age = false
is_fresh now (some report) age = not (is_older now report.generated_at age)

abbrev related : String → List (Option RemediationPlan) → List RemediationPlan
related host_id [] = []
related host_id (none ∷ plans) = related host_id plans
related host_id (some plan ∷ plans) =
    let rest = related host_id plans in if plan.host_id == host_id then plan ∷ rest else rest

abbrev unassigned : TargetChecks
unassigned = record { policy = false; attestation = false; evidence = true; version = none }

-- The dict of expected values that a target's record is compared with.
abbrev same_assignment :
    Fields → LinuxAgent → AgentGroup → AgentPolicy → AgentPolicyVersion → String → Bool
same_assignment item agent group policy version capability =
    text_is agent.id (get "agent_id" item)
    && text_is group.id (get "group_id" item)
    && text_is policy.id (get "policy_id" item)
    && py_eq (get "policy_version" item) (opt_num (some version.version))
    && text_is capability (get "required_capability" item)

abbrev is_recorded :
    Option Fields → LinuxAgent → AgentGroup → AgentPolicy → AgentPolicyVersion → String → Bool
is_recorded none agent group policy version capability = false
is_recorded (some item) agent group policy version capability =
    same_assignment item agent group policy version capability

module _ (L : Library) where
  abbrev check_action : Option Action → PlanChecks
  check_action none = record { actions = false; rollbacks = false; evidence = true }
  check_action (some action) = record {
    actions = true;
    rollbacks =
        is_nonempty action.rollback && all (λ (o : Operation). rolls_back o.kind) action.rollback;
    evidence = true;
  }

  -- `except RemediationCatalogError: action = None`
  abbrev action_or_none : Result (Option Action) → Option Action
  action_or_none (ok action) = action
  action_or_none (err e) = none

  unfoldable pub check_plan : Db → RemediationChangeSet → Option RemediationPlan → PlanChecks
  check_plan db cs none = record { actions = false; rollbacks = true; evidence = false }
  check_plan db cs (some plan) =
      if is_eligible cs plan
      then record (check_action (action_or_none (stored_action L plan))) {
        evidence =
            is_some (get_report db plan.report_id)
            && some plan.report_id == latest_report_id db plan.tenant_id plan.host_id;
      }
      else record { actions = false; rollbacks = true; evidence = false }

  -- `int(limits[key])`
  unfoldable pub int_limit : AgentPolicyVersion → String → Result ℕ
  int_limit version key = or_raise (L.py_int (policy_limit version key)) type_error

  -- A target whose agent has a group with a published policy.
  check_assigned :
      Db
      → ℕ
      → List (Option RemediationPlan)
      → List Fields
      → RemediationChangeSetTarget
      → LinuxAgent
      → AgentGroup
      → AgentPolicy
      → AgentPolicyVersion
      → Result TargetChecks
  check_assigned db now plans records link agent group policy version = do
    let capability = L.py_str (policy_limit version "remediation_required_capability")
    attestation_age ← int_limit version "remediation_max_agent_attestation_age_minutes"
    evidence_age ← int_limit version "remediation_max_evidence_age_minutes"
    let own = related link.host_id plans
    let recorded = last_by "host_id" link.host_id records
    let agrees = is_recorded recorded agent group policy version capability
    ok (record {
      policy =
          agrees
          && all
              (λ (plan : RemediationPlan).
                text_is "remediate" (effective_mode version plan.control_id)
                && truthy (policy_limit version "remediation_four_eyes"))
              own;
      attestation =
          contains agent.capabilities capability
          && is_recent now agent.capabilities_attested_at (minutes attestation_age);
      evidence =
          all
            (λ (plan : RemediationPlan).
              is_fresh now (get_report db plan.report_id) (minutes evidence_age))
            own;
      version = some version;
    })

  unfoldable pub check_target :
      Db
      → ℕ
      → List (Option RemediationPlan)
      → List Fields
      → RemediationChangeSetTarget
      → Result TargetChecks
  unfolding check_assigned
  check_target db now plans records link =
      elim (active_agent (get_agent db link.agent_id) (get_host db link.host_id)) [
        | none ↦ ok unassigned
        | some agent ↦ elim (get_group db agent.group_id) [
          | none ↦ ok unassigned
          | some group ↦ elim (get_policy db group.policy_id) [
            | none ↦ ok unassigned
            | some policy ↦ elim (latest_policy_version db policy.id) [
              | none ↦ ok unassigned
              | some version ↦ check_assigned db now plans records link agent group policy version
            ]
          ]
        ]
      ]

  unfoldable pub strictest : List AgentPolicyVersion → Result Limits
  strictest versions = do
    targets ← traverse (λ v. int_limit v "remediation_max_targets_per_change_set") versions
    canaries ← traverse (λ v. int_limit v "remediation_max_canary_hosts") versions
    batches ← traverse (λ v. int_limit v "remediation_max_batch_hosts") versions
    intervals ← traverse (λ v. int_limit v "remediation_min_batch_interval_minutes") versions
    ok (record {
      max_targets = minimum 0 targets;
      max_canaries = minimum 0 canaries;
      max_batch = minimum 0 batches;
      min_interval = maximum 15 intervals;
    })
