-- ===== src/ChangeSets.antt =====
-- Signed change sets (apps/api/lsa/api/change_sets.py): the policy limits and the shared queries.
-- Creation, integrity, readiness, decisions, contracts and jobs are the modules below.
pub mod Integrity
pub mod Binding
pub mod Checks
pub mod Gates
pub mod Decisions
pub mod Creation
pub mod Strictness
pub mod Targets
pub mod Admission
pub mod Fresh
pub mod Requests
pub mod Exclusion
pub mod CreationTests
pub mod Authorization
pub mod Cancellation
pub mod Contracts
pub mod Trust
pub mod Jobs
pub mod Provenance
pub mod Tests
use lsa.Base.{
  ℕ, ◌≤◌, String, Bool, true, false, ◌&&◌, List, [], ◌∷◌, Option, none, some, if◌then◌else◌, ltb,
  ◌==◌, string_eq, find, select, Result, ok, err, http, type_error, or_raise, pos, ℤ, negsuc,
  contains,
}
use lsa.Json.{Json, Fields, end, field, null, str, int, bool, get, has, join}
use lsa.Schema.Fleet.{User, AgentPolicyVersion}
use lsa.Schema.ChangeSets.{
  RemediationChangeSet, RemediationChangeSetPlan, RemediationChangeSetTarget,
}
use lsa.Schema.Database.{Db}

-- `_latest_policy_version`
latest_version : List AgentPolicyVersion → Option AgentPolicyVersion
latest_version [] = none
latest_version (v ∷ versions) = elim (latest_version versions) [
  | none ↦ some v
  | some best ↦ if ltb v.version best.version then some best else some v
]

unfoldable pub latest_policy_version : Db → String → Option AgentPolicyVersion
unfolding latest_version
latest_policy_version db policy_id =
    latest_version
      (select (λ (v : AgentPolicyVersion). v.policy_id == policy_id) db.policy_versions)

abbrev pub default_limits : Fields
default_limits = field "remediation_four_eyes" (bool true) (
    field "remediation_required_capability" (str "signed-change-set-planning-v1") (
      field "remediation_max_evidence_age_minutes" (int (pos 1440)) (
        field "remediation_max_agent_attestation_age_minutes" (int (pos 15)) (
          field "remediation_max_targets_per_change_set" (int (pos 25)) (
            field "remediation_max_canary_hosts" (int (pos 3)) (
              field "remediation_max_batch_hosts" (int (pos 5))
                (field "remediation_min_batch_interval_minutes" (int (pos 15)) end)))))))

-- `_policy_limits(version)[key]`: the settings of the version cover the defaults.
unfoldable pub policy_limit : AgentPolicyVersion → String → Json
policy_limit version key =
    if has key version.settings then get key version.settings else get key default_limits
