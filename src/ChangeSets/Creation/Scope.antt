-- ===== src/ChangeSets/Creation/Scope.antt =====
-- `create_change_set`: the hosts of the plans, their agents and policies, and the limits on them.
use lsa.Base.{
  ℕ, String, Bool, ◌&&◌, ◌||◌, not, List, ltb, ◌==◌, string_eq, contains, map, select, length,
  sorted_set, Result, ok, http, value_error, ◌>>=◌, ◌>>◌, require, or_raise, traverse,
}
use lsa.Json.{is_some, subset, same_set}
use lsa.Library.{Library, Moment}
use lsa.Schema.Fleet.{User, Host, AgentPolicy, AgentPolicyVersion, AgentGroup, LinuxAgent}
use lsa.Schema.Plans.{RemediationPlan}
use lsa.Schema.Database.{Db, get_group, get_policy}
use lsa.ChangeSets.{latest_policy_version}
use lsa.ChangeSets.Checks.{Limits, strictest, is_nonempty}

-- A `datetime` of a request, and the text that `isoformat()` gives for it once it has a zone.
pub record Stamp : Type 0 where
  pub moment : Moment
  pub isoformat : String

-- `RemediationChangeSetCreate`
pub record ChangeSetRequest : Type 0 where
  pub plan_ids : List String
  pub canary_host_ids : List String
  pub maintenance_window_start : Stamp
  pub maintenance_window_end : Stamp
  pub batch_size : ℕ
  pub batch_interval_minutes : ℕ

-- An agent with the policy that its group is under.
pub record Assigned : Type 0 where
  pub agent : LinuxAgent
  pub group : AgentGroup
  pub policy : AgentPolicy
  pub version : AgentPolicyVersion

pub record RolloutScope : Type 0 where
  pub host_ids : List String
  pub hosts : List Host
  pub agents : List LinuxAgent
  pub assigned : List Assigned

abbrev is_managed : User → List String → LinuxAgent → Bool
is_managed user host_ids agent =
    agent.tenant_id == user.tenant_id
    && contains host_ids agent.host_id
    && not (is_some agent.revoked_at)

abbrev pub assign : Db → LinuxAgent → Result Assigned
assign db agent = do
  let unpublished = http 409 "Every target must have a published agent policy"
  group ← or_raise (get_group db agent.group_id) unpublished
  policy ← or_raise (get_policy db group.policy_id) unpublished
  version ← or_raise (latest_policy_version db policy.id) unpublished
  ok (record { agent = agent; group = group; policy = policy; version = version })

abbrev pub host_ids_of : List RemediationPlan → List String
host_ids_of plans = sorted_set (map (λ (p : RemediationPlan). p.host_id) plans)

unfoldable pub scope_of : Db → User → List String → List RemediationPlan → Result RolloutScope
scope_of db user canaries plans = do
  let host_ids = host_ids_of plans
  require (subset canaries host_ids) (http 422 "Canary hosts must belong to the selected plans")
  let agents = select (is_managed user host_ids) db.agents
  require (same_set (map (λ (a : LinuxAgent). a.host_id) agents) host_ids)
      (http 409 "Every target host must have an active managed agent")
  let hosts = select (λ (h : Host). contains host_ids h.id) db.hosts
  require (same_set (map (λ (h : Host). h.id) hosts) host_ids)
      (http 409 "Every remediation target must still exist")
  assigned ← traverse (assign db) agents
  ok (record { host_ids = host_ids; hosts = hosts; agents = agents; assigned = assigned })

-- The counts and the rate of a request are within the strictest limits.
abbrev pub within_scope : ChangeSetRequest → RolloutScope → Limits → Bool
within_scope request scope limits = not (
    ltb limits.max_targets (length scope.host_ids)
    || ltb limits.max_canaries (length request.canary_host_ids))

abbrev pub within_rate : ChangeSetRequest → Limits → Bool
within_rate request limits = not (
    ltb limits.max_batch request.batch_size
    || ltb request.batch_interval_minutes limits.min_interval)

unfoldable pub check_limits : Library → ChangeSetRequest → RolloutScope → Result (Unit {0})
check_limits L request scope = do
  require (is_nonempty scope.assigned) value_error
  limits ← strictest L (map (λ (a : Assigned). a.version) scope.assigned)
  require (within_scope request scope limits)
      (http 422 "Target or canary scope exceeds the strictest assigned policy")
  require (within_rate request limits)
      (http 422 "Batch size or interval violates the strictest assigned policy")
