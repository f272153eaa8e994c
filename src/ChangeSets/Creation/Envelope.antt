-- ===== src/ChangeSets/Creation/Envelope.antt =====
-- `create_change_set`: the payload that will be signed.
use lsa.Base.{
  ℕ, String, true, false, List, none, some, ◌==◌, string_eq, contains, find_last, sort_by, Result,
  ok, key_error, ◌>>=◌, or_raise, traverse, if◌then◌else◌, pos,
}
use lsa.Json.{Json, Fields, end, field, bool, int, str, list, dict, items, opt_text, opt_num}
use lsa.Library.{Library}
use lsa.Schema.Fleet.{User, Host, LinuxAgent}
use lsa.Schema.Plans.{RemediationPlan}
use lsa.ChangeSets.{policy_limit}
use lsa.ChangeSets.Creation.Scope.{RolloutScope, Assigned, ChangeSetRequest}

abbrev pub phase_of : List String → String → String
phase_of canaries host_id = if contains canaries host_id then "canary" else "deferred"

-- `agents_by_host[host_id].id`, which the scope has for each of its hosts.
abbrev pub agent_for : RolloutScope → String → String
agent_for scope host_id = elim (find_last (λ (a : LinuxAgent). a.host_id == host_id) scope.agents) [
  | none ↦ ""
  | some agent ↦ agent.id
]

abbrev pub host_for : RolloutScope → String → Result Host
host_for scope host_id = or_raise (find_last (λ (h : Host). h.id == host_id) scope.hosts) key_error

abbrev pub plan_item : RemediationPlan → Host → Fields
plan_item plan host = field "plan_id" (str plan.id) (
    field "plan_version" (int (pos plan.version)) (
      field "host_id" (str plan.host_id) (
        field "hostname" (str host.hostname) (
          field "report_id" (str plan.report_id) (
            field "control_id" (str plan.control_id) (
              field "title" (str plan.title) (
                field "action_id" (opt_text plan.action_id) (
                  field "action_version" (opt_num plan.action_version) (
                    field "action_digest" (opt_text plan.action_digest)
                      (field "plan_approved_by" (opt_text plan.approved_by) end))))))))))

abbrev pub plan_record : RolloutScope → RemediationPlan → Result Json
plan_record scope plan = do host ← host_for scope plan.host_id; ok (dict (plan_item plan host))

abbrev pub target_item : Host → Assigned → String → Fields
target_item host a phase = field "host_id" (str host.id) (
    field "hostname" (str host.hostname) (
      field "agent_id" (str a.agent.id) (
        field "rollout_phase" (str phase) (
          field "group_id" (str a.group.id) (
            field "group_name" (str a.group.name) (
              field "policy_id" (str a.policy.id) (
                field "policy_name" (str a.policy.name) (
                  field "policy_version" (int (pos a.version.version)) (
                    field "required_capability"
                      (policy_limit a.version "remediation_required_capability") end)))))))))

abbrev pub target_record : RolloutScope → List String → String → Result Json
target_record scope canaries host_id = do
  host ← host_for scope host_id
  a ← or_raise (find_last (λ (a : Assigned). a.agent.host_id == host_id) scope.assigned) key_error
  ok (dict (target_item host a (phase_of canaries host_id)))

abbrev pub safeguards : Fields
safeguards = field "execution_enabled" (bool false) (
    field "four_eyes_required" (bool true) (
      field "post_change_verification_required" (bool true)
        (field "rollback_checkpoint_required" (bool true) end)))

abbrev pub window_of : ChangeSetRequest → Fields
window_of request =
    field "start" (str request.maintenance_window_start.isoformat)
      (field "end" (str request.maintenance_window_end.isoformat) end)

abbrev pub rollout_of : ChangeSetRequest → Fields
rollout_of request = field "strategy" (str "canary") (
    field "batch_size" (int (pos request.batch_size))
      (field "batch_interval_minutes" (int (pos request.batch_interval_minutes)) end))

abbrev pub payload_with :
    Library → String → ℕ → User → ChangeSetRequest → List Json → List Json → Fields
payload_with L id requested_at user request plans targets = field "schema_version" (str "1.0") (
    field "change_set_id" (str id) (
      field "tenant_id" (str user.tenant_id) (
        field "requested_at" (str (L.iso_format requested_at)) (
          field "maintenance_window" (dict (window_of request)) (
            field "rollout" (dict (rollout_of request)) (
              field "safeguards" (dict safeguards) (
                field "plans" (list (items plans))
                  (field "targets" (list (items targets)) end))))))))

unfoldable pub payload_of :
    Library
    → String
    → ℕ
    → User
    → ChangeSetRequest
    → List RemediationPlan
    → RolloutScope
    → Result Fields
payload_of L id requested_at user request plans scope = do
  plan_records ← traverse (plan_record scope) (sort_by (λ (p : RemediationPlan). p.id) plans)
  targets ← traverse (target_record scope request.canary_host_ids) (sort_by (λ s. s) scope.host_ids)
  ok (payload_with L id requested_at user request plan_records targets)
