-- ===== src/Scenario/Envelope.antt =====
-- The change set of the approved plan, and the database that holds the fleet.
use lsa.Base.{true, false, [], ◌∷◌, none, string_eq, pos}
use lsa.Json.{Fields, nil, cons, end, field, bool, int, str, list, dict}
use lsa.Library.{minutes}
use lsa.Schema.Fleet.{Host, AgentPolicy, AgentPolicyVersion, AgentGroup, remediate}
use lsa.Schema.ChangeSets.{RemediationChangeSet, pending_authorization}
use lsa.Schema.Database.{Db}
use lsa.Scenario.Fleet.{finding, plan, agent, change_key, command_key}

abbrev pub plan_item : Fields
plan_item = field "plan_id" (str "pl1") (
    field "host_id" (str "h1") (
      field "report_id" (str "r1") (
        field "control_id" (str "ssh-1") (
          field "action_id" (str "linux.ssh")
            (field "action_version" (int (pos 1)) (field "action_digest" (str "digest") end))))))

abbrev pub target_item : Fields
target_item = field "host_id" (str "h1") (
    field "agent_id" (str "a1") (
      field "rollout_phase" (str "canary") (
        field "group_id" (str "g1") (
          field "policy_id" (str "p1") (
            field "policy_version" (int (pos 1))
              (field "required_capability" (str "signed-change-set-planning-v1") end))))))

abbrev pub safeguards : Fields
safeguards = field "execution_enabled" (bool false) (
    field "four_eyes_required" (bool true) (
      field "post_change_verification_required" (bool true)
        (field "rollback_checkpoint_required" (bool true) end)))

abbrev pub payload : Fields
payload = field "schema_version" (str "1.0") (
    field "change_set_id" (str "cs1") (
      field "tenant_id" (str "t") (
        field "safeguards" (dict safeguards) (
          field "maintenance_window"
            (dict (field "start" (str "start") (field "end" (str "end") end)))
            (field "rollout"
              (dict (
                field "strategy" (str "canary") (
                  field "batch_size" (int (pos 1))
                    (field "batch_interval_minutes" (int (pos 15)) end))))
              (field "plans" (list (cons (dict plan_item) nil))
                (field "targets" (list (cons (dict target_item) nil)) end)))))))

abbrev pub change_set : RemediationChangeSet
change_set = record {
  id = "cs1";
  tenant_id = "t";
  status = pending_authorization;
  payload_schema_version = "1.0";
  payload = payload;
  digest = "digest";
  signature = none;
  signing_key_id = none;
  maintenance_window_start = minutes 60;
  maintenance_window_end = minutes 120;
  batch_size = 1;
  batch_interval_minutes = 15;
  requested_by = "ann";
  requested_at = 100;
  authorized_by = none;
  authorized_at = none;
  canceled_by = none;
  canceled_at = none;
  cancellation_reason = none;
  created_at = 100;
  updated_at = 100;
}

abbrev pub host : Host
host = record {
  id = "h1";
  tenant_id = "t";
  hostname = "web";
  machine_id_hash = "m";
  operating_system = "Debian";
  os_family = "debian";
  os_version = "12";
  last_scan_at = none;
  deleted_at = none;
}

abbrev pub policy : AgentPolicy
policy = record { id = "p1"; tenant_id = "t"; name = "Policy" }

abbrev pub version : AgentPolicyVersion
version = record {
  id = "v1";
  tenant_id = "t";
  policy_id = "p1";
  version = 1;
  default_mode = remediate;
  control_modes = end;
  settings = end;
}

abbrev pub group : AgentGroup
group = record { id = "g1"; tenant_id = "t"; policy_id = "p1"; name = "Group" }

abbrev pub fleet : Db
fleet = record {
  hosts = host ∷ [];
  reports =
      record { id = "r1"; tenant_id = "t"; host_id = "h1"; generated_at = 1000; received_at = 1000 }
      ∷ [];
  findings = finding ∷ [];
  policies = policy ∷ [];
  policy_versions = version ∷ [];
  groups = group ∷ [];
  agents = agent ∷ [];
  command_keys = command_key ∷ [];
  change_keys = change_key ∷ [];
  plans = plan ∷ [];
  change_sets = change_set ∷ [];
  plan_links =
      record {
        id = "l1";
        tenant_id = "t";
        change_set_id = "cs1";
        plan_id = "pl1";
        created_at = 100;
      }
      ∷ [];
  target_links =
      record {
        id = "l2";
        tenant_id = "t";
        change_set_id = "cs1";
        host_id = "h1";
        agent_id = "a1";
        rollout_phase = "canary";
        created_at = 100;
      }
      ∷ [];
  validation_jobs = [];
  checkpoint_jobs = [];
  verification_jobs = [];
  audit_events = [];
}
