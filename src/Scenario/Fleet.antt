-- ===== src/Scenario/Fleet.antt =====
-- The rows of the small fleet: a host with a finding, its agent, the keys and an approved plan.
use lsa.Base.{true, false, [], ◌∷◌, none, some, string_eq}
use lsa.Json.{end, dict}
use lsa.Schema.Fleet.{User, LinuxAgent, PlatformCommandSigningKey, PlatformChangeSigningKey}
use lsa.Schema.Findings.{Finding, failed}
use lsa.Schema.Plans.{RemediationPlan, approved}

abbrev pub admin : User
admin = record { id = "eve"; tenant_id = "t"; role = "admin"; display_name = "Eve" }

abbrev pub finding : Finding
finding = record {
  id = "f1";
  tenant_id = "t";
  host_id = "h1";
  report_id = "r1";
  control_id = "ssh-1";
  category = "ssh";
  title = "Root login";
  severity = "high";
  status = failed;
  lifecycle = "new";
  expected = some "no";
  actual = some "yes";
  evidence = [];
  remediation_summary = none;
  reboot_required = false;
  service_restart = true;
}

abbrev pub plan : RemediationPlan
plan = record {
  id = "pl1";
  tenant_id = "t";
  finding_id = "f0";
  active_finding_id = some "f0";
  host_id = "h1";
  report_id = "r1";
  control_id = "ssh-1";
  title = "Root login";
  category = "ssh";
  severity = "high";
  current_state = some "yes";
  required_state = some "no";
  remediation_summary = "Edit the file";
  affected_paths = [];
  action_id = some "linux.ssh";
  action_version = some 1;
  action_digest = some "digest";
  action_snapshot = some (dict end);
  action_catalog_status = "matched";
  reboot_required = false;
  service_restart = true;
  rationale = none;
  status = approved;
  version = 2;
  requested_by = "ann";
  requested_at = 10;
  approved_by = some "bob";
  approved_at = some 20;
  rejected_by = none;
  rejected_at = none;
  rejection_reason = none;
  canceled_by = none;
  canceled_at = none;
  cancellation_reason = none;
  created_at = 10;
  updated_at = 20;
}

abbrev pub agent : LinuxAgent
agent = record {
  id = "a1";
  tenant_id = "t";
  host_id = "h1";
  group_id = "g1";
  name = "agent";
  public_key = "key";
  fingerprint = "print";
  agent_version = "0.9";
  capabilities =
      "signed-platform-control-v1" ∷ "remediation-contract-validation-v1" ∷ "remediation-dry-run-v1"
      ∷ "signed-change-set-planning-v1" ∷ "remediation-checkpoint-v1"
      ∷ "remediation-recovery-planning-v1" ∷ "remediation-recovery-verification-v1" ∷ [];
  capabilities_attested_at = some 1000;
  platform_command_key_id = some "k1";
  platform_command_key_fingerprint = some "kprint";
  pending_platform_command_key_id = none;
  pending_platform_command_key_fingerprint = none;
  platform_envelope_sequence = 7;
  last_seen_at = none;
  revoked_at = none;
}

abbrev pub change_key : PlatformChangeSigningKey
change_key = record {
  id = "c1";
  tenant_id = "t";
  name = "Authority";
  public_key = "key";
  private_key_ciphertext = "secret";
  fingerprint = "cprint";
  revoked_at = none;
  created_at = 0;
}

abbrev pub command_key : PlatformCommandSigningKey
command_key = record {
  id = "k1";
  tenant_id = "t";
  key_version = 1;
  public_key = "key";
  private_key_ciphertext = "secret";
  fingerprint = "kprint";
  status = "active";
  supersedes_key_id = none;
  created_at = 0;
  revoked_at = none;
}
