-- ===== src/Schema/Database.antt =====
-- The database: each table as the list of its rows, and the audit ledger.
use lsa.Base.{String, Option, List, [], ◌∷◌, ◌++◌, find, ◌==◌, string_eq}
use lsa.Json.{Fields}
use lsa.Schema.Fleet.{
  Host, AgentPolicy, AgentPolicyVersion, AgentGroup, LinuxAgent, PlatformCommandSigningKey,
  PlatformChangeSigningKey,
}
use lsa.Schema.Findings.{Report, Finding}
use lsa.Schema.Plans.{RemediationPlan}
use lsa.Schema.ChangeSets.{
  RemediationChangeSet, RemediationChangeSetPlan, RemediationChangeSetTarget,
}
use lsa.Schema.Jobs.{
  RemediationValidationJob, RemediationCheckpointJob, RemediationRecoveryVerificationJob,
}

pub record AuditEvent : Type 0 where
  pub tenant_id : String
  pub actor_type : String
  pub actor_id : Option String
  pub action : String
  pub target_type : String
  pub target_id : String
  pub details : Fields

pub record Db : Type 0 where
  pub hosts : List Host
  pub reports : List Report
  pub findings : List Finding
  pub policies : List AgentPolicy
  pub policy_versions : List AgentPolicyVersion
  pub groups : List AgentGroup
  pub agents : List LinuxAgent
  pub command_keys : List PlatformCommandSigningKey
  pub change_keys : List PlatformChangeSigningKey
  pub plans : List RemediationPlan
  pub change_sets : List RemediationChangeSet
  pub plan_links : List RemediationChangeSetPlan
  pub target_links : List RemediationChangeSetTarget
  pub validation_jobs : List RemediationValidationJob
  pub checkpoint_jobs : List RemediationCheckpointJob
  pub verification_jobs : List RemediationRecoveryVerificationJob
  pub audit_events : List AuditEvent

-- `db.get(Table, id)`
abbrev pub get_host : Db → String → Option Host
get_host db key = find (λ row. row.id == key) db.hosts

abbrev pub get_report : Db → String → Option Report
get_report db key = find (λ row. row.id == key) db.reports

abbrev pub get_policy : Db → String → Option AgentPolicy
get_policy db key = find (λ row. row.id == key) db.policies

abbrev pub get_group : Db → String → Option AgentGroup
get_group db key = find (λ row. row.id == key) db.groups

abbrev pub get_agent : Db → String → Option LinuxAgent
get_agent db key = find (λ row. row.id == key) db.agents

abbrev pub get_command_key : Db → String → Option PlatformCommandSigningKey
get_command_key db key = find (λ row. row.id == key) db.command_keys

abbrev pub get_change_key : Db → String → Option PlatformChangeSigningKey
get_change_key db key = find (λ row. row.id == key) db.change_keys

abbrev pub get_plan : Db → String → Option RemediationPlan
get_plan db key = find (λ row. row.id == key) db.plans

abbrev pub get_change_set : Db → String → Option RemediationChangeSet
get_change_set db key = find (λ row. row.id == key) db.change_sets

abbrev pub get_checkpoint_job : Db → String → Option RemediationCheckpointJob
get_checkpoint_job db key = find (λ row. row.id == key) db.checkpoint_jobs

-- `db.add(AuditEvent(…))`
abbrev pub add_event : AuditEvent → Db → Db
add_event event db = record db { audit_events = db.audit_events ++ (event ∷ []) }
