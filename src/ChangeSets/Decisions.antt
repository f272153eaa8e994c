-- ===== src/ChangeSets/Decisions.antt =====
-- `authorize_change_set` and `cancel_change_set`.
use lsa.Base.{
  concat, ℕ, String, Bool, false, ◌&&◌, none, some, ◌==◌, string_eq, all, find, update,
  update_first, Result, ok, http, catalog_409, on_error, ◌>>=◌, ◌>>◌, raise_if, require, or_raise,
  if◌then◌else◌,
}
use lsa.Json.{Fields, end, field, str, bool}
use lsa.Library.{Library}
use lsa.Schema.Fleet.{User, PlatformChangeSigningKey}
use lsa.Schema.ChangeSets.{
  ChangeSetStatus, RemediationChangeSet, authorized, is_pending, is_canceled,
}
use lsa.Schema.Jobs.{
  Job, JobStatus, RemediationValidationJob, RemediationCheckpointJob,
  RemediationRecoveryVerificationJob, in_flight,
}
use lsa.Schema.ChangeSets as CS
use lsa.Schema.Jobs as J
use lsa.Schema.Database.{Db, AuditEvent, add_event}
use lsa.Signing.{active_change_signing_key, sign_change_set}
use lsa.Plans.{require_admin}
use lsa.ChangeSets.Gates.{Gate, blocked_labels, readiness_gates}

-- `_change_set`
abbrev pub is_set_of : User → String → RemediationChangeSet → Bool
is_set_of user id cs = cs.id == id && cs.tenant_id == user.tenant_id

abbrev pub change_set_of : Db → User → String → Result RemediationChangeSet
change_set_of db user id =
    or_raise (find (is_set_of user id) db.change_sets) (http 404 "Remediation change set not found")

abbrev pub event : User → String → String → String → Fields → AuditEvent
event user action target_type target_id details = record {
  tenant_id = user.tenant_id;
  actor_type = "user";
  actor_id = some user.id;
  action = action;
  target_type = target_type;
  target_id = target_id;
  details = details;
}

-- The event of a signing key that was created on the way.
abbrev key_event : User → PlatformChangeSigningKey → AuditEvent
key_event user key = record {
  tenant_id = user.tenant_id;
  actor_type = "system";
  actor_id = none;
  action = "remediation_change_signing_key.created";
  target_type = "platform_change_signing_key";
  target_id = key.id;
  details = field "fingerprint" (str key.fingerprint) end;
}

unfoldable pub keyed : User → PlatformChangeSigningKey × Bool × Db → Db
keyed user (key, created, db) = if created then add_event (key_event user key) db else db

abbrev pub authorized_row :
    User → ℕ → String → PlatformChangeSigningKey → RemediationChangeSet → RemediationChangeSet
authorized_row user now signature key cs = record cs {
  signature = some signature;
  signing_key_id = some key.id;
  status = authorized;
  authorized_by = some user.id;
  authorized_at = some now;
  updated_at = now;
}

module _ (L : Library) where
  -- The gates are computed at `now`; the decision is dated by a later reading of the clock.
  unfoldable pub authorize_change_set :
      PlatformChangeSigningKey → ℕ → ℕ → User → String → Db → Result Db
  authorize_change_set generated now later user id db = do
    require_admin user
    cs ← change_set_of db user id
    require (is_pending cs.status) (http 409 "Only a pending change set can be authorized")
    gates ← on_error catalog_409 (readiness_gates L db now cs (some user))
    require (all (λ (g : Gate). g.passed) gates)
        (http 409 (concat "Change set readiness gates are blocked: " (blocked_labels gates)))
    let signer = active_change_signing_key generated db user.tenant_id
    signature ← sign_change_set L signer.0 cs.payload
    let with_key = keyed user signer
    ok (
        add_event
          (event user "remediation_change_set.authorized" "remediation_change_set" cs.id (
            field "digest" (str cs.digest) (
              field "signing_key_fingerprint" (str signer.0.fingerprint)
                (field "execution_enabled" (bool false) end))))
          (record with_key {
            change_sets =
                update_first (is_set_of user id) (authorized_row user later signature signer.0)
                  with_key.change_sets;
          }))

abbrev pub canceled_row : User → ℕ → String → RemediationChangeSet → RemediationChangeSet
canceled_row user now reason cs = record cs {
  status = CS.canceled;
  canceled_by = some user.id;
  canceled_at = some now;
  cancellation_reason = some reason;
  updated_at = now;
}

-- The jobs that a cancellation ends, and how.
abbrev pub is_ended : String → Job → Bool
is_ended id job = job.change_set_id == id && in_flight job.status

abbrev pub ended : ℕ → String → Job → Job
ended now error job = record job {
  status = J.canceled;
  completed_at = some now;
  error = some error;
}

abbrev pub end_validation : ℕ → RemediationValidationJob → RemediationValidationJob
end_validation now j = record {
  job = ended now "Parent change set was canceled before validation completed" j.job;
}

abbrev pub end_checkpoint : ℕ → RemediationCheckpointJob → RemediationCheckpointJob
end_checkpoint now j = record j {
  job = ended now "Parent change set was canceled before checkpointing completed" j.job;
}

abbrev pub end_verification :
    ℕ → RemediationRecoveryVerificationJob → RemediationRecoveryVerificationJob
end_verification now j = record j {
  job = ended now "Parent change set was canceled before recovery verification completed" j.job;
}

module _ (L : Library) where
  unfoldable pub cancel_change_set : ℕ → User → String → String → Db → Result Db
  cancel_change_set now user id reason db = do
    require_admin user
    cs ← change_set_of db user id
    raise_if (is_canceled cs.status) (http 409 "Change set is already canceled")
    let reason = L.strip reason
    ok (
        add_event
          (event user "remediation_change_set.canceled" "remediation_change_set" cs.id
            (field "reason" (str reason) (field "execution_enabled" (bool false) end)))
          (record db {
            change_sets =
                update_first (is_set_of user id) (canceled_row user now reason) db.change_sets;
            validation_jobs =
                update (λ j. is_ended cs.id j.job) (end_validation now) db.validation_jobs;
            checkpoint_jobs =
                update (λ j. is_ended cs.id j.job) (end_checkpoint now) db.checkpoint_jobs;
            verification_jobs =
                update (λ j. is_ended cs.id j.job) (end_verification now) db.verification_jobs;
          }))
