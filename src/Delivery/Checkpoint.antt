-- ===== src/Delivery/Checkpoint.antt =====
-- `next_remediation_checkpoint` and `next_recovery_verification` (apps/api/lsa/api/agents.py): the next
-- checkpoint job and the next verification job of an agent.
use lsa.Base.{
  ℕ, String, Bool, false, ◌&&◌, [], ◌∷◌, Option, none, some, ◌==◌, string_eq, contains, Result,
  http, ◌>>◌, require,
}
use lsa.Json.{Fields, end, field, null, str, dict, get, text_is, subset}
use lsa.Library.{Library, digest_of}
use lsa.Schema.Fleet.{LinuxAgent}
use lsa.Schema.Jobs.{Job, is_ready, RemediationCheckpointJob, RemediationRecoveryVerificationJob}
use lsa.Schema.Database.{Db, get_change_set, get_checkpoint_job}
use lsa.Receipts.{validate_recovery_plan}
use lsa.Delivery.{next_job}
use lsa.Delivery.Control.{Response, touched, signed_control_response}
use lsa.Delivery.Validation.{require_validation_agent, is_open}

-- `_require_remediation_checkpoint_agent`
abbrev pub require_checkpoint_agent : LinuxAgent → Result (Unit {0})
require_checkpoint_agent agent = do
  require_validation_agent agent
  require
      (subset ("remediation-recovery-planning-v1" ∷ "remediation-checkpoint-v1" ∷ [])
        agent.capabilities)
      (http 409 "Agent has not attested encrypted remediation checkpoint support")

-- `_require_recovery_verification_agent`
abbrev pub require_verification_agent : LinuxAgent → Result (Unit {0})
require_verification_agent agent = do
  require_checkpoint_agent agent
  require (contains agent.capabilities "remediation-recovery-verification-v1")
      (http 409 "Agent has not attested encrypted recovery verification support")

abbrev pub checkpoint_of : RemediationCheckpointJob → Job
checkpoint_of row = row.job

abbrev pub with_checkpoint : RemediationCheckpointJob → Job → RemediationCheckpointJob
with_checkpoint row job = record row { job = job }

abbrev pub verification_of : RemediationRecoveryVerificationJob → Job
verification_of row = row.job

abbrev pub with_verification :
    RemediationRecoveryVerificationJob → Job → RemediationRecoveryVerificationJob
with_verification row job = record row { job = job }

-- A receipt of a ready checkpoint that names the journal.
abbrev pub names_journal : String → Option Fields → Bool
names_journal digest none = false
names_journal digest (some receipt) = text_is digest (get "journal_digest" receipt)

abbrev pub rests_on : String → Option RemediationCheckpointJob → Bool
rests_on digest none = false
rests_on digest (some checkpoint) =
    is_ready checkpoint.job.status && names_journal digest checkpoint.job.receipt

module _ (L : Library) where
  -- What the two loops both ask of a job and its recovery plan.
  abbrev pub is_current : Db → ℕ → Job → Fields → Bool
  is_current db now job plan =
      is_open now (get_change_set db job.change_set_id)
      && digest_of L (dict job.contract) == job.contract_digest
      && validate_recovery_plan L job.contract plan
      && text_is "ready" (get "status" plan)

  abbrev pub checkpoint_is_due : Db → ℕ → RemediationCheckpointJob → Bool
  checkpoint_is_due db now row = is_current db now row.job row.recovery_plan

  abbrev pub verification_is_due : Db → ℕ → RemediationRecoveryVerificationJob → Bool
  verification_is_due db now row =
      is_current db now row.job row.recovery_plan
      && rests_on row.checkpoint_journal_digest (get_checkpoint_job db row.checkpoint_job_id)

  abbrev pub checkpoint_payload : Option RemediationCheckpointJob → Fields
  checkpoint_payload none = field "checkpoint" null end
  checkpoint_payload (some row) =
      field "checkpoint"
        (dict (
          field "checkpoint_job_id" (str row.job.id) (
            field "validation_id" (str row.validation_job_id) (
              field "change_set_id" (str row.job.change_set_id) (
                field "contract_digest" (str row.job.contract_digest) (
                  field "contract" (dict row.job.contract)
                    (field "recovery_plan" (dict row.recovery_plan) end)))))))
        end

  abbrev pub verification_payload : Option RemediationRecoveryVerificationJob → Fields
  verification_payload none = field "verification" null end
  verification_payload (some row) =
      field "verification"
        (dict (
          field "verification_job_id" (str row.job.id) (
            field "checkpoint_job_id" (str row.checkpoint_job_id) (
              field "validation_id" (str row.validation_job_id) (
                field "change_set_id" (str row.job.change_set_id) (
                  field "contract_digest" (str row.job.contract_digest) (
                    field "contract" (dict row.job.contract) (
                      field "recovery_plan" (dict row.recovery_plan) (
                        field "checkpoint_journal_digest" (str row.checkpoint_journal_digest)
                          end)))))))))
        end

  unfoldable pub next_remediation_checkpoint : ℕ → LinuxAgent → Db → Result (Response × Db)
  next_remediation_checkpoint now agent db = do
    require_checkpoint_agent agent
    let (selected, rows) =
        next_job checkpoint_of with_checkpoint (checkpoint_is_due db now) now
          "Checkpoint contract is no longer eligible for delivery" agent.id agent.tenant_id
          db.checkpoint_jobs
    signed_control_response L now agent "remediation-checkpoint" (checkpoint_payload selected)
        (touched now agent (record db { checkpoint_jobs = rows }))

  unfoldable pub next_recovery_verification : ℕ → LinuxAgent → Db → Result (Response × Db)
  next_recovery_verification now agent db = do
    require_verification_agent agent
    let (selected, rows) =
        next_job verification_of with_verification (verification_is_due db now) now
          "Recovery verification contract is no longer eligible for delivery" agent.id
          agent.tenant_id db.verification_jobs
    signed_control_response L now agent "remediation-recovery-verification"
        (verification_payload selected) (touched now agent (record db { verification_jobs = rows }))
