-- ===== src/ChangeSets/Jobs.antt =====
-- The jobs below a change set: `queue_validation_job`, `queue_checkpoint_job` and
-- `queue_recovery_verification_job`. A new job's identifier is an argument.
use Prim.Native.String.{count}
use lsa.Base.{
  ℕ, String, Bool, false, ◌&&◌, not, [], ◌∷◌, ◌++◌, Option, none, some, leb, ◌==◌, string_eq,
  nat_eq, contains, any, find, Result, ok, http, ◌>>=◌, ◌>>◌, require, or_raise, if◌then◌else◌,
}
use lsa.Json.{Fields, end, field, str, bool, dict, get, as_dict, as_text, text_is}
use lsa.Library.{Library, digest_of}
use lsa.Schema.Fleet.{User, LinuxAgent}
use lsa.Schema.ChangeSets.{RemediationChangeSet, is_authorized}
use lsa.Schema.Jobs.{
  Job, queued, in_flight, is_live, is_ready, RemediationValidationJob, RemediationCheckpointJob,
  RemediationRecoveryVerificationJob,
}
use lsa.Schema.Database.{Db, add_event, get_agent}
use lsa.Receipts.{validate_recovery_plan}
use lsa.Plans.{require_admin}
use lsa.ChangeSets.Decisions.{change_set_of, event}
use lsa.ChangeSets.Contracts.{validation_contract_for_agent}

abbrev pub queued_job :
    String → String → String → String → String → Fields → String → User → ℕ → Job
queued_job id tenant_id change_set_id host_id agent_id contract digest user now = record {
  id = id;
  tenant_id = tenant_id;
  change_set_id = change_set_id;
  host_id = host_id;
  agent_id = agent_id;
  status = queued;
  contract = contract;
  contract_digest = digest;
  requested_by = user.id;
  requested_at = now;
  delivered_at = none;
  lease_expires_at = none;
  completed_at = none;
  receipt = none;
  receipt_signature = none;
  error = none;
}

-- The query for a job of the change set and the agent that is still under way.
abbrev pub is_under_way : String → String → RemediationValidationJob → Bool
is_under_way change_set_id agent_id j =
    j.job.change_set_id == change_set_id && j.job.agent_id == agent_id && in_flight j.job.status

-- A checkpoint job of the validation that is under way or done.
abbrev pub is_checkpoint_of : String → RemediationCheckpointJob → Bool
is_checkpoint_of validation_id j = j.validation_job_id == validation_id && is_live j.job.status

abbrev pub is_verification_of : String → RemediationRecoveryVerificationJob → Bool
is_verification_of checkpoint_id j = j.checkpoint_job_id == checkpoint_id && is_live j.job.status

abbrev pub is_validation_of : User → RemediationChangeSet → String → RemediationValidationJob → Bool
is_validation_of user cs validation_id j =
    j.job.id == validation_id && j.job.change_set_id == cs.id && j.job.tenant_id == user.tenant_id

abbrev pub is_checkpoint_job :
    User → RemediationChangeSet → String → RemediationCheckpointJob → Bool
is_checkpoint_job user cs checkpoint_job_id j =
    j.job.id == checkpoint_job_id
    && j.job.change_set_id == cs.id
    && j.job.tenant_id == user.tenant_id

-- `agent is None or capability not in agent.capabilities`
abbrev pub attests : String → Option LinuxAgent → Bool
attests capability none = false
attests capability (some agent) = contains agent.capabilities capability

-- A change set that is authorized and whose window has not passed.
abbrev pub is_eligible : ℕ → RemediationChangeSet → Bool
is_eligible now cs = is_authorized cs.status && not (leb cs.maintenance_window_end now)

-- The agent's answer, if the job has ended well with one.
abbrev pub ready_receipt : Job → Option Fields
ready_receipt j = if is_ready j.status then j.receipt else none

abbrev pub ready_plan : Library → Fields → Option Fields → Option Fields
ready_plan L contract none = none
ready_plan L contract (some plan) =
    if validate_recovery_plan L contract plan && text_is "ready" (get "status" plan)
    then some plan
    else none

module _ (L : Library) where
  unfoldable pub queue_validation_job : String → ℕ → User → String → String → Db → Result Db
  queue_validation_job id now user change_set_id agent_id db = do
    require_admin user
    cs ← change_set_of db user change_set_id
    (contract, agent) ← validation_contract_for_agent L db cs user.tenant_id agent_id
    require (contains agent.capabilities "remediation-dry-run-v1")
        (http 409 "Target agent has not attested read-only remediation dry-run support")
    let digest = digest_of L (dict contract)
    let job = queued_job id user.tenant_id cs.id agent.host_id agent.id contract digest user now
    ok (
        if any (is_under_way cs.id agent.id) db.validation_jobs
        then db
        else add_event
            (event user "remediation_validation.queued" "remediation_validation_job" id (
              field "change_set_id" (str cs.id) (
                field "agent_id" (str agent.id) (
                  field "host_id" (str agent.host_id) (
                    field "contract_digest" (str digest)
                      (field "execution_enabled" (bool false) end))))))
            (record db { validation_jobs = db.validation_jobs ++ (record { job = job } ∷ []) }))

  -- The row that a checkpoint job gets from its validation job.
  abbrev pub checkpoint_row :
      String → ℕ → User → RemediationChangeSet → Job → Fields → RemediationCheckpointJob
  checkpoint_row id now user cs validation plan = record {
    job =
        queued_job id user.tenant_id cs.id validation.host_id validation.agent_id
          validation.contract validation.contract_digest user now;
    validation_job_id = validation.id;
    recovery_plan = plan;
  }

  unfoldable pub queue_checkpoint_job : String → ℕ → User → String → String → Db → Result Db
  queue_checkpoint_job id now user change_set_id validation_id db = do
    require_admin user
    cs ← change_set_of db user change_set_id
    require (is_eligible now cs) (http 409 "Change set is not eligible for checkpointing")
    found ←
        or_raise (find (is_validation_of user cs validation_id) db.validation_jobs)
          (http 409 "A successful signed preflight is required")
    receipt ←
        or_raise (ready_receipt found.job) (http 409 "A successful signed preflight is required")
    plan ←
        or_raise (ready_plan L found.job.contract (as_dict (get "recovery_plan" receipt)))
          (http 409 "Preflight has no valid ready recovery plan")
    require (attests "remediation-checkpoint-v1" (get_agent db found.job.agent_id))
        (http 409 "Target agent has not attested checkpoint support")
    ok (
        if any (is_checkpoint_of found.job.id) db.checkpoint_jobs
        then db
        else add_event
            (event user "remediation_checkpoint.queued" "remediation_checkpoint_job" id (
              field "change_set_id" (str cs.id) (
                field "validation_job_id" (str found.job.id) (
                  field "agent_id" (str found.job.agent_id) (
                    field "storage_scope" (str "agent_local_encrypted")
                      (field "execution_enabled" (bool false) end))))))
            (record db {
              checkpoint_jobs =
                  db.checkpoint_jobs ++ (checkpoint_row id now user cs found.job plan ∷ []);
            }))

  -- `isinstance(journal_digest, str) and len(journal_digest) == 64`
  abbrev journal_digest_of : Fields → Option String
  journal_digest_of receipt = elim (as_text (get "journal_digest" receipt)) [
    | none ↦ none
    | some digest ↦ if count digest == 64 then some digest else none
  ]

  abbrev verification_row :
      String
      → ℕ
      → User
      → RemediationChangeSet
      → RemediationCheckpointJob
      → String
      → RemediationRecoveryVerificationJob
  verification_row id now user cs checkpoint digest = record {
    job =
        queued_job id user.tenant_id cs.id checkpoint.job.host_id checkpoint.job.agent_id
          checkpoint.job.contract checkpoint.job.contract_digest user now;
    checkpoint_job_id = checkpoint.job.id;
    validation_job_id = checkpoint.validation_job_id;
    recovery_plan = checkpoint.recovery_plan;
    checkpoint_journal_digest = digest;
  }

  unfoldable pub queue_recovery_verification_job :
      String → ℕ → User → String → String → Db → Result Db
  queue_recovery_verification_job id now user change_set_id checkpoint_job_id db = do
    require_admin user
    cs ← change_set_of db user change_set_id
    require (is_eligible now cs) (http 409 "Change set is not eligible for recovery verification")
    found ←
        or_raise (find (is_checkpoint_job user cs checkpoint_job_id) db.checkpoint_jobs)
          (http 409 "A ready encrypted checkpoint is required")
    receipt ←
        or_raise (ready_receipt found.job) (http 409 "A ready encrypted checkpoint is required")
    digest ←
        or_raise (journal_digest_of receipt) (http 409 "Checkpoint journal evidence is invalid")
    require (attests "remediation-recovery-verification-v1" (get_agent db found.job.agent_id))
        (http 409 "Target agent has not attested recovery verification support")
    ok (
        if any (is_verification_of found.job.id) db.verification_jobs
        then db
        else add_event
            (event user "remediation_recovery_verification.queued"
              "remediation_recovery_verification_job" id
              (field "change_set_id" (str cs.id) (
                field "checkpoint_job_id" (str found.job.id) (
                  field "agent_id" (str found.job.agent_id)
                    (field "execution_enabled" (bool false) end)))))
            (record db {
              verification_jobs =
                  db.verification_jobs ++ (verification_row id now user cs found digest ∷ []);
            }))
