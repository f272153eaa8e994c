-- ===== src/Delivery/VerificationReceipt.antt =====
-- The answer to a verification job (apps/api/lsa/api/agents.py): `submit_recovery_verification_receipt`.
use lsa.Base.{
  ℕ, String, Bool, true, false, ◌&&◌, ◌||◌, not, List, [], ◌∷◌, Option, none, some, ◌==◌, string_eq,
  nat_eq, option_eq, all, any, find, update_first, length, Result, http, key_error, ◌>>=◌, ◌>>◌,
  raise_if, require, or_raise, for_each, if◌then◌else◌, pos,
}
use lsa.Json.{
  Json, Fields, end, field, str, int, bool, dict, get, is_null, is_some, truthy, text_is, as_dicts,
  as_text, py_eq, opt_text, opt_num, last_by,
}
use lsa.Library.{Library, Moment, digest_of}
use lsa.Schema.Fleet.{LinuxAgent}
use lsa.Schema.Jobs.{
  Job, is_delivered, has_receipt, RemediationCheckpointJob, RemediationRecoveryVerificationJob,
}
use lsa.Schema.Database.{Db, AuditEvent, add_event, get_checkpoint_job}
use lsa.Signing.{verify_signature}
use lsa.Receipts.{validate_recovery_plan}
use lsa.Delivery.Control.{Response, touched, signed_control_response}
use lsa.Delivery.Checkpoint.{require_verification_agent}
use lsa.Delivery.Receipt.{receipt_status, status_text, dicts_in}
use lsa.Delivery.CheckpointReceipt.{is_prepared_in_time, says_nothing}

-- `RemediationRecoveryVerificationResult`
pub record VerificationResult : Type 0 where
  pub checkpoint_id : String
  pub source_state : String
  pub is_blocked : Bool
  pub encrypted_blob_digest : Option String
  pub encrypted_size_bytes : Option ℕ
  pub error : Option String

-- `RemediationRecoveryVerificationReceiptSubmission`
pub record VerificationSubmission : Type 0 where
  pub receipt : Fields
  pub verified_at : Moment
  pub verification_results : List VerificationResult
  pub signature : String

abbrev pub repeats_verification : List VerificationResult → Bool
repeats_verification [] = false
repeats_verification (r ∷ rs) =
    any (λ (q : VerificationResult). q.checkpoint_id == r.checkpoint_id) rs
    || repeats_verification rs

-- `set(received) == set(expected)`
abbrev pub verifies_all : List VerificationResult → List Fields → Bool
verifies_all results entries =
    all
      (λ (r : VerificationResult).
        any (λ entry. text_is r.checkpoint_id (get "checkpoint_id" entry)) entries)
      results
    && all
        (λ entry.
          any (λ (r : VerificationResult). text_is r.checkpoint_id (get "checkpoint_id" entry))
            results)
        entries

-- The results in the receipt of the checkpoint; none where there is no checkpoint or no receipt.
abbrev pub recorded_results : Option RemediationCheckpointJob → List Fields
recorded_results none = []
recorded_results (some checkpoint) = elim checkpoint.job.receipt [
  | none ↦ []
  | some receipt ↦ dicts_in (get "checkpoint_results" receipt)
]

-- `checkpoint_results.get(checkpoint_id, {})`
abbrev pub recorded_result : String → List Fields → Fields
recorded_result id results = elim (last_by "checkpoint_id" id results) [
  | none ↦ end
  | some result ↦ result
]

-- The digest and size that were recorded when the checkpoint was taken.
abbrev pub is_recorded_blob : VerificationResult → Fields → Bool
is_recorded_blob r recorded =
    py_eq (opt_text r.encrypted_blob_digest) (get "encrypted_blob_digest" recorded)
    && py_eq (opt_num r.encrypted_size_bytes) (get "encrypted_size_bytes" recorded)

abbrev pub names_blob : VerificationResult → Bool
names_blob r = is_some r.encrypted_blob_digest || is_some r.encrypted_size_bytes

-- The checks on one result, in their order.
abbrev pub check_verification : List Fields → List Fields → VerificationResult → Result (Unit {0})
check_verification entries recorded r = do
  entry ← or_raise (last_by "checkpoint_id" r.checkpoint_id entries) key_error
  require (text_is r.source_state (get "source_state" entry))
      (http 409 "Recovery verification source binding is invalid")
  raise_if (r.is_blocked && (names_blob r || says_nothing r.error))
      (http 409 "Blocked recovery verification evidence is invalid")
  raise_if (not r.is_blocked && is_some r.error) (http 409 "Verified recovery evidence is invalid")
  raise_if
      (r.source_state == "regular_file"
        && not r.is_blocked
        && not (is_recorded_blob r (recorded_result r.checkpoint_id recorded)))
      (http 409 "Encrypted checkpoint verification evidence is invalid")
  raise_if (r.source_state == "absent" && names_blob r)
      (http 409 "Absent-source verification evidence is invalid")

abbrev pub check_verdict_of : Fields → List VerificationResult → Result (Unit {0})
check_verdict_of receipt results = do
  raise_if
      (text_is "ready" (get "status" receipt)
        && (not (text_is "verified" (get "verification_state" receipt))
            || any (λ (r : VerificationResult). r.is_blocked) results
            || not (is_null (get "error" receipt))))
      (http 409 "Ready recovery verification receipt is incomplete")
  raise_if
      (text_is "blocked" (get "status" receipt)
        && (not (text_is "blocked" (get "verification_state" receipt))
            || not (truthy (get "error" receipt))
            || not (any (λ (r : VerificationResult). r.is_blocked) results)))
      (http 409 "Blocked recovery verification receipt lacks failure evidence")

abbrev pub is_verification_for : LinuxAgent → String → RemediationRecoveryVerificationJob → Bool
is_verification_for agent id row =
    row.job.id == id && row.job.agent_id == agent.id && row.job.tenant_id == agent.tenant_id

abbrev pub is_known_receipt : Job → VerificationSubmission → Bool
is_known_receipt job s = elim job.receipt [
  | none ↦ false
  | some old ↦ py_eq (dict old) (dict s.receipt) && job.receipt_signature == some s.signature
]

abbrev pub verified_job : ℕ → VerificationSubmission → Job → Job
verified_job now s job = record job {
  status = receipt_status s.receipt;
  receipt = some s.receipt;
  receipt_signature = some s.signature;
  error = as_text (get "error" s.receipt);
  completed_at = some now;
}

abbrev verification_answer : Job → Json → Fields
verification_answer job status =
    field "verification_job_id" (str job.id)
      (field "status" status (field "accepted" (bool true) end))

abbrev verification_event :
    LinuxAgent → RemediationRecoveryVerificationJob → VerificationSubmission → AuditEvent
verification_event agent row s = record {
  tenant_id = row.job.tenant_id;
  actor_type = "agent";
  actor_id = some agent.id;
  action =
      if text_is "ready" (get "status" s.receipt)
      then "remediation_recovery_verification.ready"
      else "remediation_recovery_verification.blocked";
  target_type = "remediation_recovery_verification_job";
  target_id = row.job.id;
  details = field "change_set_id" (str row.job.change_set_id) (
      field "checkpoint_job_id" (str row.checkpoint_job_id) (
        field "verification_count" (int (pos (length s.verification_results)))
          (field "changes_applied" (bool false) end)));
}

module _ (L : Library) where
  abbrev pub is_verification_bound :
      LinuxAgent → RemediationRecoveryVerificationJob → VerificationSubmission → Bool
  is_verification_bound agent row s =
      digest_of L (dict row.job.contract) == row.job.contract_digest
      && validate_recovery_plan L row.job.contract row.recovery_plan
      && text_is row.job.id (get "verification_job_id" s.receipt)
      && text_is row.checkpoint_job_id (get "checkpoint_job_id" s.receipt)
      && text_is row.validation_job_id (get "validation_id" s.receipt)
      && text_is row.job.change_set_id (get "change_set_id" s.receipt)
      && text_is row.job.contract_digest (get "contract_digest" s.receipt)
      && text_is row.checkpoint_journal_digest (get "checkpoint_journal_digest" s.receipt)
      && text_is row.job.agent_id (get "agent_id" s.receipt)
      && text_is row.job.host_id (get "host_id" s.receipt)
      && verify_signature L agent.public_key s.receipt s.signature

  unfoldable pub check_verification_receipt :
      Db
      → ℕ
      → LinuxAgent
      → RemediationRecoveryVerificationJob
      → VerificationSubmission
      → Result (Unit {0})
  check_verification_receipt db now agent row s = do
    require (is_delivered row.job.status)
        (http 409 "Recovery verification job is not awaiting a receipt")
    require (is_verification_bound agent row s)
        (http 409 "Recovery verification receipt trust binding is invalid")
    require (is_prepared_in_time db now row.job s.verified_at)
        (http 409 "Recovery verification time is outside its contract")
    entries ← or_raise (as_dicts (get "entries" row.recovery_plan)) key_error
    let recorded = recorded_results (get_checkpoint_job db row.checkpoint_job_id)
    raise_if
        (repeats_verification s.verification_results
          || not (verifies_all s.verification_results entries))
        (http 409 "Recovery verification coverage is invalid")
    for_each (check_verification entries recorded) s.verification_results
    check_verdict_of s.receipt s.verification_results

  unfoldable pub answer_verification_again :
      ℕ → LinuxAgent → Job → VerificationSubmission → Db → Result (Response × Db)
  answer_verification_again now agent job s db = do
    require (is_known_receipt job s)
        (http 409 "Recovery verification job already has another receipt")
    signed_control_response L now agent "remediation-recovery-verification-receipt"
        (verification_answer job (status_text L job.status)) db

  unfoldable pub accept_verification :
      ℕ
      → LinuxAgent
      → String
      → RemediationRecoveryVerificationJob
      → VerificationSubmission
      → Db
      → Result (Response × Db)
  accept_verification now agent id row s db = do
    check_verification_receipt db now agent row s
    signed_control_response L now agent "remediation-recovery-verification-receipt"
        (verification_answer row.job (get "status" s.receipt))
        (add_event (verification_event agent row s) (
          touched now agent (record db {
            verification_jobs =
                update_first (is_verification_for agent id)
                  (λ r. record r { job = verified_job now s r.job }) db.verification_jobs;
          })))

  unfoldable pub submit_recovery_verification_receipt :
      ℕ → LinuxAgent → String → VerificationSubmission → Db → Result (Response × Db)
  submit_recovery_verification_receipt now agent id s db = do
    require_verification_agent agent
    row ←
        or_raise (find (is_verification_for agent id) db.verification_jobs)
          (http 404 "Recovery verification job not found")
    if has_receipt row.job.status
        then answer_verification_again now agent row.job s db
        else accept_verification now agent id row s db
