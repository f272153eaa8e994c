-- ===== src/Delivery/CheckpointReceipt.antt =====
-- The answer to a checkpoint job (apps/api/lsa/api/agents.py): `submit_remediation_checkpoint_receipt`, and
-- `checkpoint_journal_digest` (apps/api/lsa/services/remediation_receipts.py).
use lsa.Base.{
  ℕ, String, Bool, true, false, ◌&&◌, ◌||◌, not, List, [], ◌∷◌, Option, none, some, ◌==◌, string_eq,
  nat_eq, option_eq, all, any, find, map, update_first, length, Result, http, key_error, ◌>>=◌,
  ◌>>◌, raise_if, require, or_raise, for_each, if◌then◌else◌, pos,
}
use lsa.Json.{
  Json, Fields, end, field, str, int, bool, list, dict, items, get, is_null, is_some, truthy,
  text_is, as_dicts, as_text, py_eq, last_by,
}
use lsa.Library.{Library, Moment, digest_of}
use lsa.Schema.Fleet.{LinuxAgent}
use lsa.Schema.Jobs.{Job, is_delivered, has_receipt, RemediationCheckpointJob}
use lsa.Schema.Database.{Db, AuditEvent, add_event, get_change_set}
use lsa.Signing.{verify_signature}
use lsa.Receipts.{validate_recovery_plan}
use lsa.Delivery.Control.{Response, touched, signed_control_response}
use lsa.Delivery.Checkpoint.{require_checkpoint_agent}
use lsa.Delivery.Receipt.{receipt_status, is_timely, moment_of, status_text}

-- `RemediationCheckpointResult`: the fields that Pydantic has typed, and the whole as a document.
pub record CheckpointResult : Type 0 where
  pub checkpoint_id : String
  pub source_state : String
  pub is_blocked : Bool
  pub backup_created : Bool
  pub encrypted_blob_digest : Option String
  pub encrypted_size_bytes : Option ℕ
  pub error : Option String
  pub document : Fields

-- `RemediationCheckpointReceiptSubmission`
pub record CheckpointSubmission : Type 0 where
  pub receipt : Fields
  pub prepared_at : Moment
  pub checkpoint_results : List CheckpointResult
  pub signature : String

abbrev pub repeats_checkpoint : List CheckpointResult → Bool
repeats_checkpoint [] = false
repeats_checkpoint (r ∷ rs) =
    any (λ (q : CheckpointResult). q.checkpoint_id == r.checkpoint_id) rs || repeats_checkpoint rs

-- `set(received) == set(expected)`
abbrev pub covers : List CheckpointResult → List Fields → Bool
covers results entries =
    all
      (λ (r : CheckpointResult).
        any (λ entry. text_is r.checkpoint_id (get "checkpoint_id" entry)) entries)
      results
    && all
        (λ entry.
          any (λ (r : CheckpointResult). text_is r.checkpoint_id (get "checkpoint_id" entry))
            results)
        entries

-- `not error`
abbrev pub says_nothing : Option String → Bool
says_nothing none = true
says_nothing (some text) = text == ""

abbrev pub has_evidence : CheckpointResult → Bool
has_evidence r = is_some r.encrypted_blob_digest || is_some r.encrypted_size_bytes

-- The checks on one result, in their order.
abbrev pub check_result : List Fields → CheckpointResult → Result (Unit {0})
check_result entries r = do
  entry ← or_raise (last_by "checkpoint_id" r.checkpoint_id entries) key_error
  require (text_is r.source_state (get "source_state" entry))
      (http 409 "Checkpoint source binding is invalid")
  raise_if (r.is_blocked && (r.backup_created || has_evidence r || says_nothing r.error))
      (http 409 "Blocked checkpoint evidence is invalid")
  raise_if (not r.is_blocked && is_some r.error) (http 409 "Ready checkpoint evidence is invalid")
  raise_if
      (r.source_state == "regular_file"
        && not r.is_blocked
        && (not r.backup_created
            || not (is_some r.encrypted_blob_digest)
            || not (is_some r.encrypted_size_bytes)))
      (http 409 "Regular-file checkpoint evidence is incomplete")
  raise_if (r.source_state == "absent" && (r.backup_created || has_evidence r))
      (http 409 "Absent-file checkpoint evidence is invalid")

abbrev pub check_status : Fields → List CheckpointResult → Result (Unit {0})
check_status receipt results = do
  raise_if
      (text_is "ready" (get "status" receipt)
        && (not (text_is "checkpointed" (get "journal_state" receipt))
            || any (λ (r : CheckpointResult). r.is_blocked) results
            || not (is_null (get "error" receipt))))
      (http 409 "Ready checkpoint receipt is incomplete")
  raise_if
      (text_is "blocked" (get "status" receipt)
        && (not (text_is "blocked" (get "journal_state" receipt))
            || not (truthy (get "error" receipt))
            || not (any (λ (r : CheckpointResult). r.is_blocked) results)))
      (http 409 "Blocked checkpoint receipt lacks failure evidence")

-- The time check, which also refuses a time without a zone.
abbrev pub is_prepared_in_time : Db → ℕ → Job → Moment → Bool
is_prepared_in_time db now job prepared_at = elim (moment_of prepared_at) [
  | none ↦ false
  | some t ↦ is_timely now t job.delivered_at (get_change_set db job.change_set_id)
]

abbrev pub is_checkpoint_for : LinuxAgent → String → RemediationCheckpointJob → Bool
is_checkpoint_for agent id row =
    row.job.id == id && row.job.agent_id == agent.id && row.job.tenant_id == agent.tenant_id

abbrev pub is_stored : Job → CheckpointSubmission → Bool
is_stored job s = elim job.receipt [
  | none ↦ false
  | some old ↦ py_eq (dict old) (dict s.receipt) && job.receipt_signature == some s.signature
]

abbrev pub checkpointed_job : ℕ → CheckpointSubmission → Job → Job
checkpointed_job now s job = record job {
  status = receipt_status s.receipt;
  receipt = some s.receipt;
  receipt_signature = some s.signature;
  error = as_text (get "error" s.receipt);
  completed_at = some now;
}

abbrev checkpoint_receipt_payload : Job → Json → Fields
checkpoint_receipt_payload job status =
    field "checkpoint_job_id" (str job.id)
      (field "status" status (field "accepted" (bool true) end))

abbrev checkpoint_event : LinuxAgent → RemediationCheckpointJob → CheckpointSubmission → AuditEvent
checkpoint_event agent row s = record {
  tenant_id = row.job.tenant_id;
  actor_type = "agent";
  actor_id = some agent.id;
  action =
      if text_is "ready" (get "status" s.receipt)
      then "remediation_checkpoint.ready"
      else "remediation_checkpoint.blocked";
  target_type = "remediation_checkpoint_job";
  target_id = row.job.id;
  details = field "change_set_id" (str row.job.change_set_id) (
      field "validation_job_id" (str row.validation_job_id) (
        field "journal_state" (get "journal_state" s.receipt) (
          field "checkpoint_count" (int (pos (length s.checkpoint_results))) (
            field "storage_scope" (str "agent_local_encrypted")
              (field "changes_applied" (bool false) end)))));
}

module _ (L : Library) where
  abbrev pub checkpoint_journal_digest :
      String → String → String → Fields → Json → List Fields → Json → String
  checkpoint_journal_digest id validation_id contract_digest plan state results error =
      digest_of L (
        dict (
          field "schema_version" (str "1.0") (
            field "kind" (str "remediation-checkpoint-journal") (
              field "checkpoint_job_id" (str id) (
                field "validation_id" (str validation_id) (
                  field "contract_digest" (str contract_digest) (
                    field "recovery_plan_digest" (str (digest_of L (dict plan))) (
                      field "recovery_plan" (dict plan) (
                        field "state" state (
                          field "checkpoint_results" (list (items (map (λ r. dict r) results))) (
                            field "error" error (
                              field "execution_enabled" (bool false)
                                (field "changes_applied" (bool false) end)))))))))))))

  abbrev pub is_checkpoint_bound :
      LinuxAgent → RemediationCheckpointJob → CheckpointSubmission → Bool
  is_checkpoint_bound agent row s =
      digest_of L (dict row.job.contract) == row.job.contract_digest
      && validate_recovery_plan L row.job.contract row.recovery_plan
      && text_is row.job.id (get "checkpoint_job_id" s.receipt)
      && text_is row.validation_job_id (get "validation_id" s.receipt)
      && text_is row.job.change_set_id (get "change_set_id" s.receipt)
      && text_is row.job.contract_digest (get "contract_digest" s.receipt)
      && text_is row.job.agent_id (get "agent_id" s.receipt)
      && text_is row.job.host_id (get "host_id" s.receipt)
      && verify_signature L agent.public_key s.receipt s.signature

  abbrev pub names_digest : RemediationCheckpointJob → CheckpointSubmission → Bool
  names_digest row s =
      text_is
        (checkpoint_journal_digest row.job.id row.validation_job_id row.job.contract_digest
          row.recovery_plan (get "journal_state" s.receipt)
          (map (λ (r : CheckpointResult). r.document) s.checkpoint_results) (get "error" s.receipt))
        (get "journal_digest" s.receipt)

  unfoldable pub check_checkpoint_receipt :
      Db → ℕ → LinuxAgent → RemediationCheckpointJob → CheckpointSubmission → Result (Unit {0})
  check_checkpoint_receipt db now agent row s = do
    require (is_delivered row.job.status) (http 409 "Checkpoint job is not awaiting a receipt")
    require (is_checkpoint_bound agent row s)
        (http 409 "Checkpoint receipt trust binding is invalid")
    require (is_prepared_in_time db now row.job s.prepared_at)
        (http 409 "Checkpoint receipt time is outside its contract")
    entries ← or_raise (as_dicts (get "entries" row.recovery_plan)) key_error
    raise_if (repeats_checkpoint s.checkpoint_results || not (covers s.checkpoint_results entries))
        (http 409 "Checkpoint receipt coverage is invalid")
    for_each (check_result entries) s.checkpoint_results
    check_status s.receipt s.checkpoint_results
    require (names_digest row s) (http 409 "Checkpoint journal digest is invalid")

  unfoldable pub answer_checkpoint_again :
      ℕ → LinuxAgent → Job → CheckpointSubmission → Db → Result (Response × Db)
  answer_checkpoint_again now agent job s db = do
    require (is_stored job s) (http 409 "Checkpoint job already has another receipt")
    signed_control_response L now agent "remediation-checkpoint-receipt"
        (checkpoint_receipt_payload job (status_text L job.status)) db

  unfoldable pub accept_checkpoint :
      ℕ
      → LinuxAgent
      → String
      → RemediationCheckpointJob
      → CheckpointSubmission
      → Db
      → Result (Response × Db)
  accept_checkpoint now agent id row s db = do
    check_checkpoint_receipt db now agent row s
    signed_control_response L now agent "remediation-checkpoint-receipt"
        (checkpoint_receipt_payload row.job (get "status" s.receipt))
        (add_event (checkpoint_event agent row s) (
          touched now agent (record db {
            checkpoint_jobs =
                update_first (is_checkpoint_for agent id)
                  (λ r. record r { job = checkpointed_job now s r.job }) db.checkpoint_jobs;
          })))

  unfoldable pub submit_remediation_checkpoint_receipt :
      ℕ → LinuxAgent → String → CheckpointSubmission → Db → Result (Response × Db)
  submit_remediation_checkpoint_receipt now agent id s db = do
    require_checkpoint_agent agent
    row ←
        or_raise (find (is_checkpoint_for agent id) db.checkpoint_jobs)
          (http 404 "Remediation checkpoint job not found")
    if has_receipt row.job.status
        then answer_checkpoint_again now agent row.job s db
        else accept_checkpoint now agent id row s db
