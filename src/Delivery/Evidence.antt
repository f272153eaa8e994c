-- ===== src/Delivery/Evidence.antt =====
-- What the job that an agent is handed rests on, at the last of the three stages.
use lsa.Base.{
  List, ℕ, String, Bool, true, ◌≡◌, refl, ◌&&◌, Option, none, some, ◌==◌, string_eq, ok,
  after_check, arith,
}
use lsa.Json.{Fields, dict, get, text_is}
use lsa.Library.{Library, digest_of}
use lsa.Schema.Fleet.{LinuxAgent}
use lsa.Schema.ChangeSets.{RemediationChangeSet, authorized}
use lsa.Schema.Jobs.{ready, is_ready, RemediationCheckpointJob, RemediationRecoveryVerificationJob}
use lsa.Schema.Database.{Db, get_change_set, get_checkpoint_job}
use lsa.Receipts.{validate_recovery_plan}
use lsa.Delivery.{next_job, is_waiting}
use lsa.Delivery.Control.{Response, touched}
use lsa.Delivery.Sequence.{Answer, signed_control_response-eq-ok}
use lsa.Delivery.Selection.{Poll, next_job-Picked, next_job-due}
use lsa.Delivery.Validation.{is_open}
use lsa.Delivery.Checkpoint.{
  require_verification_agent, verification_of, with_verification, rests_on, names_journal,
  verification_is_due, verification_payload, next_recovery_verification,
}

-- A verification job whose change set is open, whose contract is as it was, whose recovery plan is valid
-- and ready, and whose checkpoint is ready with a receipt that names the same journal.
pub record Evidence (L : Library) (db : Db) (now : ℕ) (row : RemediationRecoveryVerificationJob)
    : Type 0 where
  pub cs : RemediationChangeSet
  pub checkpoint : RemediationCheckpointJob
  pub receipt : Fields
  pub is_of_set : get_change_set db row.job.change_set_id ≡ some cs
  pub is_authorized : cs.status ≡ authorized
  pub same_contract : digest_of L (dict row.job.contract) ≡ row.job.contract_digest
  pub valid_plan : validate_recovery_plan L row.job.contract row.recovery_plan ≡ true
  pub ready_plan : text_is "ready" (get "status" row.recovery_plan) ≡ true
  pub is_of_checkpoint : get_checkpoint_job db row.checkpoint_job_id ≡ some checkpoint
  pub succeeded : checkpoint.job.status ≡ ready
  pub answered : checkpoint.job.receipt ≡ some receipt
  pub same_journal : text_is row.checkpoint_journal_digest (get "journal_digest" receipt) ≡ true

open-cases :
    (now : ℕ) (o : Option RemediationChangeSet)
    → is_open now o ≡ true
    → (cs : RemediationChangeSet) × (o ≡ some cs) × (cs.status ≡ authorized)
open-cases now none h = cc
open-cases now (some cs) h = (cs, refl, ground arith)

names-cases :
    (digest : String) (o : Option Fields)
    → names_journal digest o ≡ true
    → (receipt : Fields) × (o ≡ some receipt)
      × (text_is digest (get "journal_digest" receipt) ≡ true)
names-cases digest none h = cc
names-cases digest (some receipt) h = (receipt, refl, h)

rests-cases :
    (digest : String) (o : Option RemediationCheckpointJob)
    → rests_on digest o ≡ true
    → (checkpoint : RemediationCheckpointJob) × (o ≡ some checkpoint)
      × (checkpoint.job.status ≡ ready)
      × (names_journal digest checkpoint.job.receipt ≡ true)
rests-cases digest none h = cc
rests-cases digest (some checkpoint) h = (checkpoint, refl, ground arith, ground arith)

five :
    (a b c d e : Bool)
    → ((a && b && c && d) && e) ≡ true
    → (a ≡ true) × (b ≡ true) × (c ≡ true) × (d ≡ true) × (e ≡ true)
five a b c d e h = (ground arith, ground arith, ground arith, ground arith, ground arith)

equal : (s t : String) → (s == t) ≡ true → s ≡ t
equal s t e = ground arith

due-Evidence :
    (L : Library) (db : Db) (now : ℕ) (row : RemediationRecoveryVerificationJob)
    → verification_is_due L db now row ≡ true
    → Evidence L db now row
due-Evidence L db now row h =
    let (is_open, same, valid, is_ready, rests) =
      five _ (digest_of L (dict row.job.contract) == row.job.contract_digest) _ _ _ h in
    let (cs, of_set, authorized_set) =
      open-cases now (get_change_set db row.job.change_set_id) is_open in
    let (checkpoint, of_checkpoint, succeeded, names) =
      rests-cases row.checkpoint_journal_digest (get_checkpoint_job db row.checkpoint_job_id)
        rests in
    let (receipt, answered, journal) =
      names-cases row.checkpoint_journal_digest checkpoint.job.receipt names in
    record {
      cs = cs;
      checkpoint = checkpoint;
      receipt = receipt;
      is_of_set = of_set;
      is_authorized = authorized_set;
      same_contract = equal (digest_of L (dict row.job.contract)) row.job.contract_digest same;
      valid_plan = valid;
      ready_plan = is_ready;
      is_of_checkpoint = of_checkpoint;
      succeeded = succeeded;
      answered = answered;
      same_journal = journal;
    }

-- What an agent gets when it polls for a verification: a signed answer with a job or with none.
pub record Polled (L : Library) (now : ℕ) (agent : LinuxAgent) (db : Db) (response : Response)
    (db' : Db) : Type 0 where
  pub selected : Option RemediationRecoveryVerificationJob
  pub table : List RemediationRecoveryVerificationJob
  pub poll :
      Poll verification_of with_verification
        (verification_is_due L db now)
        now
        "Recovery verification contract is no longer eligible for delivery"
        agent.id
        agent.tenant_id
        db.verification_jobs
        selected
        table
  pub answer :
      Answer L now agent "remediation-recovery-verification"
        (verification_payload L selected)
        (touched now agent (record db { verification_jobs = table }))
        response
        db'
  pub evidence :
      (row : RemediationRecoveryVerificationJob)
      → selected ≡ some row
      → (is_waiting agent.id agent.tenant_id row.job ≡ true) × Evidence L db now row

-- A poll for a recovery verification that returns gives a signed answer with the first eligible one of the
-- stored jobs that wait for this agent, or with none, and the table takes the effect of that poll. If there
-- is a job, its change set is authorized, its contract has its digest, its recovery plan is
-- valid and ready, and its checkpoint is ready with a receipt that names the job's journal.
pub next_recovery_verification-eq-ok :
    (L : Library) (now : ℕ) (agent : LinuxAgent) (db : Db) {response : Response} {db' : Db}
    → next_recovery_verification L now agent db ≡ ok (response, db')
    → Polled L now agent db response db'
unfolding next_recovery_verification
next_recovery_verification-eq-ok L now agent db e =
    let found =
      next_job verification_of with_verification (verification_is_due L db now) now
        "Recovery verification contract is no longer eligible for delivery" agent.id agent.tenant_id
        db.verification_jobs in
    after_check (require_verification_agent agent) _ e λ attested e. record {
      selected = found.0;
      table = found.1;
      poll =
          next_job-Picked verification_of with_verification (verification_is_due L db now) now
            "Recovery verification contract is no longer eligible for delivery" agent.id
            agent.tenant_id db.verification_jobs;
      answer = signed_control_response-eq-ok L now agent _ _ _ e;
      evidence = λ row is_selected.
          let (due, waits) =
            next_job-due verification_of with_verification (verification_is_due L db now) now
              "Recovery verification contract is no longer eligible for delivery" agent.id
              agent.tenant_id db.verification_jobs is_selected in
          (waits, due-Evidence L db now row due);
    }
