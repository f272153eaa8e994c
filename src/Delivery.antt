-- ===== src/Delivery.antt =====
-- How an agent is given its next job (apps/api/lsa/api/agents.py): the loop that the three `next_…`
-- handlers share. Jobs that are no longer eligible expire on the way to the first that is.
pub mod Control
pub mod Validation
pub mod Checkpoint
pub mod Receipt
pub mod CheckpointReceipt
pub mod VerificationReceipt
pub mod Sequence
pub mod Selection
pub mod Evidence
pub mod Lifecycle
pub mod UnderWay
pub mod Invariant
pub mod Answers
pub mod ReceiptChecks
pub mod Outcome
pub mod CheckpointEvidence
pub mod CheckpointOutcome
pub mod VerificationEvidence
pub mod VerificationOutcome
pub mod Tests
pub mod CheckpointTests
pub mod VerificationTests
use lsa.Base.{
  ℕ, ◌+◌, String, Bool, true, false, ◌&&◌, List, [], ◌∷◌, Option, none, some, ◌==◌, string_eq,
  contains, select, update, order_by, if◌then◌else◌,
}
use lsa.Schema.Jobs.{Job, JobStatus, delivered, expired, in_flight, is_queued}

-- `REMEDIATION_VALIDATION_LEASE_SECONDS`, in microseconds.
abbrev pub lease : ℕ
lease = 300_000_000

abbrev pub expired_job : ℕ → String → Job → Job
expired_job now error job = record job {
  status = expired;
  completed_at = some now;
  error = some error;
}

abbrev pub delivered_job : ℕ → Job → Job
delivered_job now job =
    if is_queued job.status
    then record job {
      status = delivered;
      delivered_at = some now;
      lease_expires_at = some (now + lease);
    }
    else record job { lease_expires_at = some (now + lease) }

-- The rows that the query selects: the agent's, in its tenant, queued or delivered.
abbrev pub is_waiting : String → String → Job → Bool
is_waiting agent_id tenant_id job =
    job.agent_id == agent_id && job.tenant_id == tenant_id && in_flight job.status

-- The three tables have rows of their own, each with a job in it.
module _ {R : Type 0} (job_of : R → Job) (with_job : R → Job → R) (is_eligible : R → Bool) where
  -- The loop: the jobs to expire, up to the first that is eligible.
  pub pick : List R → List String × Option R
  pick [] = ([], none)
  pick (row ∷ rows) =
      let rest = pick rows in
      if is_eligible row then ([], some row) else ((job_of row).id ∷ rest.0, rest.1)

  abbrev pub modify : (Job → Job) → R → R
  modify f row = with_job row (f (job_of row))

  abbrev pub has_id : String → R → Bool
  has_id id row = (job_of row).id == id

  abbrev pub expire_all : ℕ → String → List String → List R → List R
  expire_all now error ids =
      update (λ row. contains ids (job_of row).id) (modify (expired_job now error))

  abbrev pub deliver : ℕ → Option R → List R → List R
  deliver now none rows = rows
  deliver now (some row) rows = update (has_id (job_of row).id) (modify (delivered_job now)) rows

  -- The selected row as it was read, and the table after the loop.
  unfoldable pub next_job : ℕ → String → String → String → List R → Option R × List R
  unfolding pick
  next_job now error agent_id tenant_id rows =
      let picked = pick (
        order_by (λ row. (job_of row).requested_at)
          (select (λ row. is_waiting agent_id tenant_id (job_of row)) rows)) in
      (picked.1, deliver now picked.1 (expire_all now error picked.0 rows))
