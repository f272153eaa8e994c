-- ===== src/Schema/Jobs.antt =====
-- The three kinds of agent jobs below a change set (apps/api/lsa/models.py). The columns that they
-- share are one record, which each kind extends.
use lsa.Base.{ℕ, String, Bool, true, false, Option}
use lsa.Json.{Fields}

pub data JobStatus : Type 0 where
  queued delivered ready blocked expired canceled : JobStatus

-- `status.in_(["queued", "delivered"])`
abbrev pub in_flight : JobStatus → Bool
in_flight queued = true
in_flight delivered = true
in_flight _ = false

-- `status.in_(["queued", "delivered", "ready"])`
abbrev pub is_live : JobStatus → Bool
is_live ready = true
is_live s = in_flight s

abbrev pub is_queued : JobStatus → Bool
is_queued queued = true
is_queued _ = false

abbrev pub is_delivered : JobStatus → Bool
is_delivered delivered = true
is_delivered _ = false

abbrev pub is_ready : JobStatus → Bool
is_ready ready = true
is_ready _ = false

-- `status in {"ready", "blocked"}`
abbrev pub has_receipt : JobStatus → Bool
has_receipt ready = true
has_receipt blocked = true
has_receipt _ = false

pub record Job : Type 0 where
  pub id : String
  pub tenant_id : String
  pub change_set_id : String
  pub host_id : String
  pub agent_id : String
  pub status : JobStatus
  pub contract : Fields
  pub contract_digest : String
  pub requested_by : String
  pub requested_at : ℕ
  pub delivered_at : Option ℕ
  pub lease_expires_at : Option ℕ
  pub completed_at : Option ℕ
  pub receipt : Option Fields
  pub receipt_signature : Option String
  pub error : Option String

pub record RemediationValidationJob : Type 0 where
  pub job : Job
  pub open job use *

pub record RemediationCheckpointJob : Type 0 where
  pub job : Job
  pub open job use *
  pub validation_job_id : String
  pub recovery_plan : Fields

pub record RemediationRecoveryVerificationJob : Type 0 where
  pub job : Job
  pub open job use *
  pub checkpoint_job_id : String
  pub validation_job_id : String
  pub recovery_plan : Fields
  pub checkpoint_journal_digest : String
