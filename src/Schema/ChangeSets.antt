-- ===== src/Schema/ChangeSets.antt =====
-- Signed change sets and their links to plans and targets (apps/api/lsa/models.py).
use lsa.Base.{ℕ, String, Bool, true, false, Option}
use lsa.Json.{Fields}

pub data ChangeSetStatus : Type 0 where
  pending_authorization authorized canceled : ChangeSetStatus

-- `ACTIVE_STATUSES` (apps/api/lsa/api/change_sets.py)
abbrev pub is_active : ChangeSetStatus → Bool
is_active pending_authorization = true
is_active authorized = true
is_active canceled = false

abbrev pub is_pending : ChangeSetStatus → Bool
is_pending pending_authorization = true
is_pending _ = false

abbrev pub is_authorized : ChangeSetStatus → Bool
is_authorized authorized = true
is_authorized _ = false

abbrev pub is_canceled : ChangeSetStatus → Bool
is_canceled canceled = true
is_canceled _ = false

pub record RemediationChangeSet : Type 0 where
  pub id : String
  pub tenant_id : String
  pub status : ChangeSetStatus
  pub payload_schema_version : String
  pub payload : Fields
  pub digest : String
  pub signature : Option String
  pub signing_key_id : Option String
  pub maintenance_window_start : ℕ
  pub maintenance_window_end : ℕ
  pub batch_size : ℕ
  pub batch_interval_minutes : ℕ
  pub requested_by : String
  pub requested_at : ℕ
  pub authorized_by : Option String
  pub authorized_at : Option ℕ
  pub canceled_by : Option String
  pub canceled_at : Option ℕ
  pub cancellation_reason : Option String
  pub created_at : ℕ
  pub updated_at : ℕ

pub record RemediationChangeSetPlan : Type 0 where
  pub id : String
  pub tenant_id : String
  pub change_set_id : String
  pub plan_id : String
  pub created_at : ℕ

pub record RemediationChangeSetTarget : Type 0 where
  pub id : String
  pub tenant_id : String
  pub change_set_id : String
  pub host_id : String
  pub agent_id : String
  pub rollout_phase : String
  pub created_at : ℕ
