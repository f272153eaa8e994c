-- ===== src/Schema/Plans.antt =====
-- Remediation plans (`RemediationPlan`, apps/api/lsa/models.py).
use lsa.Base.{ℕ, String, Bool, true, false, Option, List}
use lsa.Json.{Json}

pub data PlanStatus : Type 0 where
  pending_approval approved rejected canceled : PlanStatus

pub record RemediationPlan : Type 0 where
  pub id : String
  pub tenant_id : String
  pub finding_id : String
  pub active_finding_id : Option String
  pub host_id : String
  pub report_id : String
  pub control_id : String
  pub title : String
  pub category : String
  pub severity : String
  pub current_state : Option String
  pub required_state : Option String
  pub remediation_summary : String
  pub affected_paths : List String
  pub action_id : Option String
  pub action_version : Option ℕ
  pub action_digest : Option String
  pub action_snapshot : Option Json
  pub action_catalog_status : String
  pub reboot_required : Bool
  pub service_restart : Bool
  pub rationale : Option String
  pub status : PlanStatus
  pub version : ℕ
  pub requested_by : String
  pub requested_at : ℕ
  pub approved_by : Option String
  pub approved_at : Option ℕ
  pub rejected_by : Option String
  pub rejected_at : Option ℕ
  pub rejection_reason : Option String
  pub canceled_by : Option String
  pub canceled_at : Option ℕ
  pub cancellation_reason : Option String
  pub created_at : ℕ
  pub updated_at : ℕ

abbrev pub is_pending : PlanStatus → Bool
is_pending pending_approval = true
is_pending _ = false

abbrev pub is_approved : PlanStatus → Bool
is_approved approved = true
is_approved _ = false

-- `ACTIVE_PLAN_STATUSES` (apps/api/lsa/api/remediations.py)
abbrev pub is_active : PlanStatus → Bool
is_active pending_approval = true
is_active approved = true
is_active rejected = false
is_active canceled = false
