-- ===== src/Schema/Findings.antt =====
-- Reports and their findings (apps/api/lsa/models.py).
use lsa.Base.{ℕ, String, Bool, true, false, Option, List}

pub record Report : Type 0 where
  pub id : String
  pub tenant_id : String
  pub host_id : String
  pub generated_at : ℕ
  pub received_at : ℕ

pub data FindingStatus : Type 0 where
  passed failed manual not_applicable error : FindingStatus

-- `OPEN_FINDING_STATUSES` (apps/api/lsa/api/remediations.py)
abbrev pub is_open : FindingStatus → Bool
is_open failed = true
is_open error = true
is_open manual = true
is_open passed = false
is_open not_applicable = false

pub record Finding : Type 0 where
  pub id : String
  pub tenant_id : String
  pub host_id : String
  pub report_id : String
  pub control_id : String
  pub category : String
  pub title : String
  pub severity : String
  pub status : FindingStatus
  pub lifecycle : String
  pub expected : Option String
  pub actual : Option String
  pub evidence : List String
  pub remediation_summary : Option String
  pub reboot_required : Bool
  pub service_restart : Bool
