-- ===== src/Plans.antt =====
-- Remediation planning (apps/api/lsa/api/remediations.py): the handlers that create, approve, reject
-- and cancel a plan. A handler that raises has committed nothing; identifiers and the time are
-- arguments. The responses that are built after the commit are not modelled.
pub mod Requests
pub mod Invariant
pub mod Decisions
pub mod Tests
use lsa.Base.{
  ℕ, ◌+◌, String, Bool, true, false, ◌&&◌, ◌||◌, not, List, [], ◌∷◌, ◌++◌, Option, none, some,
  if◌then◌else◌, ltb, ◌==◌, ◌!=◌, string_eq, nat_eq, option_eq, contains, any, find, select,
  update_first, Result, ok, err, Fault, http, text_lt, sorted_set, catalog_error, ◌>>=◌, ◌>>◌,
  raise_if, require, or_raise, pos, map,
}
use lsa.Json.{Json, Fields, end, field, str, int, bool, dict, opt_text, opt_num, is_some}
use lsa.Library.{Library}
use lsa.Catalog.{validate_action_snapshot, match_remediation_action}
use lsa.Schema.Action.{Action}
use lsa.Schema.Fleet.{User, Host}
use lsa.Schema.Findings.{Report, Finding, is_open}
use lsa.Schema.Plans.{
  RemediationPlan, pending_approval, approved, rejected, canceled, is_pending, is_active,
}
use lsa.Schema.Database.{Db, AuditEvent, add_event}

-- `require_admin` (apps/api/lsa/api/admin.py)
abbrev pub require_admin : User → Result (Unit {0})
require_admin user = require (user.role == "admin") (http 403 "Administrator role required")

-- Whether `r` stands before `s` by `generated_at`, `received_at` and `id`, all descending.
abbrev is_newer : Report → Report → Bool
is_newer r s =
    ltb s.generated_at r.generated_at
    || r.generated_at == s.generated_at
      && (ltb s.received_at r.received_at || r.received_at == s.received_at && text_lt s.id r.id)

latest_report : List Report → Option Report
latest_report [] = none
latest_report (r ∷ reports) = elim (latest_report reports) [
  | none ↦ some r
  | some best ↦ if is_newer best r then some best else some r
]

unfoldable pub latest_report_id : Db → String → String → Option String
unfolding latest_report
latest_report_id db tenant_id host_id =
    elim (latest_report
      (select (λ (r : Report). r.tenant_id == tenant_id && r.host_id == host_id) db.reports)) [
        | none ↦ none
        | some r ↦ some r.id
      ]

-- `_finding_for_plan`
pub finding_for_plan : Db → User → String → Result (Finding × Host)
unfolding latest_report_id
finding_for_plan db user finding_id = do
  finding ←
      or_raise
        (find (λ (f : Finding). f.id == finding_id && f.tenant_id == user.tenant_id) db.findings)
        (http 404 "Finding not found")
  host ←
      or_raise
        (find
          (λ (h : Host).
            h.id == finding.host_id && h.tenant_id == user.tenant_id && not (is_some h.deleted_at))
          db.hosts)
        (http 404 "Finding not found")
  raise_if (some finding.report_id != latest_report_id db user.tenant_id finding.host_id)
      (http 409 "Only a finding from the host's latest report can be planned")
  require (is_open finding.status) (http 409 "Only an open finding can be planned")
  ok (finding, host)

-- The rows that `_plan_for_user` selects; it raises where there is none.
abbrev pub is_plan_of : User → String → RemediationPlan → Bool
is_plan_of user plan_id plan = plan.id == plan_id && plan.tenant_id == user.tenant_id

abbrev pub plan_for_user : Db → User → String → Result RemediationPlan
plan_for_user db user plan_id =
    or_raise (find (is_plan_of user plan_id) db.plans) (http 404 "Remediation plan not found")

-- `_stored_action`
unfoldable pub stored_action : Library → RemediationPlan → Result (Option Action)
stored_action L plan =
    if not (
      is_some plan.action_id
      || is_some plan.action_version
      || is_some plan.action_digest
      || is_some plan.action_snapshot)
    then (do
      raise_if (plan.action_catalog_status == "matched")
          (catalog_error "Matched remediation plan has no action snapshot")
      ok none)
    else (do
      raise_if (plan.action_catalog_status != "matched")
          (catalog_error "Remediation plan action snapshot is not marked as matched")
      let incomplete = catalog_error "Remediation plan contains an incomplete action snapshot"
      action_id ← or_raise plan.action_id incomplete
      action_version ← or_raise plan.action_version incomplete
      action_digest ← or_raise plan.action_digest incomplete
      action_snapshot ← or_raise plan.action_snapshot incomplete
      action ← validate_action_snapshot L action_snapshot action_digest
      raise_if (action.action_id != action_id || action.version != action_version)
          (catalog_error "Remediation plan action identity does not match its snapshot")
      raise_if (not (contains action.control_ids plan.control_id))
          (catalog_error "Remediation plan control does not match its action snapshot")
      ok (some action))

-- `_audit`
abbrev audit : User → String → String → String → String → Fields → Db → Db
audit user plan_id control_id host_id action details = add_event (record {
  tenant_id = user.tenant_id;
  actor_type = "user";
  actor_id = some user.id;
  action = action;
  target_type = "remediation_plan";
  target_id = plan_id;
  details = field "control_id" (str control_id) (field "host_id" (str host_id) details);
})

-- The assignments of the three decisions.
abbrev pub approved_row : User → ℕ → RemediationPlan → RemediationPlan
approved_row user now plan = record plan {
  status = approved;
  approved_by = some user.id;
  approved_at = some now;
  updated_at = now;
  version = plan.version + 1;
}

abbrev pub rejected_row : User → ℕ → String → RemediationPlan → RemediationPlan
rejected_row user now reason plan = record plan {
  status = rejected;
  active_finding_id = none;
  rejected_by = some user.id;
  rejected_at = some now;
  rejection_reason = some reason;
  updated_at = now;
  version = plan.version + 1;
}

abbrev pub canceled_row : User → ℕ → String → RemediationPlan → RemediationPlan
canceled_row user now reason plan = record plan {
  status = canceled;
  active_finding_id = none;
  canceled_by = some user.id;
  canceled_at = some now;
  cancellation_reason = some reason;
  updated_at = now;
  version = plan.version + 1;
}

abbrev version_of : RemediationPlan → Json
version_of plan = int (pos (plan.version + 1))

pub reject_remediation_plan : ℕ → User → String → String → Db → Result Db
reject_remediation_plan now user plan_id reason db = do
  require_admin user
  plan ← plan_for_user db user plan_id
  require (is_pending plan.status) (http 409 "Only a pending plan can be rejected")
  ok (
      audit user plan.id plan.control_id plan.host_id "remediation_plan.rejected"
        (field "version" (version_of plan) (field "reason" (str reason) end))
        (record db {
          plans = update_first (is_plan_of user plan_id) (rejected_row user now reason) db.plans;
        }))

pub cancel_remediation_plan : ℕ → User → String → String → Db → Result Db
cancel_remediation_plan now user plan_id reason db = do
  require_admin user
  plan ← plan_for_user db user plan_id
  require (is_active plan.status) (http 409 "Only a pending or approved plan can be canceled")
  ok (
      audit user plan.id plan.control_id plan.host_id "remediation_plan.canceled"
        (field "version" (version_of plan) (field "reason" (str reason) end))
        (record db {
          plans = update_first (is_plan_of user plan_id) (canceled_row user now reason) db.plans;
        }))

abbrev duplicate_plan : Fault
duplicate_plan = http 409 "An active remediation plan already exists for this finding"

-- The query for an open plan of the finding.
pub reject_duplicate : Db → User → Finding → Result (Unit {0})
reject_duplicate db user f =
    raise_if
      (any
        (λ (p : RemediationPlan).
          p.tenant_id == user.tenant_id && p.finding_id == f.id && is_active p.status)
        db.plans)
      duplicate_plan

-- `db.add(plan)` and the flush, which enforces the unique index on `active_finding_id`.
pub flush_plan : Db → RemediationPlan → Result Db
flush_plan db plan = do
  raise_if (any (λ (p : RemediationPlan). p.active_finding_id == some plan.finding_id) db.plans)
      duplicate_plan
  ok (record db { plans = db.plans ++ (plan ∷ []) })

module _ (L : Library) where
  paths : Option String → List String
  paths none = L.find_paths ""
  paths (some t) = L.find_paths t

  all_paths : List String → List String
  all_paths [] = []
  all_paths (t ∷ ts) = L.find_paths t ++ all_paths ts

  -- `_extract_paths`
  extract_paths : Finding → List String
  unfolding paths all_paths
  extract_paths f = sorted_set (
      paths f.actual ++ (paths f.expected ++ (paths f.remediation_summary ++ all_paths f.evidence)))

  abbrev dump : Action → Json
  dump a = dict (L.dump_action a)

  -- The row that `create_remediation_plan` adds.
  pub new_plan :
      String → User → ℕ → Option String → Finding → String → Option Action → RemediationPlan
  new_plan id user now rationale f catalog_status action = record {
    id = id;
    tenant_id = user.tenant_id;
    finding_id = f.id;
    active_finding_id = some f.id;
    host_id = f.host_id;
    report_id = f.report_id;
    control_id = f.control_id;
    title = f.title;
    category = f.category;
    severity = f.severity;
    current_state = f.actual;
    required_state = f.expected;
    remediation_summary = elim f.remediation_summary [
      | none ↦ "Review the control guidance and document the intended configuration change."
      | some summary ↦
          if summary == ""
          then "Review the control guidance and document the intended configuration change."
          else summary
    ];
    affected_paths = extract_paths f;
    action_id = elim action [ none ↦ none | some a ↦ some a.action_id ];
    action_version = elim action [ none ↦ none | some a ↦ some a.version ];
    action_digest = elim action [ none ↦ none | some a ↦ some a.digest ];
    action_snapshot = elim action [ none ↦ none | some a ↦ some (dump a) ];
    action_catalog_status = catalog_status;
    reboot_required = f.reboot_required;
    service_restart = f.service_restart;
    rationale = rationale;
    status = pending_approval;
    version = 1;
    requested_by = user.id;
    requested_at = now;
    approved_by = none;
    approved_at = none;
    rejected_by = none;
    rejected_at = none;
    rejection_reason = none;
    canceled_by = none;
    canceled_at = none;
    cancellation_reason = none;
    created_at = now;
    updated_at = now;
  }

  pub create_remediation_plan :
      List Action → String → ℕ → User → String → Option String → Db → Result Db
  create_remediation_plan catalog id now user finding_id rationale db = do
    require_admin user
    (f, host) ← finding_for_plan db user finding_id
    reject_duplicate db user f
    (catalog_status, action) ←
        match_remediation_action L catalog f.control_id host.os_family host.os_version
    let plan = new_plan id user now rationale f catalog_status action
    flushed ← flush_plan db plan
    ok (
        audit user id f.control_id f.host_id "remediation_plan.requested"
          (field "execution_enabled" (bool false) (
            field "action_catalog_status" (str catalog_status) (
              field "action_id" (opt_text plan.action_id) (
                field "action_version" (opt_num plan.action_version)
                  (field "action_digest" (opt_text plan.action_digest) end)))))
          flushed)

  pub approve_remediation_plan : ℕ → User → String → Db → Result Db
  approve_remediation_plan now user plan_id db = do
    require_admin user
    plan ← plan_for_user db user plan_id
    require (is_pending plan.status) (http 409 "Only a pending plan can be approved")
    raise_if (some plan.report_id != latest_report_id db user.tenant_id plan.host_id)
        (http 409 "The source finding is stale; create a plan from the latest report")
    action ← stored_action L plan
    ok (
        audit user plan.id plan.control_id plan.host_id "remediation_plan.approved"
          (field "version" (version_of plan) (field "execution_enabled" (bool false) end))
          (record db {
            plans = update_first (is_plan_of user plan_id) (approved_row user now) db.plans;
          }))
