-- ===== src/Plans/Decisions.antt =====
-- When a plan may be decided, and that a decision is final.
use lsa.Base.{
  ◌+◌, ℕ, String, Bool, true, false, ◌≡◌, refl, List, [], ◌∷◌, Option, some, ◌==◌, ◌!=◌, string_eq,
  option_eq, raise_if, require, find, update_first, find-append, find-update_first, Result, ok, err,
  after, after_check, arith, not,
}
use lsa.Library.{Library}
use lsa.Schema.Action.{Action}
use lsa.Schema.Fleet.{User}
use lsa.Schema.Plans.{approved, RemediationPlan, pending_approval, is_pending, is_active}
use lsa.Schema.Database.{Db}
use lsa.Plans.{
  approve_remediation_plan, reject_remediation_plan, cancel_remediation_plan, approved_row,
  rejected_row, canceled_row, require_admin, plan_for_user, latest_report_id, stored_action,
  is_plan_of,
}
use lsa.Plans.Requests.{Request, create, approve, reject, cancel, handle, committed, serve}
use lsa.Plans.Invariant.{created_row}

-- What approval has checked and written when it returns.
pub record Approval (L : Library) (now : ℕ) (user : User) (plan_id : String) (db db' : Db)
    : Type 0 where
  pub plan : RemediationPlan
  pub action : Option Action
  pub by_admin : user.role ≡ "admin"
  pub found : find (is_plan_of user plan_id) db.plans ≡ some plan
  pub pending : plan.status ≡ pending_approval
  pub current : latest_report_id db user.tenant_id plan.host_id ≡ some plan.report_id
  pub reviewed : stored_action L plan ≡ ok action
  pub written :
      db'.plans
      ≡ update_first
          (is_plan_of user plan_id)
          (λ (p : RemediationPlan). record p {
            status = approved;
            approved_by = some user.id;
            approved_at = some now;
            updated_at = now;
            version = p.version + 1;
          })
          db.plans

-- If an approval returns, an administrator asked for it, the plan was found in the user's tenant and was
-- pending, its report is the latest of its host, its stored action is valid or it has none, and the plans
-- afterwards are those before with this row approved.
pub approve-eq-ok :
    (L : Library) (now : ℕ) (user : User) (plan_id : String) (db : Db) {db' : Db}
    → approve_remediation_plan L now user plan_id db ≡ ok db'
    → Approval L now user plan_id db db'
unfolding approve_remediation_plan
approve-eq-ok L now user plan_id db e = after_check (require_admin user) _ e λ admin e.
    after (plan_for_user db user plan_id) _ e λ plan found e.
      after_check (require (is_pending plan.status) _) _ e λ pending e.
        after_check
          (raise_if (some plan.report_id != latest_report_id db user.tenant_id plan.host_id) _) _ e
          λ current e. after (stored_action L plan) _ e λ action reviewed e. record {
            plan = plan;
            action = action;
            by_admin = ground arith;
            found = ground arith;
            pending = ground arith;
            current = ground arith;
            reviewed = reviewed;
            written = ground arith;
          }

-- The row with an identifier.
abbrev has_id : String → RemediationPlan → Bool
has_id key p = p.id == key

-- What a request may write to the row that it finds, where the row is still open.
keeps_closed :
    (q : RemediationPlan → Bool) (f : RemediationPlan → RemediationPlan) (key : String)
    (db db' : Db) {p : RemediationPlan}
    → ((r : RemediationPlan) → (f r).id ≡ r.id)
    → ((r : RemediationPlan) → find q db.plans ≡ some r → is_active r.status ≡ true)
    → db'.plans ≡ update_first q f db.plans
    → find (has_id key) db.plans ≡ some p
    → is_active p.status ≡ false
    → find (has_id key) db'.plans ≡ some p
keeps_closed q f key db db' {p} same_id still_open e found closed = rw e (
    find-update_first (λ r. not (is_active r.status)) (has_id key) q f db.plans found (rw closed)
      (λ r h. rw (still_open r h)) (λ r. rw (same_id r)))

module _ (L : Library) (catalog : List Action) (key : String) {p : RemediationPlan} where
  approve-keeps_closed :
      (now : ℕ) (user : User) (plan_id : String) (db db' : Db)
      → approve_remediation_plan L now user plan_id db ≡ ok db'
      → find (has_id key) db.plans ≡ some p
      → is_active p.status ≡ false
      → find (has_id key) db'.plans ≡ some p
  unfolding approve_remediation_plan
  approve-keeps_closed now user plan_id db db' e =
      keeps_closed (is_plan_of user plan_id) (approved_row user now) key db db' (λ r. refl)
        (λ r h. ground arith) (ground arith)

  reject-keeps_closed :
      (now : ℕ) (user : User) (plan_id reason : String) (db db' : Db)
      → reject_remediation_plan now user plan_id reason db ≡ ok db'
      → find (has_id key) db.plans ≡ some p
      → is_active p.status ≡ false
      → find (has_id key) db'.plans ≡ some p
  unfolding reject_remediation_plan
  reject-keeps_closed now user plan_id reason db db' e =
      keeps_closed (is_plan_of user plan_id) (rejected_row user now reason) key db db' (λ r. refl)
        (λ r h. ground arith) (ground arith)

  cancel-keeps_closed :
      (now : ℕ) (user : User) (plan_id reason : String) (db db' : Db)
      → cancel_remediation_plan now user plan_id reason db ≡ ok db'
      → find (has_id key) db.plans ≡ some p
      → is_active p.status ≡ false
      → find (has_id key) db'.plans ≡ some p
  unfolding cancel_remediation_plan
  cancel-keeps_closed now user plan_id reason db db' e =
      keeps_closed (is_plan_of user plan_id) (canceled_row user now reason) key db db' (λ r. refl)
        (λ r h. ground arith) (ground arith)

  handle-keeps_closed :
      (now : ℕ) (user : User) (r : Request) (db db' : Db)
      → handle L catalog now user r db ≡ ok db'
      → find (has_id key) db.plans ≡ some p
      → is_active p.status ≡ false
      → find (has_id key) db'.plans ≡ some p
  unfolding handle
  handle-keeps_closed now user (create id f rationale) db db' e found closed =
      let (q, grown, _, _, _) = created_row L catalog id now user f rationale db e in
      rw grown (find-append (has_id key) db.plans (q ∷ []) found)
  handle-keeps_closed now user (approve id) db db' e found closed =
      approve-keeps_closed now user id db db' e found closed
  handle-keeps_closed now user (reject id reason) db db' e found closed =
      reject-keeps_closed now user id reason db db' e found closed
  handle-keeps_closed now user (cancel id reason) db db' e found closed =
      cancel-keeps_closed now user id reason db db' e found closed

  committed-keeps_closed :
      (db : Db) (r : Result Db)
      → ((db' : Db) → r ≡ ok db' → find (has_id key) db'.plans ≡ some p)
      → find (has_id key) db.plans ≡ some p
      → find (has_id key) (committed db r).plans ≡ some p
  committed-keeps_closed db (ok db') keep found = keep db' refl
  committed-keeps_closed db (err e) keep found = found

  -- A plan that is found by its identifier and is rejected or canceled is final: whatever requests
  -- follow, by whomever and whenever, the same row is found afterwards.
  pub serve-keeps_closed :
      (requests : List (ℕ × User × Request)) (db : Db)
      → find (has_id key) db.plans ≡ some p
      → is_active p.status ≡ false
      → find (has_id key) (serve L catalog requests db).plans ≡ some p
  unfolding serve
  serve-keeps_closed [] db found closed = found
  serve-keeps_closed ((now, user, r) ∷ rest) db found closed =
      serve-keeps_closed rest (committed db (handle L catalog now user r db))
        (committed-keeps_closed db (handle L catalog now user r db)
          (λ db' e. handle-keeps_closed now user r db db' e found closed) found)
        closed
