-- ===== src/Plans/Invariant.antt =====
-- What holds of the plans between two requests: a finding has at most one open plan.
use lsa.Base.{
  ℕ, ◌≤◌, String, Bool, true, false, ◌≡◌, refl, sym, ap, ◌∙◌, List, [], ◌∷◌, ◌++◌, Option, none,
  some, if◌then◌else◌, ◌==◌, string_eq, option_eq, any, find, select, length, All, All-append,
  update_first, update_first-All, length-select-update_first, length-select-append,
  length-select-none, Result, after, after_check, ok, err, arith,
}
use lsa.Json.{is_some}
use lsa.Library.{Library}
use lsa.Catalog.{match_remediation_action}
use lsa.Schema.Action.{Action}
use lsa.Schema.Fleet.{User}
use lsa.Schema.Findings.{Finding}
use lsa.Schema.Plans.{RemediationPlan, approved, rejected, canceled, is_active}
use lsa.Schema.Database.{Db}
use lsa.Plans.{
  create_remediation_plan, approve_remediation_plan, reject_remediation_plan,
  cancel_remediation_plan, approved_row, rejected_row, canceled_row, is_plan_of, require_admin,
  finding_for_plan, new_plan, reject_duplicate, flush_plan,
}
use lsa.Plans.Requests.{Request, create, approve, reject, cancel, handle, committed, serve}

pub record IsSound (p : RemediationPlan) : Type 0 where
  pub active_finding :
      p.active_finding_id ≡ (if is_active p.status then some p.finding_id else none)
  pub versioned : 1 ≤ p.version
  pub approved_known : p.status ≡ approved → is_some p.approved_by ≡ true
  pub rejected_known : p.status ≡ rejected → is_some p.rejected_by ≡ true
  pub canceled_known : p.status ≡ canceled → is_some p.canceled_by ≡ true

-- The rows that hold the unique index entry of a finding.
abbrev pub claims : String → RemediationPlan → Bool
claims finding_id p = p.active_finding_id == some finding_id

abbrev pub OneClaim : List RemediationPlan → Type 0
OneClaim plans = (finding_id : String) → length (select (claims finding_id) plans) ≤ 1

pub record IsValid (db : Db) : Type 0 where
  pub sound : All IsSound db.plans
  pub one_claim : OneClaim db.plans

-- An assignment that keeps the found row sound and adds no claim keeps the invariant.
assign-IsValid :
    (q : RemediationPlan → Bool) (f : RemediationPlan → RemediationPlan) (db db' : Db)
    → ((p : RemediationPlan) → find q db.plans ≡ some p → IsSound p → IsSound (f p))
    → ((g : String) (p : RemediationPlan) → claims g (f p) ≡ true → claims g p ≡ true)
    → db'.plans ≡ update_first q f db.plans
    → IsValid db
    → IsValid db'
assign-IsValid q f db db' keep claim e v = record {
  sound = rw e (update_first-All IsSound q f db.plans keep v.sound);
  one_claim = λ g. rw e (
      omega (
        arith,
        v.one_claim g,
        length-select-update_first (claims g) q f db.plans (λ p h. claim g p),
      ));
}

-- A new row whose finding no row claims keeps the invariant.
append-IsValid :
    (p : RemediationPlan) (db db' : Db)
    → IsSound p
    → p.active_finding_id ≡ some p.finding_id
    → any (claims p.finding_id) db.plans ≡ false
    → db'.plans ≡ db.plans ++ (p ∷ [])
    → IsValid db
    → IsValid db'
append-IsValid p db db' s a free e v = record {
  sound = rw e (All-append IsSound db.plans (p ∷ []) v.sound (s, tt));
  one_claim = λ g.
      rw (e, length-select-append)
        (ground (arith, v.one_claim g, length-select-none (claims p.finding_id) db.plans free));
}

-- Each decision keeps the row that it found sound.
approve-IsValid :
    (L : Library) (now : ℕ) (user : User) (plan_id : String) (db : Db) {db' : Db}
    → approve_remediation_plan L now user plan_id db ≡ ok db'
    → IsValid db
    → IsValid db'
unfolding approve_remediation_plan
approve-IsValid L now user plan_id db {db'} e v =
    assign-IsValid (is_plan_of user plan_id) (approved_row user now) db db' (λ p q s. ground arith)
      (λ g p c. ground arith) (ground arith) v

reject-IsValid :
    (now : ℕ) (user : User) (plan_id reason : String) (db : Db) {db' : Db}
    → reject_remediation_plan now user plan_id reason db ≡ ok db'
    → IsValid db
    → IsValid db'
unfolding reject_remediation_plan
reject-IsValid now user plan_id reason db {db'} e v =
    assign-IsValid (is_plan_of user plan_id) (rejected_row user now reason) db db'
      (λ p q s. ground arith) (λ g p c. ground arith) (ground arith) v

cancel-IsValid :
    (now : ℕ) (user : User) (plan_id reason : String) (db : Db) {db' : Db}
    → cancel_remediation_plan now user plan_id reason db ≡ ok db'
    → IsValid db
    → IsValid db'
unfolding cancel_remediation_plan
cancel-IsValid now user plan_id reason db {db'} e v =
    assign-IsValid (is_plan_of user plan_id) (canceled_row user now reason) db db'
      (λ p q s. ground arith) (λ g p c. ground arith) (ground arith) v

abbrev plans_of : Result Db → List RemediationPlan
plans_of (ok db) = db.plans
plans_of (err e) = []

new_plan-IsSound :
    (L : Library) (id : String) (user : User) (now : ℕ) (rationale : Option String) (f : Finding)
    (status : String) (action : Option Action)
    → IsSound (new_plan L id user now rationale f status action)
unfolding new_plan
new_plan-IsSound L id user now rationale f status action = record {
  active_finding = refl;
  versioned = omega arith;
  approved_known = λ e. cc;
  rejected_known = λ e. cc;
  canceled_known = λ e. cc;
}

flush_plan-eq-ok :
    (db : Db) (p : RemediationPlan) {db' : Db}
    → flush_plan db p ≡ ok db'
    → (db' ≡ record db { plans = db.plans ++ (p ∷ []) })
      × (any (claims p.finding_id) db.plans ≡ false)
unfolding flush_plan
flush_plan-eq-ok db p e = ground arith

-- What a request to create a plan has added when it returns.
pub created_row :
    (L : Library) (catalog : List Action) (id : String) (now : ℕ) (user : User)
    (finding_id : String) (rationale : Option String) (db : Db) {db' : Db}
    → create_remediation_plan L catalog id now user finding_id rationale db ≡ ok db'
    → (p : RemediationPlan) × (db'.plans ≡ db.plans ++ (p ∷ []))
      × IsSound p
      × (p.active_finding_id ≡ some p.finding_id)
      × (any (claims p.finding_id) db.plans ≡ false)
unfolding create_remediation_plan new_plan
created_row L catalog id now user finding_id rationale db e =
    after_check (require_admin user) _ e λ _ e.
      after (finding_for_plan db user finding_id) _ e λ (f, host) _ e.
        after_check (reject_duplicate db user f) _ e λ _ e.
          after (match_remediation_action L catalog f.control_id host.os_family host.os_version) _ e
            λ (status, action) _ e.
              let p = new_plan L id user now rationale f status action in
              after (flush_plan db p) _ e λ flushed done e.
                let (grown, free) = flush_plan-eq-ok db p done in
                (
                  p,
                  sym (ap plans_of e) ∙ ap (λ d. d.plans) grown,
                  new_plan-IsSound L id user now rationale f status action,
                  refl,
                  free,
                )

create-IsValid :
    (L : Library) (catalog : List Action) (id : String) (now : ℕ) (user : User)
    (finding_id : String) (rationale : Option String) (db : Db) {db' : Db}
    → create_remediation_plan L catalog id now user finding_id rationale db ≡ ok db'
    → IsValid db
    → IsValid db'
create-IsValid L catalog id now user finding_id rationale db {db'} e v =
    let (p, grown, s, a, free) = created_row L catalog id now user finding_id rationale db e in
    append-IsValid p db db' s a free grown v

-- Every request, by any user, keeps the invariant.
pub handle-IsValid :
    (L : Library) (catalog : List Action) (now : ℕ) (user : User) (r : Request) (db : Db) {db' : Db}
    → handle L catalog now user r db ≡ ok db'
    → IsValid db
    → IsValid db'
unfolding handle
handle-IsValid L catalog now user (create id f rationale) db e v =
    create-IsValid L catalog id now user f rationale db e v
handle-IsValid L catalog now user (approve id) db e v = approve-IsValid L now user id db e v
handle-IsValid L catalog now user (reject id reason) db e v =
    reject-IsValid now user id reason db e v
handle-IsValid L catalog now user (cancel id reason) db e v =
    cancel-IsValid now user id reason db e v

committed-IsValid :
    (db : Db) (r : Result Db)
    → ((db' : Db) → r ≡ ok db' → IsValid db → IsValid db')
    → IsValid db
    → IsValid (committed db r)
committed-IsValid db (ok db') keep v = keep db' refl v
committed-IsValid db (err e) keep v = v

-- From a valid database, whatever requests follow in whatever order, of which those that raise
-- change nothing, every plan is sound and no finding is claimed by two plans; a sound plan
-- claims its finding exactly while it is open.
pub serve-IsValid :
    (L : Library) (catalog : List Action) (requests : List (ℕ × User × Request)) (db : Db)
    → IsValid db
    → IsValid (serve L catalog requests db)
unfolding serve
serve-IsValid L catalog [] db v = v
serve-IsValid L catalog ((now, user, r) ∷ rest) db v =
    serve-IsValid L catalog rest (committed db (handle L catalog now user r db)) (
      committed-IsValid db (handle L catalog now user r db)
        (λ db' e. handle-IsValid L catalog now user r db e) v)
