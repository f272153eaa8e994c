-- ===== src/ChangeSets/Admission.antt =====
-- What the creation of a change set has established when it returns.
use lsa.Base.{
  ℕ, ◌+◌, ◌*◌, ◌≤◌, String, Bool, true, false, ◌&&◌, ◌≡◌, refl, Distinct, from_keys,
  from_keys-Distinct, select_sound, List, [], ◌∷◌, ◌++◌, Option, none, some, ◌==◌, ◌!=◌, string_eq,
  nat_eq, contains, all, any, sort_by-All, map, length, All, ok, after, after_check, require,
  raise_if, require-eq-ok, traverse, for_each, for_each-All, arith, sort_by,
}
use lsa.Json.{Json, Fields, subset, is_some}
use lsa.Library.{Library, instant, minutes}
use lsa.Schema.Fleet.{User}
use lsa.Schema.Action.{Action}
use lsa.Schema.Plans.{RemediationPlan, is_approved}
use lsa.Schema.ChangeSets.{RemediationChangeSet}
use lsa.Schema.Database.{Db}
use lsa.ChangeSets.Targets.{IsScope, scope_of-IsScope, LimitsHold, check_limits_lem}
use lsa.Plans.{require_admin, stored_action}
use lsa.ChangeSets.Creation.Scope.{
  RolloutScope, ChangeSetRequest, scope_of, check_limits, host_ids_of,
}
use lsa.ChangeSets.Creation.Envelope.{payload_of, payload_with, plan_record, target_record}
use lsa.ChangeSets.Creation.{
  Generated, create_change_set, check_plans, require_action, is_well_formed, is_unique, begins_soon,
  lasts_well, selected_plans, is_selected, is_taken, new_plan_link, new_change_set,
}

-- A plan that was selected: of the tenant, asked for, approved, and with an action that is intact.
pub record IsAdmitted (L : Library) (user : User) (plan_ids : List String) (plan : RemediationPlan)
    : Type 0 where
  pub own : plan.tenant_id ≡ user.tenant_id
  pub asked : contains plan_ids plan.id ≡ true
  pub approved : is_approved plan.status ≡ true
  pub action : Action
  pub stored : stored_action L plan ≡ ok (some action)

formed_lem :
    (request : ChangeSetRequest) → is_well_formed request ≡ true → 1 ≤ length request.plan_ids
formed_lem request h = ground arith

begins_soon_lem :
    (now start : ℕ)
    → begins_soon now start ≡ true
    → (now ≤ start) × (start ≤ now + minutes (30 * 1440))
begins_soon_lem now start h = (ground arith, ground arith)

lasts_well_lem :
    (start finish : ℕ)
    → lasts_well start finish ≡ true
    → (start + minutes 30 ≤ finish) × (finish ≤ start + minutes (8 * 60))
lasts_well_lem start finish h = (ground arith, ground arith)

and_lem : (a b : Bool) → (a && b) ≡ true → (a ≡ true) × (b ≡ true)
and_lem true true h = (refl, refl)
and_lem true false h = cc
and_lem false b h = cc

unique_lem :
    (xs ys : List String)
    → (is_unique xs && is_unique ys) ≡ true
    → length (from_keys xs) ≡ length xs
unique_lem xs ys h = ground arith

require_action_lem :
    (L : Library) (plan : RemediationPlan)
    → require_action L plan ≡ ok tt
    → (action : Action) × (stored_action L plan ≡ ok (some action))
unfolding require_action
require_action_lem L plan e =
    after (stored_action L plan) _ e λ o stored e. there o stored (require-eq-ok (is_some o) _ e)
  where
    there :
        (o : Option Action)
        → stored_action L plan ≡ ok o
        → is_some o ≡ true
        → (action : Action) × (stored_action L plan ≡ ok (some action))
    there none stored e = cc
    there (some action) stored e = (action, stored)

selected_lem :
    (user : User) (plan_ids : List String) (p : RemediationPlan)
    → is_selected user plan_ids p ≡ true
    → (p.tenant_id ≡ user.tenant_id) × (contains plan_ids p.id ≡ true)
selected_lem user plan_ids p h = (ground arith, ground arith)

admitted :
    (L : Library) (user : User) (plan_ids : List String) (plans : List RemediationPlan)
    → All (λ p. is_selected user plan_ids p ≡ true) plans
    → all (λ (p : RemediationPlan). is_approved p.status) plans ≡ true
    → All (λ p. (action : Action) × (stored_action L p ≡ ok (some action))) plans
    → All (IsAdmitted L user plan_ids) plans
admitted L user plan_ids [] selected approved actions = tt
admitted L user plan_ids (p ∷ plans) selected approved actions =
    let (own, asked) = selected_lem user plan_ids p selected.0 in
    let (here, rest) = and_lem (is_approved p.status) _ approved in
    (
      record {
        own = own;
        asked = asked;
        approved = here;
        action = actions.0.0;
        stored = actions.0.1;
      },
      admitted L user plan_ids plans selected.1 rest actions.1,
    )

-- What the checks of the plans establish, about the rows that the query selects.
pub record PlansHold (L : Library) (user : User) (request : ChangeSetRequest) (db : Db)
    : Type 0 where
  pub complete : length (selected_plans db user request.plan_ids) ≡ length request.plan_ids
  pub admitted : All (IsAdmitted L user request.plan_ids) (selected_plans db user request.plan_ids)
  pub free : is_taken db request.plan_ids ≡ false

check_plans_lem :
    (L : Library) (user : User) (request : ChangeSetRequest) (db : Db)
    → check_plans L db request (selected_plans db user request.plan_ids) ≡ ok tt
    → PlansHold L user request db
unfolding check_plans
check_plans_lem L user request db e =
    let plans = selected_plans db user request.plan_ids in
    after_check (raise_if (length plans != length request.plan_ids) _) _ e λ complete e.
      after_check (require (all (λ (p : RemediationPlan). is_approved p.status) plans) _) _ e
        λ approved e. after_check (for_each (require_action L) plans) _ e λ actions e. record {
          complete = ground arith;
          admitted =
              admitted L user request.plan_ids plans
                (sort_by-All (λ (p : RemediationPlan). p.id) _ _
                  (select_sound (is_selected user request.plan_ids) db.plans))
                (require-eq-ok _ _ approved)
                (for_each-All _ (require_action L) plans (require_action_lem L) actions);
          free = ground arith;
        }

canaries_lem :
    (db : Db) (user : User) (canaries : List String) (plans : List RemediationPlan)
    {scope : RolloutScope}
    → scope_of db user canaries plans ≡ ok scope
    → subset canaries (host_ids_of plans) ≡ true
unfolding scope_of
canaries_lem db user canaries plans e =
    after_check (require (subset canaries (host_ids_of plans)) _) _ e
      λ subset e. require-eq-ok _ _ subset

payload_lem :
    (L : Library) (made : Generated) (at : ℕ) (user : User) (request : ChangeSetRequest)
    (plans : List RemediationPlan) (scope : RolloutScope) {payload : Fields}
    → payload_of L made.change_set_id at user request plans scope ≡ ok payload
    → (plan_records : List Json) × (target_records : List Json) × (traverse
          (plan_record scope)
          (sort_by (λ (p : RemediationPlan). p.id) plans)
        ≡ ok plan_records)
      × (traverse (target_record scope request.canary_host_ids) (sort_by (λ s. s) scope.host_ids)
          ≡ ok target_records)
      × (payload ≡ payload_with L made.change_set_id at user request plan_records target_records)
unfolding payload_of
payload_lem L made at user request plans scope e =
    after (traverse (plan_record scope) (sort_by (λ (p : RemediationPlan). p.id) plans)) _ e
      λ plan_records built e.
        after
          (traverse (target_record scope request.canary_host_ids) (sort_by (λ s. s) scope.host_ids))
          _ e λ targets placed e. (plan_records, targets, built, placed, ground arith)

row_lem :
    (L : Library) (made : Generated) (at : ℕ) (user : User) (request : ChangeSetRequest)
    (sets : List RemediationChangeSet) {sets' : List RemediationChangeSet} {payload other : Fields}
    → payload ≡ other
    → sets' ≡ sets ++ (new_change_set L made at user request payload ∷ [])
    → sets' ≡ sets ++ (new_change_set L made at user request other ∷ [])
row_lem L made at user request sets same e = rw e (rw same refl)

-- What creation has checked and written when it returns.
pub record Admission (L : Library) (made : Generated) (now requested_at : ℕ) (user : User)
    (request : ChangeSetRequest) (db db' : Db) : Type 0 where
  pub by_admin : user.role ≡ "admin"
  pub distinct : Distinct request.plan_ids
  pub start : ℕ
  pub starts : start ≡ instant request.maintenance_window_start.moment
  pub finish : ℕ
  pub ends : finish ≡ instant request.maintenance_window_end.moment
  pub not_before : now ≤ start
  pub soon : start ≤ now + minutes (30 * 1440)
  pub lasts : start + minutes 30 ≤ finish
  pub at_most : finish ≤ start + minutes (8 * 60)
  pub plans : PlansHold L user request db
  pub canaries :
      subset request.canary_host_ids (host_ids_of (selected_plans db user request.plan_ids)) ≡ true
  pub scope : RolloutScope
  pub scoped : IsScope db user (selected_plans db user request.plan_ids) scope
  pub limited : LimitsHold L request scope
  pub plan_records : List Json
  pub target_records : List Json
  pub built :
      traverse
        (plan_record scope)
        (sort_by (λ (p : RemediationPlan). p.id) (selected_plans db user request.plan_ids))
      ≡ ok plan_records
  pub placed :
      traverse (target_record scope request.canary_host_ids) (sort_by (λ s. s) scope.host_ids)
      ≡ ok target_records
  pub some_plans : 1 ≤ length request.plan_ids
  pub unused :
      any (λ (other : RemediationChangeSet). other.id == made.change_set_id) db.change_sets ≡ false
  pub written :
      db'.change_sets
      ≡ db.change_sets
        ++ (new_change_set L made requested_at user request (
              payload_with L made.change_set_id requested_at user request plan_records
                target_records)
            ∷ [])
  pub linked :
      db'.plan_links
      ≡ db.plan_links ++ map (new_plan_link made user) (selected_plans db user request.plan_ids)
  pub same_plans : db'.plans ≡ db.plans

-- A change set that is created was asked for by an administrator. Its window begins within 30 days and
-- lasts half an hour to eight hours; its plans are distinct, of the tenant, approved and with an intact
-- action, and none of them is in an active change set; the canaries are hosts of the plans; the targets are
-- those hosts, each with an agent, with all agents on them that are not revoked; and the number of hosts, of
-- canaries, and the rate are within the limits of the newest policy version of each of these agents. One row with a new identifier is added, pending and with
-- the digest of its payload, and a link for each plan.
pub create-eq-ok :
    (L : Library) (made : Generated) (now requested_at : ℕ) (user : User)
    (request : ChangeSetRequest) (db : Db) {db' : Db}
    → create_change_set L made now requested_at user request db ≡ ok db'
    → Admission L made now requested_at user request db db'
unfolding create_change_set
create-eq-ok L made now requested_at user request db {db'} e =
    let start = instant request.maintenance_window_start.moment in
    let finish = instant request.maintenance_window_end.moment in
    let plans = selected_plans db user request.plan_ids in
    after_check (require (is_well_formed request) _) _ e λ formed e.
      after_check (require_admin user) _ e λ admin e.
        after_check (require (is_unique request.plan_ids && is_unique request.canary_host_ids) _) _
          e
          λ unique e. after_check (require (begins_soon now start) _) _ e λ begins e.
            after_check (require (lasts_well start finish) _) _ e λ lasts e.
              after_check (check_plans L db request plans) _ e λ checked e.
                after (scope_of db user request.canary_host_ids plans) _ e λ scope scoped e.
                  after_check (check_limits L request scope) _ e λ limited e.
                    after (payload_of L made.change_set_id requested_at user request plans scope) _
                      e
                      λ payload built e.
                        after_check (raise_if (any _ db.change_sets) _) _ e λ unused e.
                          let (not_before, soon) =
                            begins_soon_lem now start (require-eq-ok _ _ begins) in
                          let (least, most) =
                            lasts_well_lem start finish (require-eq-ok _ _ lasts) in
                          let records =
                            payload_lem L made requested_at user request plans scope built in
                          record {
                            by_admin = ground arith;
                            distinct =
                                from_keys-Distinct request.plan_ids
                                  (unique_lem _ _ (require-eq-ok _ _ unique));
                            start = start;
                            starts = refl;
                            finish = finish;
                            ends = refl;
                            not_before = not_before;
                            soon = soon;
                            lasts = least;
                            at_most = most;
                            plans = check_plans_lem L user request db checked;
                            canaries = canaries_lem db user request.canary_host_ids plans scoped;
                            scope = scope;
                            scoped = scope_of-IsScope db user request.canary_host_ids plans scoped;
                            limited = check_limits_lem L request scope limited;
                            plan_records = records.0;
                            target_records = records.1;
                            built = records.2;
                            placed = records.3;
                            some_plans = formed_lem request (require-eq-ok _ _ formed);
                            unused = ground arith;
                            written =
                                row_lem L made requested_at user request db.change_sets records.4
                                  (ground arith);
                            linked = ground arith;
                            same_plans = ground arith;
                          }
