-- ===== src/ChangeSets/Exclusion.antt =====
-- What holds of the change sets between two requests: a plan is in at most one that is pending or
-- authorized.
use lsa.Base.{
  ℕ, ◌+◌, ◌≤◌, String, Bool, true, false, ◌≡◌, refl, sym, ◌&&◌, List, [], ◌∷◌, ◌++◌, Option, some,
  All-map, ◌==◌, string_eq, any, find, select, map, length, contains, All, All-of, All-append,
  update_first, length-select-le, length-select-join, length-select-select, length-select-no,
  length-select-map, length-select-sort_by, length-select-none, any-append, any-le,
  any-update_first, any-kept, Result, ok, err, after, after_check, raise_if, arith, Bool-cases, inl,
  inr,
}
use lsa.Library.{Library}
use lsa.Schema.Fleet.{User, PlatformChangeSigningKey}
use lsa.Schema.Plans.{RemediationPlan}
use lsa.Schema.ChangeSets.{
  RemediationChangeSet, RemediationChangeSetPlan, is_active, is_canceled, pending_authorization,
}
use lsa.Schema.Database.{Db}
use lsa.Plans.{require_admin}
use lsa.Plans.Requests.{committed}
use lsa.ChangeSets.Creation.Scope.{ChangeSetRequest}
use lsa.ChangeSets.Creation.Envelope.{payload_with}
use lsa.ChangeSets.Creation.{
  Generated, create_change_set, in_active_set, is_taken, new_plan_link, new_change_set,
  selected_plans, is_selected,
}
use lsa.ChangeSets.Admission.{create-eq-ok}
use lsa.ChangeSets.Authorization.{authorize-eq-ok}
use lsa.ChangeSets.Decisions.{
  authorize_change_set, cancel_change_set, is_set_of, change_set_of, canceled_row,
}
use lsa.ChangeSets.Requests.{Request, create, authorize, cancel, handle, serve}

-- The links of a plan into active change sets.
abbrev pub holds : List RemediationChangeSet → String → RemediationChangeSetPlan → Bool
holds sets plan_id link = link.plan_id == plan_id && in_active_set sets link

abbrev pub names_set : RemediationChangeSetPlan → RemediationChangeSet → Bool
names_set link cs = cs.id == link.change_set_id

-- The keys of the tables, and the rule of the handler.
pub record IsExclusive (db : Db) : Type 0 where
  pub one_plan : (id : String) → length (select (λ (p : RemediationPlan). p.id == id) db.plans) ≤ 1
  pub linked : All (λ link. any (names_set link) db.change_sets ≡ true) db.plan_links
  pub exclusive :
      (plan_id : String) → length (select (holds db.change_sets plan_id) db.plan_links) ≤ 1

-- A link that is into an active change set after an assignment was so before.
kept-active :
    (q : RemediationChangeSet → Bool) (f : RemediationChangeSet → RemediationChangeSet)
    (sets : List RemediationChangeSet) (id : String) (link : RemediationChangeSetPlan)
    → ((cs : RemediationChangeSet) → (f cs).id ≡ cs.id)
    → ((cs : RemediationChangeSet)
        → find q sets ≡ some cs
        → is_active (f cs).status ≡ true
        → is_active cs.status ≡ true)
    → holds (update_first q f sets) id link ≡ true
    → holds sets id link ≡ true
kept-active q f sets id link same_id active h = ground (
  arith,
  any-update_first (λ cs. cs.id == link.change_set_id && is_active cs.status) q f sets
      (λ cs found a. stays cs found a),
)
  where
    stays :
        (cs : RemediationChangeSet)
        → find q sets ≡ some cs
        → ((f cs).id == link.change_set_id && is_active (f cs).status) ≡ true
        → (cs.id == link.change_set_id && is_active cs.status) ≡ true
    stays cs found a = ground (arith, same_id cs, active cs found)

-- An assignment to one row that makes no change set active keeps the rule.
assign-IsExclusive :
    (q : RemediationChangeSet → Bool) (f : RemediationChangeSet → RemediationChangeSet)
    (db db' : Db)
    → ((cs : RemediationChangeSet) → (f cs).id ≡ cs.id)
    → ((cs : RemediationChangeSet)
        → find q db.change_sets ≡ some cs
        → is_active (f cs).status ≡ true
        → is_active cs.status ≡ true)
    → db'.change_sets ≡ update_first q f db.change_sets
    → db'.plans ≡ db.plans
    → db'.plan_links ≡ db.plan_links
    → IsExclusive db
    → IsExclusive db'
assign-IsExclusive q f db db' same_id active sets plans links v = record {
  one_plan = rw plans v.one_plan;
  linked =
      rw (sets, links)
        (All-map db.plan_links
          (λ link. any-kept (names_set link) q f db.change_sets (λ cs. ground (arith, same_id cs)))
          v.linked);
  exclusive = λ id.
      rw (sets, links)
        (omega (
          arith,
          v.exclusive id,
          length-select-le (holds (update_first q f db.change_sets) id) (holds db.change_sets id)
              db.plan_links
              (All-of db.plan_links
                (λ link. kept-active q f db.change_sets id link same_id active)),
        ));
}

cancel-IsExclusive :
    (L : Library) (now : ℕ) (user : User) (id reason : String) (db : Db) {db' : Db}
    → cancel_change_set L now user id reason db ≡ ok db'
    → IsExclusive db
    → IsExclusive db'
unfolding cancel_change_set
cancel-IsExclusive L now user id reason db {db'} e v =
    after_check (require_admin user) _ e λ admin e.
      after (change_set_of db user id) _ e λ cs found e.
        after_check (raise_if (is_canceled cs.status) _) _ e λ open_set e.
          assign-IsExclusive (is_set_of user id) (canceled_row user now (L.strip reason)) db db'
            (λ cs. refl) (λ cs found a. ground arith) (ground arith) (ground arith) (ground arith) v

authorize-IsExclusive :
    (L : Library) (generated : PlatformChangeSigningKey) (now later : ℕ) (user : User) (id : String)
    (db : Db) {db' : Db}
    → authorize_change_set L generated now later user id db ≡ ok db'
    → IsExclusive db
    → IsExclusive db'
authorize-IsExclusive L generated now later user id db {db'} e v =
    let a = authorize-eq-ok L generated now later user id db e in
    assign-IsExclusive (is_set_of user id) _ db db' (λ cs. refl)
      (λ cs found active. pending_lem a.cs cs a.pending (same a.found found)) a.written a.same_plans
      a.same_links v
  where
    same :
        {o : Option RemediationChangeSet} {x y : RemediationChangeSet}
        → o ≡ some x
        → o ≡ some y
        → x ≡ y
    same e f = ground arith

    pending_lem :
        (x y : RemediationChangeSet)
        → x.status ≡ pending_authorization
        → x ≡ y
        → is_active y.status ≡ true
    pending_lem x y p e = rw (sym e) (rw p refl)

-- No stored link is of the new identifier.
new-unlinked :
    (sets : List RemediationChangeSet) (id : String) (link : RemediationChangeSetPlan)
    → any (λ (other : RemediationChangeSet). other.id == id) sets ≡ false
    → any (names_set link) sets ≡ true
    → (id == link.change_set_id) ≡ false
new-unlinked sets id link unused known = elim (Bool-cases (id == link.change_set_id)) [
  | inl same ↦ ground (
    arith,
    any-le (names_set link) (λ (other : RemediationChangeSet). other.id == id) sets
        (λ c h. ground arith) unused,
  )
  | inr other ↦ other
]

-- An old link is into an active change set only if it was before.
old-active :
    (sets : List RemediationChangeSet) (cs : RemediationChangeSet) (id : String)
    (link : RemediationChangeSetPlan)
    → any (λ (other : RemediationChangeSet). other.id == cs.id) sets ≡ false
    → any (names_set link) sets ≡ true
    → holds (sets ++ (cs ∷ [])) id link ≡ true
    → holds sets id link ≡ true
old-active sets cs id link unused known h = ground (
  arith,
  new-unlinked sets cs.id link unused known,
  any-append (λ (c : RemediationChangeSet). c.id == link.change_set_id && is_active c.status) sets
      (cs ∷ []),
)

-- At most one of the new links is of a plan, and none where the plan was not asked for.
new-links :
    (user : User) (made : Generated) (sets : List RemediationChangeSet) (db : Db)
    (plan_ids : List String) (id : String)
    → IsExclusive db
    → length
        (select (holds sets id) (map (new_plan_link made user) (selected_plans db user plan_ids)))
      ≤ 1
new-links user made sets db plan_ids id v = omega (
  arith,
  v.one_plan id,
  length-select-map (holds sets id) (λ (p : RemediationPlan). p.id == id) (new_plan_link made user)
      (selected_plans db user plan_ids) (λ p. ground arith),
  length-select-sort_by (λ (p : RemediationPlan). p.id) (λ p. p.id == id)
      (select (is_selected user plan_ids) db.plans),
  length-select-select (λ (p : RemediationPlan). p.id == id) (is_selected user plan_ids) db.plans,
)

-- Where the plan was asked for, no old link holds it; where it was not, no new link does.
counts :
    (plan_ids : List String) (db : Db) (user : User) (made : Generated)
    (sets : List RemediationChangeSet) (id : String)
    → is_taken db plan_ids ≡ false
    → All (λ (p : RemediationPlan). contains plan_ids p.id ≡ true) (selected_plans db user plan_ids)
    → IsExclusive db
    → length (select (holds db.change_sets id) db.plan_links)
        + length (
            select
              (holds sets id)
              (map (new_plan_link made user) (selected_plans db user plan_ids)))
      ≤ 1
counts plan_ids db user made sets id free asked v = elim (Bool-cases (contains plan_ids id)) [
  | inl wanted ↦ omega (
    arith,
    new-links user made sets db plan_ids id v,
    length-select-none (holds db.change_sets id) db.plan_links (
        any-le (holds db.change_sets id)
          (λ link. contains plan_ids link.plan_id && in_active_set db.change_sets link)
          db.plan_links (λ link h. taken wanted link h) free),
  )
  | inr other ↦ omega (
    arith,
    v.exclusive id,
    length-select-map (holds sets id) (λ (p : RemediationPlan). p.id == id)
        (new_plan_link made user) (selected_plans db user plan_ids) (λ p. ground arith),
    length-select-no (λ (p : RemediationPlan). p.id == id) (selected_plans db user plan_ids)
        (All-map (selected_plans db user plan_ids) (λ p h. missing other p h) asked),
  )
]
  where
    taken :
        contains plan_ids id ≡ true
        → (link : RemediationChangeSetPlan) → holds db.change_sets id link ≡ true
        → (contains plan_ids link.plan_id && in_active_set db.change_sets link) ≡ true
    taken wanted link h = ground arith

    missing :
        contains plan_ids id ≡ false
        → (p : RemediationPlan) → contains plan_ids p.id ≡ true
        → (p.id == id) ≡ false
    missing other p h = ground arith

-- The new links are of the new change set, and the old ones of sets that are still there.
new-linked :
    (sets : List RemediationChangeSet) (cs : RemediationChangeSet) (made : Generated) (user : User)
    (plans : List RemediationPlan)
    → cs.id ≡ made.change_set_id
    → All
        (λ link. any (names_set link) (sets ++ (cs ∷ [])) ≡ true)
        (map (new_plan_link made user) plans)
new-linked sets cs made user [] e = tt
new-linked sets cs made user (p ∷ plans) e = (
  ground (arith, any-append (names_set (new_plan_link made user p)) sets (cs ∷ [])),
  new-linked sets cs made user plans e,
)

all-linked :
    (sets : List RemediationChangeSet) (cs : RemediationChangeSet) (made : Generated) (user : User)
    (links : List RemediationChangeSetPlan) (plans : List RemediationPlan)
    → cs.id ≡ made.change_set_id
    → All (λ link. any (names_set link) sets ≡ true) links
    → All
        (λ link. any (names_set link) (sets ++ (cs ∷ [])) ≡ true)
        (links ++ map (new_plan_link made user) plans)
all-linked sets cs made user links plans e known =
    All-append (λ link. any (names_set link) (sets ++ (cs ∷ [])) ≡ true) links
      (map (new_plan_link made user) plans)
      (All-map links (λ link h. ground (arith, any-append (names_set link) sets (cs ∷ []))) known)
      (new-linked sets cs made user plans e)

-- The tables after a creation.
create-IsExclusive :
    (L : Library) (made : Generated) (now later : ℕ) (user : User) (request : ChangeSetRequest)
    (db : Db) {db' : Db}
    → create_change_set L made now later user request db ≡ ok db'
    → IsExclusive db
    → IsExclusive db'
create-IsExclusive L made now later user request db {db'} e v =
    let a = create-eq-ok L made now later user request db e in
    let cs =
      new_change_set L made later user request
        (payload_with L made.change_set_id later user request a.plan_records a.target_records) in
    let sets = db.change_sets ++ (cs ∷ []) in
    let new = map (new_plan_link made user) (selected_plans db user request.plan_ids) in
    record {
      one_plan = rw a.same_plans v.one_plan;
      linked =
          rw (a.written, a.linked)
            (all-linked db.change_sets cs made user db.plan_links
              (selected_plans db user request.plan_ids) refl v.linked);
      exclusive = λ id.
          rw (a.written, a.linked)
            (omega (
              arith,
              length-select-join (holds sets id) db.plan_links new,
              length-select-le (holds sets id) (holds db.change_sets id) db.plan_links (
                  All-map db.plan_links (λ link. old-active db.change_sets cs id link a.unused)
                    v.linked),
              counts request.plan_ids db user made sets id a.plans.free
                  (All-map (selected_plans db user request.plan_ids)
                    (λ (p : RemediationPlan) h. h.asked) a.plans.admitted)
                  v,
            ));
    }

handle-IsExclusive :
    (L : Library) (now : ℕ) (user : User) (r : Request) (db : Db) {db' : Db}
    → handle L now user r db ≡ ok db'
    → IsExclusive db
    → IsExclusive db'
unfolding handle
handle-IsExclusive L now user (create made later request) db e v =
    create-IsExclusive L made now later user request db e v
handle-IsExclusive L now user (authorize generated later id) db e v =
    authorize-IsExclusive L generated now later user id db e v
handle-IsExclusive L now user (cancel id reason) db e v =
    cancel-IsExclusive L now user id reason db e v

committed-IsExclusive :
    (db : Db) (r : Result Db)
    → ((db' : Db) → r ≡ ok db' → IsExclusive db → IsExclusive db')
    → IsExclusive db
    → IsExclusive (committed db r)
committed-IsExclusive db (ok db') keep v = keep db' refl v
committed-IsExclusive db (err e) keep v = v

-- If plans have distinct identifiers, every link is of a stored change set and each plan is in at most one
-- change set that is pending or authorized, then this holds after any sequence of creations,
-- authorizations and cancellations, by whomever and whenever.
pub serve-IsExclusive :
    (L : Library) (requests : List (ℕ × User × Request)) (db : Db)
    → IsExclusive db
    → IsExclusive (serve L requests db)
unfolding serve
serve-IsExclusive L [] db v = v
serve-IsExclusive L ((now, user, r) ∷ rest) db v =
    serve-IsExclusive L rest (committed db (handle L now user r db)) (
      committed-IsExclusive db (handle L now user r db)
        (λ db' e. handle-IsExclusive L now user r db e) v)
