-- ===== src/ChangeSets/Authorization.antt =====
-- What the authorization of a change set has established when it returns.
use lsa.Base.{
  ℕ, ◌+◌, ◌≤◌, ◌<◌, String, Bool, true, false, ◌≡◌, ◌≢◌, refl, List, Option, none, some, contains,
  all, find, string_eq, update_first, ok, after, after_check, on_error, on_error-eq-ok, catalog_409,
  require, arith, traverse, map,
}
use lsa.Library.{Library, minutes}
use lsa.Schema.Fleet.{User, PlatformChangeSigningKey}
use lsa.Schema.ChangeSets.{
  RemediationChangeSet, RemediationChangeSetTarget, pending_authorization, is_pending,
}
use lsa.Schema.Database.{Db}
use lsa.Signing.{active_change_signing_key, sign_change_set}
use lsa.Plans.{require_admin}
use lsa.ChangeSets.Integrity.{
  target_links, Operational, envelope_records, operational_values, assert_envelope_integrity,
}
use lsa.ChangeSets.Checks.{
  approvers, check_plan, PlanChecks, TargetChecks, Limits, check_target, strictest, versions_of,
}
use lsa.ChangeSets.Gates.{
  Gate, readiness_gates, canary_count, gates_of, is_independent, deciding, plans_of,
}
use lsa.ChangeSets.Decisions.{is_set_of, change_set_of, authorized_row, keyed, authorize_change_set}

-- What the nine gates say together, when all of them pass.
pub record Readiness (L : Library) (db : Db) (now : ℕ) (cs : RemediationChangeSet) (user : User)
    : Type 0 where
  pub intact : assert_envelope_integrity L db cs ≡ ok tt
  pub window : Operational
  pub signed_window : operational_values L cs ≡ ok window
  pub starts_later : now < window.start
  pub lasts : window.start + minutes 30 ≤ window.finish
  pub at_most : window.finish ≤ window.start + minutes 480
  pub has_canary : 1 ≤ canary_count (target_links db cs)
  pub decider : String
  pub decides : deciding cs (some user) ≡ some decider
  pub not_requester : decider ≢ cs.requested_by
  pub not_approver : contains (approvers cs (plans_of db cs)) decider ≡ false

independent-cases :
    (cs : RemediationChangeSet) (known : List String) (o : Option String)
    → is_independent cs known o ≡ true
    → (id : String) × (o ≡ some id) × (id ≢ cs.requested_by) × (contains known id ≡ false)
independent-cases cs known none h = ground arith
independent-cases cs known (some id) h = (id, refl, ground arith, ground arith)

gates-hold :
    (now : ℕ) (cs : RemediationChangeSet) (window : Operational)
    (links : List RemediationChangeSetTarget) (plans : List PlanChecks)
    (targets : List TargetChecks) (limits : Limits) (known : List String) (o : Option String)
    → all
        (λ (g : Gate). g.passed)
        (gates_of now cs window links plans targets limits (is_independent cs known o))
      ≡ true
    → ((now < window.start)
        × (window.start + minutes 30 ≤ window.finish)
        × (window.finish ≤ window.start + minutes 480)
        × (1 ≤ canary_count links))
      × (is_independent cs known o ≡ true)
gates-hold now cs window links plans targets limits known o passed =
    ((ground arith, ground arith, ground arith, ground arith), ground arith)

gates-pass :
    (now : ℕ) (cs : RemediationChangeSet) (window : Operational)
    (links : List RemediationChangeSetTarget) (plans : List PlanChecks)
    (targets : List TargetChecks) (limits : Limits) (known : List String) (o : Option String)
    (gates : List Gate)
    → ok (gates_of now cs window links plans targets limits (is_independent cs known o)) ≡ ok gates
    → all (λ (g : Gate). g.passed) gates ≡ true
    → (now < window.start)
      × (window.start + minutes 30 ≤ window.finish)
      × (window.finish ≤ window.start + minutes 480)
      × (1 ≤ canary_count links)
      × (id : String) × (o ≡ some id)
      × (id ≢ cs.requested_by)
      × (contains known id ≡ false)
gates-pass now cs window links plans targets limits known o gates e passed =
    let ((earlier, lasts, within, canary), independent) =
      gates-hold now cs window links plans targets limits known o (ground arith) in
    let (id, decides, other, unknown) = independent-cases cs known o independent in
    (earlier, lasts, within, canary, id, decides, other, unknown)

pub ready :
    (L : Library) (db : Db) (now : ℕ) (cs : RemediationChangeSet) (user : User) (gates : List Gate)
    → readiness_gates L db now cs (some user) ≡ ok gates
    → all (λ (g : Gate). g.passed) gates ≡ true
    → Readiness L db now cs user
unfolding readiness_gates
ready L db now cs user gates e passed =
    after_check (assert_envelope_integrity L db cs) _ e λ intact e.
      after (envelope_records cs "targets") _ e λ records known e.
        after (traverse (check_target L db now (plans_of db cs) records) (target_links db cs)) _ e
          λ targets checked e. after (strictest L (versions_of targets)) _ e λ limits strict e.
            after (operational_values L cs) _ e λ window signed e.
              let (earlier, lasts, within, canary, decider, decides, other, unknown) =
                gates-pass now cs window (target_links db cs)
                  (map (check_plan L db cs) (plans_of db cs)) targets limits
                  (approvers cs (plans_of db cs)) (deciding cs (some user)) gates e passed in
              record {
                intact = intact;
                window = window;
                signed_window = signed;
                starts_later = earlier;
                lasts = lasts;
                at_most = within;
                has_canary = canary;
                decider = decider;
                decides = decides;
                not_requester = other;
                not_approver = unknown;
              }

keyed-change_sets :
    (user : User) (generated : PlatformChangeSigningKey) (db : Db) (tenant_id : String)
    → (keyed user (active_change_signing_key generated db tenant_id)).change_sets ≡ db.change_sets
unfolding keyed active_change_signing_key
keyed-change_sets user generated db tenant_id = ground arith

keyed-plans :
    (user : User) (generated : PlatformChangeSigningKey) (db : Db) (tenant_id : String)
    → ((keyed user (active_change_signing_key generated db tenant_id)).plans ≡ db.plans)
      × ((keyed user (active_change_signing_key generated db tenant_id)).plan_links ≡ db.plan_links)
unfolding keyed active_change_signing_key
keyed-plans user generated db tenant_id = (ground arith, ground arith)

written_as :
    {cs ks : List RemediationChangeSet} (p : RemediationChangeSet → Bool)
    (f : RemediationChangeSet → RemediationChangeSet) {ys : List RemediationChangeSet}
    → ks ≡ cs
    → ys ≡ update_first p f ks
    → ys ≡ update_first p f cs
written_as p f same e = rw e (rw same refl)

-- What authorization has checked and written when it returns.
pub record Authorization (L : Library) (generated : PlatformChangeSigningKey) (now later : ℕ)
    (user : User) (id : String) (db db' : Db) : Type 0 where
  pub cs : RemediationChangeSet
  pub signature : String
  pub by_admin : user.role ≡ "admin"
  pub found : find (is_set_of user id) db.change_sets ≡ some cs
  pub pending : cs.status ≡ pending_authorization
  pub readiness : Readiness L db now cs user
  pub signed :
      sign_change_set L (active_change_signing_key generated db user.tenant_id).0 cs.payload
      ≡ ok signature
  pub written :
      db'.change_sets
      ≡ update_first
          (is_set_of user id)
          (authorized_row user later signature
            (active_change_signing_key generated db user.tenant_id).0)
          db.change_sets
  pub same_plans : db'.plans ≡ db.plans
  pub same_links : db'.plan_links ≡ db.plan_links

-- An authorization that returns was asked by an administrator for a pending change set of the
-- tenant whose signed envelope is intact and whose gates hold: the window is ahead and of half an hour to
-- eight hours, there is a canary, and the one who decides neither requested the change set nor approved
-- one of its plans. The row then holds a signature of its payload, and no other row has changed.
pub authorize-eq-ok :
    (L : Library) (generated : PlatformChangeSigningKey) (now later : ℕ) (user : User) (id : String)
    (db : Db) {db' : Db}
    → authorize_change_set L generated now later user id db ≡ ok db'
    → Authorization L generated now later user id db db'
unfolding authorize_change_set
authorize-eq-ok L generated now later user id db {db'} e =
    after_check (require_admin user) _ e λ admin e.
      after (change_set_of db user id) _ e λ cs found e.
        after_check (require (is_pending cs.status) _) _ e λ pending e.
          after (on_error catalog_409 (readiness_gates L db now cs (some user))) _ e
            λ gates computed e.
              after_check (require (all (λ (g : Gate). g.passed) gates) _) _ e λ passed e.
                after
                  (sign_change_set L (active_change_signing_key generated db user.tenant_id).0
                    cs.payload)
                  _ e
                  λ signature signed e. record {
                    cs = cs;
                    signature = signature;
                    by_admin = ground arith;
                    found = ground arith;
                    pending = ground arith;
                    readiness =
                        ready L db now cs user gates
                          (on_error-eq-ok catalog_409 (readiness_gates L db now cs (some user))
                            computed)
                          (ground arith);
                    signed = signed;
                    written =
                        written_as (is_set_of user id)
                          (authorized_row user later signature
                            (active_change_signing_key generated db user.tenant_id).0)
                          (keyed-change_sets user generated db user.tenant_id) (ground arith);
                    same_plans = ground (arith, (keyed-plans user generated db user.tenant_id).0);
                    same_links = ground (arith, (keyed-plans user generated db user.tenant_id).1);
                  }
