-- ===== src/ChangeSets/Creation.antt =====
-- `create_change_set`: the request, the checks in their order, and the rows that it writes. The scope and
-- the payload are the modules below.
pub mod Scope
pub mod Envelope
use lsa.Base.{
  ℕ, ◌+◌, ◌*◌, String, Bool, true, false, ◌&&◌, ◌||◌, not, List, [], ◌∷◌, ◌++◌, none, some, ltb,
  leb, ◌==◌, ◌!=◌, string_eq, nat_eq, contains, all, any, map, select, length, from_keys, sort_by,
  Result, ok, http, integrity_error, ◌>>=◌, ◌>>◌, raise_if, require, for_each, if◌then◌else◌,
}
use lsa.Json.{Fields, end, field, bool, str, list, dict, items, is_some, subset}
use lsa.Library.{Library, Moment, instant, minutes, digest_of}
use lsa.Schema.Fleet.{User}
use lsa.Schema.Plans.{RemediationPlan, is_approved}
use lsa.Schema.ChangeSets.{
  RemediationChangeSet, RemediationChangeSetPlan, RemediationChangeSetTarget, pending_authorization,
  is_active,
}
use lsa.Schema.Database.{Db, add_event}
use lsa.Plans.{require_admin, stored_action}
use lsa.ChangeSets.Decisions.{event}
use lsa.ChangeSets.Creation.Scope.{RolloutScope, ChangeSetRequest, Stamp, scope_of, check_limits}
use lsa.ChangeSets.Creation.Envelope.{payload_of, phase_of, agent_for}

-- What the defaults of the new rows generate: identifiers, and the times of the links.
pub record Generated : Type 0 where
  pub change_set_id : String
  pub plan_link_id : String → String
  pub target_link_id : String → String
  pub linked_at : String → ℕ

abbrev pub is_unique : List String → Bool
is_unique xs = length (from_keys xs) == length xs

-- The bounds that `RemediationChangeSetCreate` declares.
abbrev pub is_well_formed : ChangeSetRequest → Bool
is_well_formed request =
    leb 1 (length request.plan_ids)
    && leb (length request.plan_ids) 25
    && leb 1 (length request.canary_host_ids)
    && leb (length request.canary_host_ids) 5
    && leb 1 request.batch_size
    && leb request.batch_size 25
    && leb 15 request.batch_interval_minutes
    && leb request.batch_interval_minutes 1440

-- A begin within the next 30 days, and a length of 30 minutes to 8 hours.
abbrev pub begins_soon : ℕ → ℕ → Bool
begins_soon now start = not (ltb start now || ltb (now + minutes (30 * 1440)) start)

abbrev pub lasts_well : ℕ → ℕ → Bool
lasts_well start finish =
    not
      (leb finish start || ltb finish (start + minutes 30) || ltb (start + minutes (8 * 60)) finish)

abbrev pub is_selected : User → List String → RemediationPlan → Bool
is_selected user plan_ids plan = plan.tenant_id == user.tenant_id && contains plan_ids plan.id

abbrev pub selected_plans : Db → User → List String → List RemediationPlan
selected_plans db user plan_ids =
    sort_by (λ (p : RemediationPlan). p.id) (select (is_selected user plan_ids) db.plans)

-- The change set of a link is stored and is pending or authorized.
abbrev pub in_active_set : List RemediationChangeSet → RemediationChangeSetPlan → Bool
in_active_set sets link =
    any (λ (cs : RemediationChangeSet). cs.id == link.change_set_id && is_active cs.status) sets

abbrev pub is_taken : Db → List String → Bool
is_taken db plan_ids =
    any (λ link. contains plan_ids link.plan_id && in_active_set db.change_sets link) db.plan_links

abbrev pub new_plan_link : Generated → User → RemediationPlan → RemediationChangeSetPlan
new_plan_link made user plan = record {
  id = made.plan_link_id plan.id;
  tenant_id = user.tenant_id;
  change_set_id = made.change_set_id;
  plan_id = plan.id;
  created_at = made.linked_at plan.id;
}

abbrev pub new_target_link :
    Generated → User → ChangeSetRequest → RolloutScope → String → RemediationChangeSetTarget
new_target_link made user request scope host_id = record {
  id = made.target_link_id host_id;
  tenant_id = user.tenant_id;
  change_set_id = made.change_set_id;
  host_id = host_id;
  agent_id = agent_for scope host_id;
  rollout_phase = phase_of request.canary_host_ids host_id;
  created_at = made.linked_at host_id;
}

module _ (L : Library) where
  unfoldable pub require_action : RemediationPlan → Result (Unit {0})
  require_action plan = do
    action ← stored_action L plan
    require (is_some action)
        (http 409 "Every remediation plan must contain a reviewed catalog action")

  -- The checks of the plans, up to the query for an active change set.
  unfoldable pub check_plans : Db → ChangeSetRequest → List RemediationPlan → Result (Unit {0})
  unfolding require_action
  check_plans db request plans = do
    raise_if (length plans != length request.plan_ids)
        (http 404 "One or more remediation plans were not found")
    require (all (λ (p : RemediationPlan). is_approved p.status) plans)
        (http 409 "Every remediation plan must be approved")
    for_each require_action plans
    raise_if (is_taken db request.plan_ids)
        (http 409 "A plan already belongs to an active remediation change set")

  abbrev pub new_change_set :
      Generated → ℕ → User → ChangeSetRequest → Fields → RemediationChangeSet
  new_change_set made requested_at user request payload = record {
    id = made.change_set_id;
    tenant_id = user.tenant_id;
    status = pending_authorization;
    payload_schema_version = "1.0";
    payload = payload;
    digest = digest_of L (dict payload);
    signature = none;
    signing_key_id = none;
    maintenance_window_start = instant request.maintenance_window_start.moment;
    maintenance_window_end = instant request.maintenance_window_end.moment;
    batch_size = request.batch_size;
    batch_interval_minutes = request.batch_interval_minutes;
    requested_by = user.id;
    requested_at = requested_at;
    authorized_by = none;
    authorized_at = none;
    canceled_by = none;
    canceled_at = none;
    cancellation_reason = none;
    created_at = requested_at;
    updated_at = requested_at;
  }

  -- The request is checked against its bounds before the handler runs; `now` and `requested_at` are
  -- two readings of the clock. A primary key that is taken is refused at the commit.
  unfoldable pub create_change_set : Generated → ℕ → ℕ → User → ChangeSetRequest → Db → Result Db
  create_change_set made now requested_at user request db = do
    require (is_well_formed request) (http 422 "Request validation failed")
    require_admin user
    require (is_unique request.plan_ids && is_unique request.canary_host_ids)
        (http 422 "Plan and canary identifiers must be unique")
    let start = instant request.maintenance_window_start.moment
    let finish = instant request.maintenance_window_end.moment
    require (begins_soon now start)
        (http 422 "Maintenance window must begin within the next 30 days")
    require (lasts_well start finish)
        (http 422 "Maintenance window must last between 30 minutes and 8 hours")
    let plans = selected_plans db user request.plan_ids
    check_plans db request plans
    scope ← scope_of db user request.canary_host_ids plans
    check_limits L request scope
    payload ← payload_of L made.change_set_id requested_at user request plans scope
    let cs = new_change_set made requested_at user request payload
    raise_if (any (λ (other : RemediationChangeSet). other.id == cs.id) db.change_sets)
        integrity_error
    ok (
        add_event
          (event user "remediation_change_set.requested" "remediation_change_set" cs.id (
            field "digest" (str cs.digest) (
              field "plan_ids" (list (items (map str request.plan_ids)))
                (field "execution_enabled" (bool false) end))))
          (record db {
            change_sets = db.change_sets ++ (cs ∷ []);
            plan_links = db.plan_links ++ map (new_plan_link made user) plans;
            target_links =
                db.target_links ++ map (new_target_link made user request scope) scope.host_ids;
          }))
