-- ===== src/ChangeSets/Targets.antt =====
-- The targets of a created change set, and the limits that their policies set.
use lsa.Base.{
  not, ltb, ◌||◌, select, ok_lem, sym, ap, ◌∙◌, or_raise, or_raise-eq-ok, and_right, all-All, ℕ,
  ◌≤◌, String, true, ◌&&◌, ◌≡◌, refl, List, [], ◌∷◌, some, ◌==◌, string_eq, nat_eq, contains, map,
  length, All, ok, after, after_check, require, require-eq-ok, traverse, arith,
}
use lsa.Json.{subset, same_set, is_some}
use lsa.Library.{Library}
use lsa.Schema.Fleet.{User, Host, LinuxAgent}
use lsa.Schema.Plans.{RemediationPlan}
use lsa.Schema.Database.{Db, get_group, get_policy}
use lsa.ChangeSets.{latest_policy_version}
use lsa.ChangeSets.Strictness.{IsStrictest, strictest-IsStrictest}
use lsa.ChangeSets.Checks.{Limits, strictest, is_nonempty}
use lsa.ChangeSets.Creation.Scope.{
  RolloutScope, Assigned, ChangeSetRequest, scope_of, assign, check_limits, host_ids_of,
  within_scope,
}

-- The policy that an agent is under, as stored, in its newest version.
pub record IsAssigned (db : Db) (a : Assigned) : Type 0 where
  pub group : get_group db a.agent.group_id ≡ some a.group
  pub policy : get_policy db a.group.policy_id ≡ some a.policy
  pub version : latest_policy_version db a.policy.id ≡ some a.version

-- The targets: the hosts of the plans, each with an agent, and all agents of the tenant on them that are not
-- revoked, each with its policy.
pub record IsScope (db : Db) (user : User) (plans : List RemediationPlan) (scope : RolloutScope)
    : Type 0 where
  pub hosts : scope.host_ids ≡ host_ids_of plans
  pub agents :
      map (λ (a : Assigned). a.agent) scope.assigned
      ≡ select
          (λ (a : LinuxAgent).
            a.tenant_id == user.tenant_id
            && contains (host_ids_of plans) a.host_id
            && not (is_some a.revoked_at))
          db.agents
  pub managed :
      All
        (λ id. contains (map (λ (a : Assigned). a.agent.host_id) scope.assigned) id ≡ true)
        scope.host_ids
  pub assigned : All (IsAssigned db) scope.assigned

assign_lem :
    (db : Db) (agent : LinuxAgent) {a : Assigned}
    → assign db agent ≡ ok a
    → (a.agent ≡ agent) × IsAssigned db a
assign_lem db agent {a} e = after (or_raise (get_group db agent.group_id) _) _ e λ group grouped e.
    after (or_raise (get_policy db group.policy_id) _) _ e λ policy governed e.
      after (or_raise (latest_policy_version db policy.id) _) _ e λ version published e.
        moved (record { agent = agent; group = group; policy = policy; version = version }) a
          (ok_lem e)
          (
            refl,
            record {
              group = or_raise-eq-ok _ _ grouped;
              policy = or_raise-eq-ok _ _ governed;
              version = or_raise-eq-ok _ _ published;
            },
          )
  where
    moved :
        (b c : Assigned)
        → b ≡ c
        → (b.agent ≡ agent) × IsAssigned db b
        → (c.agent ≡ agent) × IsAssigned db c
    moved b c same h = rw (sym same) h

assign_all :
    (db : Db) (agents : List LinuxAgent) {assigned : List Assigned}
    → traverse (assign db) agents ≡ ok assigned
    → (map (λ (a : Assigned). a.agent) assigned ≡ agents) × All (IsAssigned db) assigned
assign_all db [] {assigned} e = moved [] assigned (ok_lem e) (refl, tt)
  where
    moved :
        (xs ys : List Assigned)
        → xs ≡ ys
        → (map (λ (a : Assigned). a.agent) xs ≡ []) × All (IsAssigned db) xs
        → (map (λ (a : Assigned). a.agent) ys ≡ []) × All (IsAssigned db) ys
    moved xs ys same h = rw (sym same) h
assign_all db (agent ∷ agents) {assigned} e = after (assign db agent) _ e λ a here e.
    after (traverse (assign db) agents) _ e λ later rest e.
      let first = assign_lem db agent here in
      let next = assign_all db agents rest in
      moved (a ∷ later) assigned (ok_lem e) (rw (first.0, next.0) refl, (first.1, next.1))
  where
    moved :
        (xs ys : List Assigned)
        → xs ≡ ys
        → (map (λ (a : Assigned). a.agent) xs ≡ agent ∷ agents) × All (IsAssigned db) xs
        → (map (λ (a : Assigned). a.agent) ys ≡ agent ∷ agents) × All (IsAssigned db) ys
    moved xs ys same h = rw (sym same) h

hosts_lem :
    (assigned : List Assigned) (agents : List LinuxAgent)
    → map (λ (a : Assigned). a.agent) assigned ≡ agents
    → map (λ (a : LinuxAgent). a.host_id) agents ≡ map (λ (a : Assigned). a.agent.host_id) assigned
hosts_lem assigned agents same = rw (sym same) (twice assigned)
  where
    twice :
        (assigned : List Assigned)
        → map (λ (a : LinuxAgent). a.host_id) (map (λ (a : Assigned). a.agent) assigned)
          ≡ map (λ (a : Assigned). a.agent.host_id) assigned
    twice [] = refl
    twice (a ∷ rest) = ap (λ ids. a.agent.host_id ∷ ids) (twice rest)

pub scope_of-IsScope :
    (db : Db) (user : User) (canaries : List String) (plans : List RemediationPlan)
    {scope : RolloutScope}
    → scope_of db user canaries plans ≡ ok scope
    → IsScope db user plans scope
unfolding scope_of
scope_of-IsScope db user canaries plans {scope} e =
    let hosts = host_ids_of plans in
    let agents =
      select
        (λ (a : LinuxAgent).
          a.tenant_id == user.tenant_id && contains hosts a.host_id && not (is_some a.revoked_at))
        db.agents in
    after_check (require (subset canaries hosts) _) _ e λ canary e.
      after_check (require (same_set (map (λ (a : LinuxAgent). a.host_id) agents) hosts) _) _ e
        λ managed e.
          after_check
            (require
              (same_set
                (map (λ (h : Host). h.id) (select (λ (h : Host). contains hosts h.id) db.hosts))
                hosts)
              _)
            _ e
            λ existing e. after (traverse (assign db) agents) _ e λ assigned found e.
              let all_assigned = assign_all db agents found in
              moved
                (record {
                  host_ids = hosts;
                  hosts = select (λ (h : Host). contains hosts h.id) db.hosts;
                  agents = agents;
                  assigned = assigned;
                })
                scope (ok_lem e)
                (record {
                  hosts = refl;
                  agents = all_assigned.0;
                  managed = all-All _ hosts (
                      ap (λ ids. subset hosts ids) (sym (hosts_lem assigned agents all_assigned.0))
                      ∙ and_right (subset (map (λ (a : LinuxAgent). a.host_id) agents) hosts)
                          (subset hosts (map (λ (a : LinuxAgent). a.host_id) agents))
                          (require-eq-ok _ _ managed));
                  assigned = all_assigned.1;
                })
  where
    moved : (a b : RolloutScope) → a ≡ b → IsScope db user plans a → IsScope db user plans b
    moved a b same h = rw (sym same) h

-- The counts and the rate of a request are within the strictest limits, which are those of the targets'
-- policies.
pub record LimitsHold (L : Library) (request : ChangeSetRequest) (scope : RolloutScope)
    : Type 0 where
  pub limits : Limits
  pub strict : IsStrictest L limits (map (λ (a : Assigned). a.version) scope.assigned)
  pub in_targets : length scope.host_ids ≤ limits.max_targets
  pub in_canaries : length request.canary_host_ids ≤ limits.max_canaries
  pub in_batch : request.batch_size ≤ limits.max_batch
  pub in_interval : limits.min_interval ≤ request.batch_interval_minutes

pub check_limits_lem :
    (L : Library) (request : ChangeSetRequest) (scope : RolloutScope)
    → check_limits L request scope ≡ ok tt
    → LimitsHold L request scope
unfolding check_limits
check_limits_lem L request scope e =
    after_check (require (is_nonempty scope.assigned) _) _ e λ some_agent e.
      after (strictest L (map (λ (a : Assigned). a.version) scope.assigned)) _ e λ limits strict e.
        after_check (require (within_scope request scope limits) _) _ e λ in_scope e.
          let counts =
            below_lem limits.max_targets (length scope.host_ids) limits.max_canaries
              (length request.canary_host_ids) (require-eq-ok _ _ in_scope) in
          let rate =
            below_lem limits.max_batch request.batch_size request.batch_interval_minutes
              limits.min_interval (require-eq-ok _ _ e) in
          record {
            limits = limits;
            strict = strictest-IsStrictest L _ strict;
            in_targets = counts.0;
            in_canaries = counts.1;
            in_batch = rate.0;
            in_interval = rate.1;
          }
  where
    below_lem : (a b c d : ℕ) → not (ltb a b || ltb c d) ≡ true → (b ≤ a) × (d ≤ c)
    below_lem a b c d h = (ground arith, ground arith)
