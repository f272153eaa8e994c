-- ===== src/ChangeSets/Trust.antt =====
-- What a validation contract rests on when the platform builds it.
use lsa.Base.{
  refl, String, Bool, true, false, ◌≡◌, ap, ◌&&◌, List, Option, none, some, find, ◌==◌, string_eq,
  ok, after, after_check, require, or_raise, on_error, or_raise-eq-ok, find_sound, sym, catalog_409,
  arith, map, sort_by, Fault,
}
use lsa.Json.{Json, Fields, get, text_is, is_some}
use lsa.Library.{Library}
use lsa.Schema.Fleet.{LinuxAgent, PlatformChangeSigningKey, PlatformCommandSigningKey}
use lsa.Schema.ChangeSets.{
  RemediationChangeSet, RemediationChangeSetTarget, ChangeSetStatus, authorized, is_authorized,
}
use lsa.Schema.Database.{Db, get_change_key, get_command_key, get_agent}
use lsa.Signing.{verify_signature, sign_platform_envelope}
use lsa.ChangeSets.Integrity.{assert_envelope_integrity, envelope_records, plan_links}
use lsa.ChangeSets.Contracts.{
  endorsement_of, change_set_block, contract_document, collect_actions, Entry, nonempty,
  trusted_key, command_key_of, usable_agent, verified_key, validation_contract_for_agent,
}

-- The set's signature by a key of the tenant, the target's agent, and the endorsement by the key that the
-- agent has pinned.
pub record Trusted (L : Library) (db : Db) (cs : RemediationChangeSet) (tenant_id agent_id : String)
    (contract : Fields) (agent : LinuxAgent) : Type 0 where
  pub is_open : cs.status ≡ authorized
  pub intact : on_error catalog_409 (assert_envelope_integrity L db cs) ≡ ok tt
  pub signature : String
  pub change_key : PlatformChangeSigningKey
  pub command_key : PlatformCommandSigningKey
  pub signed : cs.signature ≡ some signature
  pub key_id : String
  pub names_key : cs.signing_key_id ≡ some key_id
  pub stored_change_key : get_change_key db key_id ≡ some change_key
  pub own_key : change_key.tenant_id ≡ tenant_id
  pub key_not_revoked : is_some change_key.revoked_at ≡ false
  pub verifies : verify_signature L change_key.public_key cs.payload signature ≡ true
  pub link : RemediationChangeSetTarget
  pub is_target :
      find
        (λ (l : RemediationChangeSetTarget). l.change_set_id == cs.id && l.agent_id == agent_id)
        db.target_links
      ≡ some link
  pub stored_agent : get_agent db link.agent_id ≡ some agent
  pub own_agent : agent.tenant_id ≡ tenant_id
  pub not_revoked : is_some agent.revoked_at ≡ false
  pub command_id : String
  pub pinned_id : agent.platform_command_key_id ≡ some command_id
  pub stored_command_key : get_command_key db command_id ≡ some command_key
  pub own_command_key : command_key.tenant_id ≡ tenant_id
  pub is_active : command_key.status ≡ "active"
  pub command_key_not_revoked : is_some command_key.revoked_at ≡ false
  pub pinned : some command_key.fingerprint ≡ agent.platform_command_key_fingerprint
  pub endorsement : String
  pub endorsed :
      sign_platform_envelope L command_key (endorsement_of cs change_key command_key)
      ≡ ok endorsement
  pub records : List Fields
  pub has_records : envelope_records cs "targets" ≡ ok records
  pub target : Fields
  pub is_recorded :
      find
        (λ item.
          text_is agent.id (get "agent_id" item) && text_is agent.host_id (get "host_id" item))
        records
      ≡ some target
  pub for_host : text_is agent.host_id (get "host_id" target) ≡ true
  pub actions : List Json
  pub built :
      contract
      ≡ contract_document
          (change_set_block cs signature change_key)
          (endorsement_of cs change_key command_key)
          endorsement
          target
          actions

key-cases :
    (L : Library) (tenant_id : String) (cs : RemediationChangeSet) (signature : String)
    (o : Option PlatformChangeSigningKey) {key : PlatformChangeSigningKey}
    → verified_key L tenant_id cs signature o ≡ some key
    → (o ≡ some key)
      × (key.tenant_id ≡ tenant_id)
      × (is_some key.revoked_at ≡ false)
      × (verify_signature L key.public_key cs.payload signature ≡ true)
key-cases L tenant_id cs signature none e = cc
key-cases L tenant_id cs signature (some k) {key} e =
    (ground arith, ground arith, ground arith, ground arith)

agent-cases :
    (tenant_id : String) (o : Option LinuxAgent) {agent : LinuxAgent}
    → usable_agent tenant_id o ≡ some agent
    → (o ≡ some agent) × (agent.tenant_id ≡ tenant_id) × (is_some agent.revoked_at ≡ false)
agent-cases tenant_id none e = cc
agent-cases tenant_id (some a) {agent} e = (ground arith, ground arith, ground arith)

pinned-cases :
    (tenant_id : String) (agent : LinuxAgent) (o : Option PlatformCommandSigningKey)
    {key : PlatformCommandSigningKey}
    → trusted_key tenant_id agent o ≡ some key
    → (o ≡ some key)
      × (key.tenant_id ≡ tenant_id)
      × (key.status ≡ "active")
      × (is_some key.revoked_at ≡ false)
      × (some key.fingerprint ≡ agent.platform_command_key_fingerprint)
pinned-cases tenant_id agent none e = cc
pinned-cases tenant_id agent (some k) {key} e =
    (ground arith, ground arith, ground arith, ground arith, ground arith)

command_id-cases :
    (db : Db) (o : Option String) {key : PlatformCommandSigningKey}
    → (elim o [ none ↦ none | some id ↦ get_command_key db id ]) ≡ some key
    → (id : String) × (o ≡ some id) × (get_command_key db id ≡ some key)
command_id-cases db none e = cc
command_id-cases db (some id) e = (id, refl, e)

open_status :
    (s : ChangeSetStatus) (f : Fault) → require (is_authorized s) f ≡ ok tt → s ≡ authorized
open_status s f e = ground arith

second : (a b : Bool) → (a && b) ≡ true → b ≡ true
second a b h = ground arith

pair-injective : (p q : Fields × LinuxAgent) → ok p ≡ ok q → (p.0 ≡ q.0) × (p.1 ≡ q.1)
pair-injective p q e = let same : p ≡ q = ground arith in (ap (λ r. r.0) same, ap (λ r. r.1) same)

-- A contract that the platform builds is for an authorized, intact change set of which the agent is a
-- target; the stored key that the set names is the tenant's, is not revoked, and verifies the signature of
-- the set's payload; the agent belongs to the tenant and is not revoked; and the stored key that it has
-- pinned, which is the tenant's, active and not revoked, has signed the endorsement that the contract
-- carries, with the payload's record of the agent on its host.
pub contract-Trusted :
    (L : Library) (db : Db) (cs : RemediationChangeSet) (tenant_id agent_id : String)
    {contract : Fields} {agent : LinuxAgent}
    → validation_contract_for_agent L db cs tenant_id agent_id ≡ ok (contract, agent)
    → Trusted L db cs tenant_id agent_id contract agent
unfolding validation_contract_for_agent
contract-Trusted L db cs tenant_id agent_id {contract} {agent} e =
    after_check (require (is_authorized cs.status) _) _ e λ authorized_set e.
      after_check (on_error catalog_409 (assert_envelope_integrity L db cs)) _ e λ intact e.
        after (or_raise cs.signature _) _ e λ signature signed e.
          after (or_raise cs.signing_key_id _) _ e λ key_id keyed e.
            after (or_raise (verified_key L tenant_id cs signature (get_change_key db key_id)) _) _
              e
              λ change_key verified e.
                after
                  (or_raise
                    (find
                      (λ (l : RemediationChangeSetTarget).
                        l.change_set_id == cs.id && l.agent_id == agent_id)
                      db.target_links)
                    _)
                  _ e
                  λ link linked e.
                    after (or_raise (usable_agent tenant_id (get_agent db link.agent_id)) _) _ e
                      λ found usable e.
                        after (or_raise (trusted_key tenant_id found (command_key_of db found)) _) _
                          e
                          λ command_key trusted e.
                            after (envelope_records cs "targets") _ e λ records known e.
                              after
                                (or_raise
                                  (find
                                    (λ item.
                                      text_is found.id (get "agent_id" item)
                                      && text_is found.host_id (get "host_id" item))
                                    records)
                                  _)
                                _ e
                                λ target recorded e.
                                  after (collect_actions L db found (plan_links db cs)) _ e
                                    λ entries collected e.
                                      after (or_raise (nonempty entries) _) _ e
                                        λ actions some_actions e.
                                          after
                                            (sign_platform_envelope L command_key
                                              (endorsement_of cs change_key command_key))
                                            _ e
                                            λ endorsement endorsed e.
                                              let (stored_key, own_key, key_not_revoked, verifies) =
                                                key-cases L tenant_id cs signature
                                                  (get_change_key db key_id)
                                                  (or_raise-eq-ok _ _ verified) in
                                              let (stored, own_agent, not_revoked) =
                                                agent-cases tenant_id (get_agent db link.agent_id)
                                                  (or_raise-eq-ok _ _ usable) in
                                              let (
                                                by_id, own_command, active, not_revoked_command,
                                                pin,
                                              ) =
                                                pinned-cases tenant_id found
                                                  (command_key_of db found)
                                                  (or_raise-eq-ok _ _ trusted) in
                                              let (command_id, pinned_id, stored_command) =
                                                command_id-cases db found.platform_command_key_id
                                                  by_id in
                                              let here =
                                                find_sound _ records
                                                  (or_raise-eq-ok _ _ recorded) in
                                              let (document, same) = pair-injective _ _ e in
                                              rw (← same) (record {
                                                is_open = open_status cs.status _ authorized_set;
                                                intact = intact;
                                                signature = signature;
                                                change_key = change_key;
                                                command_key = command_key;
                                                signed = or_raise-eq-ok _ _ signed;
                                                key_id = key_id;
                                                names_key = or_raise-eq-ok _ _ keyed;
                                                stored_change_key = stored_key;
                                                own_key = own_key;
                                                key_not_revoked = key_not_revoked;
                                                verifies = verifies;
                                                link = link;
                                                is_target = or_raise-eq-ok _ _ linked;
                                                stored_agent = stored;
                                                own_agent = own_agent;
                                                not_revoked = not_revoked;
                                                command_id = command_id;
                                                pinned_id = pinned_id;
                                                stored_command_key = stored_command;
                                                own_command_key = own_command;
                                                is_active = active;
                                                command_key_not_revoked = not_revoked_command;
                                                pinned = pin;
                                                endorsement = endorsement;
                                                endorsed = endorsed;
                                                records = records;
                                                has_records = known;
                                                target = target;
                                                is_recorded = or_raise-eq-ok _ _ recorded;
                                                for_host = second _ _ here;
                                                actions =
                                                    map (λ (e : Entry). e.entry)
                                                      (sort_by (λ (e : Entry). e.plan_id) actions);
                                                built = sym document;
                                              })
