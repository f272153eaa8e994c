-- ===== src/Agent/Contract/Refusal.antt =====
-- The agent's preview on the contracts that the platform builds from a change set that it has created.
use lsa.Base.{
  ℕ, ◌≤◌, String, ◌≡◌, ◌≢◌, ◌∙◌, refl, sym, ap, List, [], ◌∷◌, ◌++◌, some, string_eq, length,
  sort_by, length-sort_by, ok, after, traverse, arith,
}
use lsa.Json.{Json, Fields, list, dict, items, elems, get, as_list}
use lsa.Library.{Library}
use lsa.Schema.Fleet.{User, Host, PlatformCommandSigningKey, PlatformChangeSigningKey}
use lsa.Schema.Plans.{RemediationPlan}
use lsa.Schema.ChangeSets.{RemediationChangeSet}
use lsa.Schema.Database.{Db}
use lsa.ChangeSets.Creation.Scope.{ChangeSetRequest, RolloutScope}
use lsa.ChangeSets.Creation.Envelope.{plan_item, plan_record, payload_with, host_for}
use lsa.ChangeSets.Creation.{Generated, create_change_set, selected_plans}
use lsa.ChangeSets.Admission.{create-eq-ok}
use lsa.ChangeSets.Contracts.{change_set_block, endorsement_of, contract_document}
use lsa.Agent.Contract.{exact_keys, plan_keys}
use lsa.Agent.Contract.Preview.{Pins, validate_remediation_contract_preview}
use lsa.Agent.Contract.Coverage.{Coverage}
use lsa.Agent.Contract.Soundness.{Accepted, preview-Accepted}

elems-items : (xs : List Json) → elems (items xs) ≡ xs
elems-items [] = refl
elems-items (x ∷ xs) = ap (λ ys. x ∷ ys) (elems-items xs)

-- A plan as the platform records it has keys that the agent does not know.
plan_item-refused :
    (plan : RemediationPlan) (host : Host) (fs : Fields)
    → exact_keys (dict (plan_item plan host)) plan_keys "signed remediation plan" ≢ ok fs
unfolding exact_keys string_eq
plan_item-refused plan host fs e = cc

-- The first of a list that is gone through.
first_shape :
    (x : Json) (xs : List Json) {out : List Fields}
    → traverse (λ item. exact_keys item plan_keys "signed remediation plan") (x ∷ xs) ≡ ok out
    → (fs : Fields) × (exact_keys x plan_keys "signed remediation plan" ≡ ok fs)
first_shape x xs e =
    after (exact_keys x plan_keys "signed remediation plan") _ e λ fs shaped e. (fs, shaped)

first_record :
    (scope : RolloutScope) (plan : RemediationPlan) {r : Json}
    → plan_record scope plan ≡ ok r
    → (host : Host) × (r ≡ dict (plan_item plan host))
first_record scope plan e =
    after (host_for scope plan.host_id) _ e λ host known e. (host, ground arith)

records-refused :
    (scope : RolloutScope) (plans : List RemediationPlan) {records : List Json} (out : List Fields)
    → 1 ≤ length plans
    → traverse (plan_record scope) plans ≡ ok records
    → traverse (λ item. exact_keys item plan_keys "signed remediation plan") records ≢ ok out
records-refused scope [] out some_plan built e = ground arith
records-refused scope (plan ∷ plans) {records} out some_plan built e =
    after (plan_record scope plan) _ built λ r recorded built.
      after (traverse (plan_record scope) plans) _ built λ rest known built.
        let (host, same) = first_record scope plan recorded in
        let all : (r ∷ rest) ≡ records = ground arith in
        let (fs, shaped) = first_shape r rest {out = out} (rw (sym all) at e) in
        plan_item-refused plan host fs (rw same at shaped)

get-plans :
    (L : Library) (id : String) (at : ℕ) (user : User) (request : ChangeSetRequest)
    (plans targets : List Json)
    → get "plans" (payload_with L id at user request plans targets) ≡ list (items plans)
unfolding string_eq
get-plans L id at user request plans targets = refl

get-payload :
    (cs : RemediationChangeSet) (signature : String) (key : PlatformChangeSigningKey)
    → get "payload" (change_set_block cs signature key) ≡ dict cs.payload
unfolding string_eq
get-payload cs signature key = refl

get-change_set :
    (change_set endorsement : Fields) (signature : String) (target : Fields) (actions : List Json)
    → get "change_set" (contract_document change_set endorsement signature target actions)
      ≡ dict change_set
unfolding string_eq
get-change_set change_set endorsement signature target actions = refl

append-last :
    (xs : List RemediationChangeSet) {a b : RemediationChangeSet}
    → xs ++ (a ∷ []) ≡ xs ++ (b ∷ [])
    → a ≡ b
append-last [] e = ground arith
append-last (x ∷ xs) {a} {b} e = append-last xs (ground arith)

dict-injective : {a b : Fields} → dict a ≡ dict b → a ≡ b
dict-injective e = ground arith

-- The way from a contract to its payload.
same_payload_lem :
    (doc root block change_set payload p : Fields)
    → dict doc ≡ dict root
    → get "change_set" doc ≡ dict block
    → get "payload" block ≡ dict p
    → get "change_set" root ≡ dict change_set
    → get "payload" change_set ≡ dict payload
    → payload ≡ p
same_payload_lem doc root block change_set payload p same b bp r rp =
    let doc_root : doc ≡ root = dict-injective same in
    let blocks : block ≡ change_set =
      dict-injective (sym b ∙ ap (λ fs. get "change_set" fs) doc_root ∙ r) in
    dict-injective (sym rp ∙ ap (λ fs. get "payload" fs) (sym blocks) ∙ bp)

-- The payload of an accepted contract is that of the change set that it was built from.
Accepted-payload :
    (L : Library) (pins : Pins) (now : ℕ) (cs : RemediationChangeSet)
    (signature endorsement_signature : String) (change_key : PlatformChangeSigningKey)
    (command_key : PlatformCommandSigningKey) (target : Fields) (actions : List Json)
    {summary : Fields}
    (a : Accepted L pins now
      (dict (
        contract_document
          (change_set_block cs signature change_key)
          (endorsement_of cs change_key command_key)
          endorsement_signature
          target
          actions))
      summary)
    → a.payload ≡ cs.payload
Accepted-payload L pins now cs signature endorsement_signature change_key command_key target actions
      a =
    same_payload_lem
      (contract_document (change_set_block cs signature change_key)
        (endorsement_of cs change_key command_key) endorsement_signature target actions)
      a.root (change_set_block cs signature change_key) a.trust.change_set a.payload cs.payload
      a.is_root
      (get-change_set (change_set_block cs signature change_key)
        (endorsement_of cs change_key command_key) endorsement_signature target actions)
      (get-payload cs signature change_key) a.trust.has_change_set a.trust.has_payload

-- The plans of an accepted contract's payload, where those of the payload are a list.
covered_plans :
    (L : Library) (host_id : String) (root payload p : Fields) (actions records : List Json)
    → payload ≡ p
    → get "plans" p ≡ list (items records)
    → Coverage L host_id root payload actions
    → (out : List Fields) × (traverse
          (λ item. exact_keys item plan_keys "signed remediation plan")
          records
        ≡ ok out)
covered_plans L host_id root payload p actions records same plans c =
    let listed : c.signed_plans ≡ elems (items records) =
      some_lem _ _
        (sym c.has_plans ∙ ap (λ fs. as_list (get "plans" fs)) same ∙ ap as_list plans) in
    (c.plans, rw (listed ∙ elems-items records) at c.shaped)
  where
    some_lem : (a b : List Json) → some a ≡ some b → a ≡ b
    some_lem a b e = ground arith

-- No agent, whatever it has pinned and whenever it is asked, accepts a contract that the platform builds
-- from a change set as it was created.
pub created-refused :
    (L : Library) (made : Generated) (now at : ℕ) (user : User) (request : ChangeSetRequest)
    (db : Db) {db' : Db} (cs : RemediationChangeSet) (signature endorsement_signature : String)
    (change_key : PlatformChangeSigningKey) (command_key : PlatformCommandSigningKey)
    (target : Fields) (actions : List Json) (pins : Pins) (asked_at : ℕ) (summary : Fields)
    → create_change_set L made now at user request db ≡ ok db'
    → db'.change_sets ≡ db.change_sets ++ (cs ∷ [])
    → validate_remediation_contract_preview L pins asked_at (
        dict (
          contract_document
            (change_set_block cs signature change_key)
            (endorsement_of cs change_key command_key)
            endorsement_signature
            target
            actions))
      ≢ ok summary
created-refused L made now at user request db cs signature endorsement_signature change_key
      command_key target actions pins asked_at summary created last accepted =
    let admission = create-eq-ok L made now at user request db created in
    let selected = selected_plans db user request.plan_ids in
    let row = append-last db.change_sets (sym last ∙ admission.written) in
    let a = preview-Accepted L pins asked_at _ accepted in
    let same =
      Accepted-payload L pins asked_at cs signature endorsement_signature change_key command_key
        target actions a
      ∙ ap (λ (c : RemediationChangeSet). c.payload) row in
    let (out, shaped) =
      covered_plans L pins.host_id a.root a.payload _ a.actions admission.plan_records same
        (get-plans L made.change_set_id at user request admission.plan_records
          admission.target_records)
        a.coverage in
    records-refused admission.scope (sort_by (λ (p : RemediationPlan). p.id) selected) out
      (omega (
        arith,
        admission.some_plans,
        admission.plans.complete,
        length-sort_by (λ (p : RemediationPlan). p.id) selected,
      ))
      admission.built shaped
