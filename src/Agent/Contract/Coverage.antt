-- ===== src/Agent/Contract/Coverage.antt =====
-- What the loop over the actions of a contract establishes: one safe action for each signed plan of the
-- host.
use lsa.Base.{
  and_left, and_right, map, Option, none, ◌∙◌, String, Bool, true, false, ◌||◌, ◌≡◌, refl, sym,
  List, [], ◌∷◌, some, string_eq, contains, any, all, All, ◌==◌, Distinct, ok, after, after_check,
  raise_if, require, require-eq-ok, or_raise, or_raise-eq-ok, for_each, traverse, arith, Fault,
}
use lsa.Json.{
  null, bool, int, list, Json, Fields, dict, str, get, text_is, as_dict, as_list, as_text, last_by,
}
use lsa.Library.{Library}
use lsa.Agent.Contract.{exact_keys, plan_keys}
use lsa.Agent.Contract.Action.{validate_action_record}
use lsa.Agent.Contract.Preview.{
  Pins, check_actions, covered_actions, plans_for_host, is_covered, some_actions, hashable,
}
use lsa.Agent.Contract.ActionSoundness.{SafeAction, validate-SafeAction}

-- The action is that of the plan with the identifier.
abbrev pub names_plan : String → Json → Bool
names_plan id (dict entry) = text_is id (get "plan_id" entry)
names_plan id _ = false

-- A safe action for one of the signed plans.
abbrev pub IsPlanned : Library → String → List Fields → Json → Type 0
IsPlanned L host_id plans action =
    (entry : Fields) × (plan : Fields) × (id : String) × (action ≡ dict entry)
    × (get "plan_id" entry ≡ str id)
    × (last_by "plan_id" id plans ≡ some plan)
    × SafeAction L host_id plan entry

-- The identifier that an action carries.
abbrev pub plan_id_of : Json → Json
plan_id_of (dict entry) = get "plan_id" entry
plan_id_of _ = null

record Loop (L : Library) (plans : List Fields) (host_id : String) (ids : List String)
    (actions : List Json) (done : List String) : Type 0 where
  planned : All (IsPlanned L host_id plans) actions
  own : List String
  carried : map plan_id_of actions ≡ map str own
  distinct : Distinct own
  fresh : (id : String) → contains own id ≡ true → contains ids id ≡ false
  gathered : (id : String) → contains done id ≡ (contains own id || contains ids id)
  named :
      (id : String)
      → contains done id ≡ true
      → (contains ids id || any (names_plan id) actions) ≡ true

as_dict-eq-some : (v : Json) {fs : Fields} → as_dict v ≡ some fs → v ≡ dict fs
as_dict-eq-some v e = ground arith

as_text-eq-some : (v : Json) {s : String} → as_text v ≡ some s → v ≡ str s
as_text-eq-some v e = ground arith

raised : (b : Bool) (f : Fault) → raise_if b f ≡ ok tt → b ≡ false
raised false f e = refl
raised true f e = cc

named_lem :
    (action : Json) (entry : Fields) (id other : String)
    → action ≡ dict entry
    → get "plan_id" entry ≡ str id
    → (other == id) ≡ true
    → names_plan other action ≡ true
named_lem action entry id other same named h = rw (same, named) (ground arith)

-- How a list of identifiers grows in front of those that were there.
fresh_lem :
    (own ids : List String) (id : String)
    → (contains own id ≡ true → contains (id ∷ ids) id ≡ false)
    → contains own id ≡ false
fresh_lem own ids id h = ground (arith, h)

fresher_lem :
    (own ids : List String) (first id : String)
    → contains ids first ≡ false
    → (contains own id ≡ true → contains (first ∷ ids) id ≡ false)
    → contains (first ∷ own) id ≡ true
    → contains ids id ≡ false
fresher_lem own ids first id new rest h = ground (arith, new, rest, h)

gather_lem :
    (own ids : List String) (first id : String)
    → (contains own id || contains (first ∷ ids) id)
      ≡ (contains (first ∷ own) id || contains ids id)
gather_lem own ids first id = ground arith

covered_lem :
    (done own : List String) (plans : List Fields)
    → ((id : String) → contains done id ≡ contains own id)
    → all (is_covered done) plans ≡ true
    → all (is_covered own) plans ≡ true
covered_lem done own [] same h = refl
covered_lem done own (plan ∷ plans) same h =
    rw
      (
        here (as_text (get "plan_id" plan)) (and_left (is_covered done plan) _ h),
        covered_lem done own plans same (and_right (is_covered done plan) _ h),
      )
      refl
  where
    here :
        (o : Option String)
        → (elim o [ none ↦ false | some id ↦ contains done id ]) ≡ true
        → (elim o [ none ↦ false | some id ↦ contains own id ]) ≡ true
    here none h = h
    here (some id) h = sym (same id) ∙ h

check_actions-Loop :
    (L : Library) (plans : List Fields) (host_id : String) (ids : List String) (actions : List Json)
    {done : List String}
    → check_actions L plans host_id ids actions ≡ ok done
    → Loop L plans host_id ids actions done
unfolding check_actions
check_actions-Loop L plans host_id ids [] {done} e =
    let same : ids ≡ done = ground arith in
    record {
      planned = tt;
      own = [];
      carried = refl;
      distinct = tt;
      fresh = λ id h. cc;
      gathered = λ id. rw (sym same) refl;
      named = λ id h. left _ (rw (sym same) at h);
    }
  where
    left : (b : Bool) → b ≡ true → (b || false) ≡ true
    left b h = ground arith
check_actions-Loop L plans host_id ids (action ∷ actions) e =
    after (or_raise (as_dict action) _) _ e λ entry shaped e.
      after (or_raise (as_text (get "plan_id" entry)) _) _ e λ plan_id known e.
        after_check (raise_if (contains ids plan_id) _) _ e λ new e.
          after (or_raise (last_by "plan_id" plan_id plans) _) _ e λ plan found e.
            after_check (validate_action_record L entry plan host_id) _ e λ safe e.
              let rest = check_actions-Loop L plans host_id (plan_id ∷ ids) actions e in
              let same = as_dict-eq-some action (or_raise-eq-ok _ _ shaped) in
              let named = as_text-eq-some (get "plan_id" entry) (or_raise-eq-ok _ _ known) in
              record {
                planned = (
                  (
                    entry,
                    plan,
                    plan_id,
                    same,
                    named,
                    or_raise-eq-ok _ _ found,
                    validate-SafeAction L entry plan host_id safe,
                  ),
                  rest.planned,
                );
                own = plan_id ∷ rest.own;
                carried = rw (same, named, rest.carried) refl;
                distinct = (fresh_lem rest.own ids plan_id (rest.fresh plan_id), rest.distinct);
                fresh =
                    λ id h. fresher_lem rest.own ids plan_id id (raised _ _ new) (rest.fresh id) h;
                gathered = λ id. rest.gathered id ∙ gather_lem rest.own ids plan_id id;
                named = λ id h.
                    ground (arith, rest.named id h, named_lem action entry plan_id id same named);
              }

-- The actions are those of the contract. Each is safe and of a signed plan of the host, no two are of one
-- plan, and each plan has one.
pub record Coverage (L : Library) (host_id : String) (root payload : Fields) (actions : List Json)
    : Type 0 where
  pub has_actions : as_list (get "actions" root) ≡ some actions
  pub signed_plans : List Json
  pub has_plans : as_list (get "plans" payload) ≡ some signed_plans
  pub plans : List Fields
  pub shaped :
      traverse (λ item. exact_keys item plan_keys "signed remediation plan") signed_plans ≡ ok plans
  pub planned : All (IsPlanned L host_id (plans_for_host host_id plans)) actions
  pub ids : List String
  pub carried : map plan_id_of actions ≡ map str ids
  pub distinct : Distinct ids
  pub named : (id : String) → contains ids id ≡ true → any (names_plan id) actions ≡ true
  pub complete :
      All
        (λ plan. (id : String) × (get "plan_id" plan ≡ str id) × (contains ids id ≡ true))
        (plans_for_host host_id plans)

complete_lem :
    (ids : List String) (plans : List Fields)
    → all (is_covered ids) plans ≡ true
    → All (λ plan. (id : String) × (get "plan_id" plan ≡ str id) × (contains ids id ≡ true)) plans
complete_lem ids [] h = tt
complete_lem ids (plan ∷ plans) h = (
  here (get "plan_id" plan) (and_left (is_covered ids plan) _ h),
  complete_lem ids plans (and_right (is_covered ids plan) _ h),
)
  where
    here :
        (v : Json)
        → (elim (as_text v) [ none ↦ false | some id ↦ contains ids id ]) ≡ true
        → (id : String) × (v ≡ str id) × (contains ids id ≡ true)
    here (str id) h = (id, refl, h)
    here null h = cc
    here (bool b) h = cc
    here (int n) h = cc
    here (list xs) h = cc
    here (dict fs) h = cc

listed_lem :
    (v : Json) {listed actions : List Json}
    → as_list v ≡ some listed
    → some_actions listed ≡ some actions
    → as_list v ≡ some actions
listed_lem v {listed = x ∷ xs} e h = e ∙ h
listed_lem v {listed = []} e h = cc

left_or : (a b : Bool) → a ≡ true → (a || b) ≡ true
left_or a b h = ground arith

or_false : (a : Bool) → (a || false) ≡ a
or_false a = ground arith

pub covered_actions-Coverage :
    (L : Library) (pins : Pins) (root payload : Fields) {actions : List Json}
    → covered_actions L pins root payload ≡ ok actions
    → Coverage L pins.host_id root payload actions
unfolding covered_actions
covered_actions-Coverage L pins root payload e =
    after (or_raise (as_list (get "plans" payload)) _) _ e λ signed_plans has_plans e.
      after (or_raise (as_list (get "actions" root)) _) _ e λ listed has e.
        after (or_raise (some_actions listed) _) _ e λ actions nonempty e.
          after (traverse (λ item. exact_keys item plan_keys _) signed_plans) _ e λ plans shaped e.
            let own = plans_for_host pins.host_id plans in
            after_check (for_each (λ plan. hashable (get "plan_id" plan)) own) _ e λ hashed e.
              after (check_actions L own pins.host_id [] actions) _ e λ ids checked e.
                after_check (require (all (is_covered ids) own) _) _ e λ complete e.
                  let loop = check_actions-Loop L own pins.host_id [] actions checked in
                  moved actions _ (ground arith) (record {
                    has_actions =
                        listed_lem (get "actions" root) (or_raise-eq-ok _ _ has)
                          (or_raise-eq-ok _ _ nonempty);
                    signed_plans = signed_plans;
                    has_plans = or_raise-eq-ok _ _ has_plans;
                    plans = plans;
                    shaped = shaped;
                    planned = loop.planned;
                    ids = loop.own;
                    carried = loop.carried;
                    distinct = loop.distinct;
                    named = λ id h. loop.named id (loop.gathered id ∙ left_or _ _ h);
                    complete = complete_lem loop.own own (
                        covered_lem ids loop.own own
                          (λ id. loop.gathered id ∙ or_false (contains loop.own id))
                          (require-eq-ok _ _ complete));
                  })
  where
    moved :
        (xs ys : List Json)
        → xs ≡ ys
        → Coverage L pins.host_id root payload xs
        → Coverage L pins.host_id root payload ys
    moved xs ys same c = rw (sym same) c
