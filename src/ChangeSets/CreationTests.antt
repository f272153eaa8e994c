-- ===== src/ChangeSets/CreationTests.antt =====
-- The creation of the scenario's change set, and the requests that follow it.
use lsa.Base.{◌≡◌, ◌++◌, refl, true, [], ◌∷◌, string_eq, arith, ok}
use lsa.Json.{dict}
use lsa.Library.{digest_of}
use lsa.Schema.ChangeSets.{RemediationChangeSet}
use lsa.ChangeSets.Integrity.{check_identity, check_columns}
use lsa.ChangeSets.Creation.{create_change_set}
use lsa.ChangeSets.Admission.{Admission, create-eq-ok}
use lsa.ChangeSets.Fresh.{Prints, create-fresh}
use lsa.ChangeSets.Requests.{create, authorize, cancel, serve}
use lsa.ChangeSets.Exclusion.{IsExclusive, serve-IsExclusive}
use lsa.Scenario.{
  toy, admin, change_key, idle_fleet, made, asked_for, returns, returned, returns-eq-ok,
}

pub creation_returns :
    returns (create_change_set toy made 2000 2001 admin asked_for idle_fleet) ≡ true
unfolding create_change_set string_eq native.Mathlib.Decide.ℕ_discrete
    lsa.ChangeSets.Creation.check_plans lsa.Base.sort_by lsa.Plans.stored_action
    lsa.Catalog.validate_action_snapshot lsa.Catalog.action_digest
    lsa.ChangeSets.Creation.Scope.scope_of lsa.Base.sorted_set lsa.ChangeSets.latest_policy_version
    lsa.ChangeSets.Creation.Scope.check_limits lsa.ChangeSets.Checks.strictest
    lsa.ChangeSets.Checks.int_limit lsa.ChangeSets.policy_limit
    lsa.ChangeSets.Creation.Envelope.payload_of
creation_returns = refl

create-eq-ok_example :
    Admission toy made 2000 2001 admin asked_for idle_fleet
      (returned idle_fleet (create_change_set toy made 2000 2001 admin asked_for idle_fleet))
create-eq-ok_example = create-eq-ok toy made 2000 2001 admin asked_for idle_fleet (
    returns-eq-ok idle_fleet (create_change_set toy made 2000 2001 admin asked_for idle_fleet)
      creation_returns)

toy-Prints : Prints toy asked_for
unfolding string_eq
toy-Prints = record { text = λ s. refl; number = λ n. refl; start = refl; end = refl }

create-fresh_example :
    (cs : RemediationChangeSet) × ((returned idle_fleet
        (create_change_set toy made 2000 2001 admin asked_for idle_fleet)).change_sets
      ≡ idle_fleet.change_sets ++ (cs ∷ []))
    × (cs.id ≡ made.change_set_id)
    × (digest_of toy (dict cs.payload) ≡ cs.digest)
    × (check_identity toy cs ≡ ok tt)
    × (check_columns toy cs ≡ ok tt)
create-fresh_example = create-fresh toy made 2000 2001 admin asked_for idle_fleet toy-Prints (
    returns-eq-ok idle_fleet (create_change_set toy made 2000 2001 admin asked_for idle_fleet)
      creation_returns)

idle-IsExclusive : IsExclusive idle_fleet
idle-IsExclusive = record {
  one_plan = λ id. ground arith;
  linked = tt;
  exclusive = λ id. ground arith;
}

serve-IsExclusive_example : IsExclusive (
    serve toy
      ((2000, admin, create made 2001 asked_for)
        ∷ (2100, admin, create made 2101 asked_for)
        ∷ (2200, admin, authorize change_key 2201 "cs1")
        ∷ (2300, admin, cancel "cs1" "late")
        ∷ [])
      idle_fleet)
serve-IsExclusive_example =
    serve-IsExclusive toy
      ((2000, admin, create made 2001 asked_for)
        ∷ (2100, admin, create made 2101 asked_for)
        ∷ (2200, admin, authorize change_key 2201 "cs1")
        ∷ (2300, admin, cancel "cs1" "late")
        ∷ [])
      idle_fleet idle-IsExclusive
