-- ===== src/Agent/Recovery/Passage.antt =====
-- A plan that the platform hands to the agent.
use lsa.Base.{
  step_lem, true, ◌≡◌, refl, sym, ap, ◌∙◌, List, [], ◌∷◌, some, ◌==◌, nat_eq, string_eq, map,
  length, arith, ok, traverse, require, or_raise,
}
use lsa.Json.{Json, Fields, dict, get, as_list}
use lsa.Library.{Library}
use lsa.Receipts.{all_agree, ids_of, distinct, in_order, validate_recovery_plan, expected_entries}
use lsa.Receipts.Soundness.{validate-ValidPlan}
use lsa.Agent.Recovery.Sources.{Disk}
use lsa.Agent.Recovery.Compile.{Entry, list_at, all_entries}
use lsa.Agent.Recovery.Agreement.{expectation, all_entries-expected_entries, list_at_lem}
use lsa.Agent.Recovery.Binding.{
  check_entries, entry_id, is_locked, all_targets, validate_recovery_plan_binding,
}
use lsa.Agent.Recovery.Bound.{target, all_targets-entries}
use lsa.Agent.Recovery.Accord.{dicts_lem, check_lem}

lengths_lem :
    (L : Library) (docs : List Fields) (es : List Entry)
    → all_agree docs (map (expectation L) es) ≡ true
    → (length (map dict docs) == length (map (target L) es)) ≡ true
lengths_lem L [] [] h = ground arith
lengths_lem L [] (e ∷ es) h = cc
lengths_lem L (doc ∷ docs) [] h = cc
lengths_lem L (doc ∷ docs) (e ∷ es) h = ground (arith, lengths_lem L docs es)

binding_lem :
    (L : Library) (contract plan : Fields) (docs : List Fields) (es : List Entry)
    {actions : List Json}
    → list_at "actions" contract ≡ ok actions
    → all_targets L actions ≡ ok (map (target L) es)
    → is_locked plan ≡ true
    → as_list (get "entries" plan) ≡ some (map dict docs)
    → all_agree docs (map (expectation L) es) ≡ true
    → distinct (ids_of docs) ≡ true
    → in_order (get "rollback_order" plan) (ids_of docs) ≡ true
    → validate_recovery_plan_binding L contract plan ≡ ok tt
unfolding validate_recovery_plan_binding
binding_lem L contract plan docs es {actions} a t locked listed agree ids order =
    step_lem (list_at "actions" contract) _ a (
      step_lem (all_targets L actions) _ t (
        step_lem (require (is_locked plan) _) _ (rw locked refl) (
          step_lem (or_raise (as_list (get "entries" plan)) _) _ (rw listed refl) (
            step_lem (require (length (map dict docs) == length (map (target L) es)) _) _
              (rw (lengths_lem L docs es agree) refl)
              (step_lem (check_entries (map dict docs) (map (target L) es)) _
                (check_lem L docs es agree).0
                (step_lem (traverse entry_id (map dict docs)) _ (check_lem L docs es agree).1
                  (rw (ids, order) refl)))))))

some_lem {ℓ} : {A : Type ℓ} {x y : A} → some x ≡ some y → x ≡ y
some_lem e = ground (arith, e)

-- Where the agent can read the entries of a contract, it accepts a plan that the platform accepts, if the plan
-- is ready and neither enables execution nor says that changes were applied.
pub validate-binding :
    (L : Library) (disk : Disk) (contract plan : Fields) {actions : List Json}
    {entries : List Entry}
    → list_at "actions" contract ≡ ok actions
    → all_entries L disk actions ≡ ok entries
    → validate_recovery_plan L contract plan ≡ true
    → is_locked plan ≡ true
    → validate_recovery_plan_binding L contract plan ≡ ok tt
validate-binding L disk contract plan {actions} {entries} a h valid locked =
    let v = validate-ValidPlan L contract plan valid in
    let same_actions : v.actions ≡ actions =
      some_lem (sym v.has_actions ∙ list_at_lem "actions" contract a) in
    let same : v.expected ≡ map (expectation L) entries = some_lem (
      sym v.calls_for
      ∙ ap (expected_entries L) same_actions
      ∙ all_entries-expected_entries L disk actions h) in
    binding_lem L contract plan v.entries entries a (all_targets-entries L disk actions h) locked
      (dicts_lem (get "entries" plan) v.has_entries) (ap (all_agree v.entries) (sym same) ∙ v.agree)
      v.distinct_ids v.reversed
