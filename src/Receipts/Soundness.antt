-- ===== src/Receipts/Soundness.antt =====
-- What a recovery plan that passes `validate_recovery_plan` is like.
use lsa.Base.{
  Bool, true, false, ◌≡◌, refl, ◌&&◌, List, Option, none, some, all, map, length, ◌==◌, nat_eq,
  arith, string_eq, if◌then◌else◌,
}
use lsa.Json.{Fields, Json, str, get, as_list, as_dicts, text_is}
use lsa.Library.{Library}
use lsa.Receipts.{
  validate_recovery_plan, expected_entries, all_agree, state_holds, distinct, ids_of, in_order,
  expected_ready, restorable,
}

-- The entries of a plan, against those that the contract's actions call for.
pub record ValidPlan (L : Library) (contract plan : Fields) : Type 0 where
  pub actions : List Json
  pub expected : List Fields
  pub entries : List Fields
  pub has_actions : as_list (get "actions" contract) ≡ some actions
  pub calls_for : expected_entries L actions ≡ some expected
  pub has_entries : as_dicts (get "entries" plan) ≡ some entries
  pub as_many : length entries ≡ length expected
  pub agree : all_agree entries expected ≡ true
  pub states : all state_holds entries ≡ true
  pub distinct_ids : distinct (ids_of entries) ≡ true
  pub reversed : in_order (get "rollback_order" plan) (ids_of entries) ≡ true
  pub restorable_if_ready :
      text_is "ready" (get "status" plan) ≡ true
      → (distinct (map (get "path") entries) ≡ true) × (all restorable entries ≡ true)

blocked_differs : text_is "ready" (str "blocked") ≡ false
unfolding string_eq
blocked_differs = refl

both : (a b : Bool) → (a && b) ≡ true → (a ≡ true) × (b ≡ true)
both a b h = (ground arith, ground arith)

seven :
    (a b c d e f g : Bool)
    → (a && b && (c && d && e && f && g)) ≡ true
    → (a ≡ true) × (c ≡ true) × (d ≡ true) × (e ≡ true) × (f ≡ true) × (g ≡ true)
seven a b c d e f g h =
    (ground arith, ground arith, ground arith, ground arith, ground arith, ground arith)

status_lem :
    (status : Json) (b : Bool)
    → text_is (if b then "ready" else "blocked") status ≡ true
    → text_is "ready" status ≡ true
    → b ≡ true
status_lem status true h r = refl
status_lem (str s) false h r = ground (arith, blocked_differs)
status_lem _ false h r = ground arith

-- A test on what an option holds.
module _ {ℓ ι} {A : Type ℓ} {P : Type ι} where
  present :
      (o : Option A) (test : A → Bool)
      → (elim o [ none ↦ false | some a ↦ test a ]) ≡ true
      → ((a : A) → o ≡ some a → test a ≡ true → P)
      → P
  present none test h next = cc
  present (some a) test h next = next a refl h

pub validate-ValidPlan :
    (L : Library) (contract plan : Fields)
    → validate_recovery_plan L contract plan ≡ true
    → ValidPlan L contract plan
unfolding validate_recovery_plan
validate-ValidPlan L contract plan h =
    present (as_list (get "actions" contract)) _ h λ actions has_actions h.
      present (expected_entries L actions) _ h λ expected calls_for h.
        present (as_dicts (get "entries" plan)) _ h λ entries has_entries h.
          let (as_many, agree, states, ids, order, status) =
            seven (length entries == length expected) _ _ _ _ _ _ h in
          record {
            actions = actions;
            expected = expected;
            entries = entries;
            has_actions = has_actions;
            calls_for = calls_for;
            has_entries = has_entries;
            as_many = ground arith;
            agree = agree;
            states = states;
            distinct_ids = ids;
            reversed = order;
            restorable_if_ready = λ is_ready.
                both (distinct (map (get "path") entries)) _
                  (status_lem (get "status" plan) (expected_ready entries) status is_ready);
          }
