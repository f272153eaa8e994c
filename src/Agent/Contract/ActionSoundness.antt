-- ===== src/Agent/Contract/ActionSoundness.antt =====
-- What `_validate_action_record` establishes of an action.
use lsa.Base.{
  String, Bool, true, false, ◌&&◌, ◌≡◌, refl, sym, List, [], ◌∷◌, ◌++◌, some, string_eq, contains,
  any, all, All, All-append, any-append, ok, after, after_check, raise_if, require, require-eq-ok,
  or_raise, or_raise-eq-ok, for_each, arith, Fault,
}
use lsa.Json.{Json, Fields, dict, get, text_is, as_list, py_eq, subset}
use lsa.Library.{Library}
use lsa.ChangeSets.Checks.{is_nonempty}
use lsa.Agent.Contract.{
  exact_keys, is_executable, action_keys, parameter_keys, validation_keys, impact_keys,
}
use lsa.Agent.Contract.Action.{
  Paths, stage, record_keys, compared_keys, is_in, snapshot_digest, same_identity, check_identity,
  has_keys, check_support, check_precondition, check_operations, check_stages,
  validate_action_record,
}
use lsa.Agent.Contract.Backups.{
  IsAllowed, modifies, restores, exact_keys-eq-ok, Loop, check_operations-Loop,
}

-- The operations and the rollback are allowed, and each file that one of them backs up is one that one
-- of them restores.
pub record StagesHold (L : Library) (snapshot : Fields) : Type 0 where
  pub operations : List Json
  pub has_operations : stage "operations" snapshot ≡ some operations
  pub rollback : List Json
  pub has_rollback : stage "rollback" snapshot ≡ some rollback
  pub allowed : All (IsAllowed L) (operations ++ rollback)
  pub backed_up :
      (path : String)
      → any (modifies path) (operations ++ rollback) ≡ true
      → any (restores path) (operations ++ rollback) ≡ true

subset-contains :
    (xs ys : List String) (x : String)
    → subset xs ys ≡ true
    → contains xs x ≡ true
    → contains ys x ≡ true
subset-contains [] ys x h e = cc
subset-contains (z ∷ xs) ys x h e = ground (arith, subset-contains xs ys x)

covered :
    (L : Library) (ops rollback : List Json) (middle paths : Paths) (path : String)
    → Loop L ops (record { modified = []; restored = [] }) middle
    → Loop L rollback middle paths
    → subset paths.modified paths.restored ≡ true
    → any (modifies path) (ops ++ rollback) ≡ true
    → any (restores path) (ops ++ rollback) ≡ true
covered L ops rollback middle paths path first second within h = ground (
  arith,
  any-append (modifies path) ops rollback,
  any-append (restores path) ops rollback,
  first.modified path,
  second.keeps path,
  second.modified path,
  subset-contains paths.modified paths.restored path within,
  second.restored path,
  first.restored path,
)

and_true : (a b : Bool) → (a && b) ≡ true → (a ≡ true) × (b ≡ true)
and_true true true h = (refl, refl)
and_true true false h = cc
and_true false b h = cc

check_stages-StagesHold :
    (L : Library) (snapshot : Fields) → check_stages L snapshot ≡ ok tt → StagesHold L snapshot
unfolding check_stages
check_stages-StagesHold L snapshot e =
    after (or_raise (stage "operations" snapshot) _) _ e λ operations has_operations e.
      after (or_raise (stage "rollback" snapshot) _) _ e λ rollback has_rollback e.
        after (or_raise (stage "validation" snapshot) _) _ e λ validation has_validation e.
          after (or_raise (stage "preconditions" snapshot) _) _ e λ preconditions has e.
            after (or_raise (stage "supported_systems" snapshot) _) _ e λ support has_support e.
              after_check (for_each check_support support) _ e λ supported e.
                after (or_raise (as_list (get "parameters" snapshot)) _) _ e λ parameters has_p e.
                  after_check (for_each (has_keys parameter_keys _) parameters) _ e λ typed e.
                    after_check (for_each check_precondition preconditions) _ e λ closed e.
                      after_check (for_each (has_keys validation_keys _) validation) _ e λ valid e.
                        after_check (has_keys impact_keys _ (get "impact" snapshot)) _ e λ impact e.
                          after (check_operations L "operations" operations _) _ e λ middle first e.
                            after (check_operations L "rollback" rollback middle) _ e
                              λ paths second e.
                                let (_, within) =
                                  and_true (is_nonempty paths.modified) _ (require-eq-ok _ _ e) in
                                let one = check_operations-Loop L "operations" operations _ first in
                                let two =
                                  check_operations-Loop L "rollback" rollback middle second in
                                record {
                                  operations = operations;
                                  has_operations = or_raise-eq-ok _ _ has_operations;
                                  rollback = rollback;
                                  has_rollback = or_raise-eq-ok _ _ has_rollback;
                                  allowed =
                                      All-append (IsAllowed L) operations rollback one.allowed
                                        two.allowed;
                                  backed_up = λ path.
                                      covered L operations rollback middle paths path one two
                                        within;
                                }

-- An action that may be taken up: as the signed plan says, for this host, with the digest of its snapshot,
-- without executable content, and with stages that hold.
pub record SafeAction (L : Library) (host_id : String) (plan entry : Fields) : Type 0 where
  pub agrees : All (λ key. py_eq (get key entry) (get key plan) ≡ true) compared_keys
  pub here : text_is host_id (get "host_id" entry) ≡ true
  pub snapshot : Fields
  pub has_snapshot : get "action_snapshot" entry ≡ dict snapshot
  pub not_executable : is_executable L snapshot ≡ false
  pub digest : text_is (snapshot_digest L snapshot) (get "action_digest" entry) ≡ true
  pub stages : StagesHold L snapshot

all-All {ℓ} : {A : Type ℓ} (p : A → Bool) (xs : List A) → all p xs ≡ true → All (λ x. p x ≡ true) xs
all-All p [] h = tt
all-All p (x ∷ xs) h = let (here, rest) = and_true (p x) _ h in (here, all-All p xs rest)

digest_lem :
    (L : Library) (snapshot fs : Fields)
    → check_identity L snapshot fs ≡ ok tt
    → text_is (snapshot_digest L snapshot) (get "action_digest" fs) ≡ true
unfolding check_identity
digest_lem L snapshot fs e = after_check (require (same_identity L snapshot fs) _) _ e λ same e.
    after (is_in (get "control_id" fs) (get "control_ids" snapshot)) _ e
      λ listed found e. (and_true listed _ (require-eq-ok _ _ e)).1

same_fields :
    (fs : Fields) (expected : List String) (label : String) {gs : Fields}
    → exact_keys (dict fs) expected label ≡ ok gs
    → gs ≡ fs
unfolding exact_keys
same_fields fs expected label e = ground arith

-- The checks of a record whose fields are `fs`.
record_lem :
    (L : Library) (fs plan : Fields) (host_id : String) (snapshot : Fields)
    → all (λ key. py_eq (get key fs) (get key plan)) compared_keys ≡ true
    → text_is host_id (get "host_id" fs) ≡ true
    → exact_keys (get "action_snapshot" fs) action_keys "action snapshot" ≡ ok snapshot
    → is_executable L snapshot ≡ false
    → check_identity L snapshot fs ≡ ok tt
    → check_stages L snapshot ≡ ok tt
    → SafeAction L host_id plan fs
record_lem L fs plan host_id snapshot agrees own shaped plain identity stages = record {
  agrees = all-All (λ key. py_eq (get key fs) (get key plan)) compared_keys agrees;
  here = own;
  snapshot = snapshot;
  has_snapshot = (exact_keys-eq-ok (get "action_snapshot" fs) action_keys _ shaped).0;
  not_executable = plain;
  digest = digest_lem L snapshot fs identity;
  stages = check_stages-StagesHold L snapshot stages;
}

-- An action record that passes agrees with the signed plan in its six keys, belongs to the host, and has a
-- snapshot of that digest in which no key is forbidden; its operations are of the five kinds and on reviewed
-- paths, and what they back up is restored.
pub validate-SafeAction :
    (L : Library) (entry plan : Fields) (host_id : String)
    → validate_action_record L entry plan host_id ≡ ok tt
    → SafeAction L host_id plan entry
unfolding validate_action_record
validate-SafeAction L entry plan host_id e =
    after (exact_keys (dict entry) record_keys _) _ e λ fs shaped e.
      after_check (require (all (λ key. py_eq (get key fs) (get key plan)) compared_keys) _) _ e
        λ agrees e. after_check (require (text_is host_id (get "host_id" fs)) _) _ e λ own e.
          after (exact_keys (get "action_snapshot" fs) action_keys _) _ e λ snapshot known e.
            after_check (raise_if (is_executable L snapshot) _) _ e λ plain e.
              after_check (check_identity L snapshot fs) _ e λ identity stages.
                let same : fs ≡ entry = same_fields entry record_keys _ shaped in
                rw (sym same) (
                  record_lem L fs plan host_id snapshot (require-eq-ok _ _ agrees)
                    (require-eq-ok _ _ own) known (raised _ _ plain) identity stages)
  where
    raised : (b : Bool) (f : Fault) → raise_if b f ≡ ok tt → b ≡ false
    raised false f e = refl
    raised true f e = cc
