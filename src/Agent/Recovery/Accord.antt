-- ===== src/Agent/Recovery/Accord.antt =====
-- The documents of a plan that the platform has accepted, as the agent reads them.
use lsa.Base.{
  and_left, and_right, String, Bool, true, ◌&&◌, ◌≡◌, refl, ap, ◌∙◌, List, [], ◌∷◌, some, none,
  Option, nat_eq, string_eq, map, arith, ok, traverse, pos,
}
use lsa.Json.{
  Json, Fields, field, end, str, int, dict, list, null, bool, get, has, as_list, as_dicts, dicts_of,
  py_eq, elems,
}
use lsa.Library.{Library}
use lsa.Receipts.{agrees, all_agree, ids_of}
use lsa.Agent.Recovery.Compile.{Entry, checkpoint_id}
use lsa.Agent.Recovery.Agreement.{expectation}
use lsa.Agent.Recovery.Binding.{check_entries, entry_id}
use lsa.Agent.Recovery.Bound.{target}

six_lem :
    (c a o p q r : Bool)
    → (c && (a && (o && (p && (q && (r && true)))))) ≡ true
    → (c && (q && (a && (o && (r && (p && true)))))) ≡ true
six_lem c a o p q r h = ground arith

target-agrees :
    (L : Library) (e : Entry) (doc : Fields)
    → agrees doc (expectation L e) ≡ true
    → agrees doc (target L e) ≡ true
target-agrees L e doc h =
    six_lem (py_eq (get "checkpoint_id" doc) (str (checkpoint_id L e)))
      (py_eq (get "action_digest" doc) e.action_digest)
      (py_eq (get "operation_index" doc) (int (pos e.operation_index)))
      (py_eq (get "path" doc) (str e.path)) (py_eq (get "plan_id" doc) e.plan_id)
      (py_eq (get "rollback_index" doc) (int e.rollback_index)) h

-- A document with a text under a key has the key.
has-text : (k s : String) (doc : Fields) → py_eq (get k doc) (str s) ≡ true → has k doc ≡ true
unfolding py_eq
has-text k s end h = ground arith
has-text k s (field key v doc) h = ground (arith, has-text k s doc)

id_lem :
    (L : Library) (e : Entry) (doc : Fields)
    → agrees doc (expectation L e) ≡ true
    → entry_id (dict doc) ≡ ok (get "checkpoint_id" doc)
id_lem L e doc h =
    rw (has-text "checkpoint_id" _ doc (and_left (py_eq (get "checkpoint_id" doc) _) _ h)) refl

cons_lem :
    (o : Option (List Fields)) (fs : Fields) (xs : List Json) {docs : List Fields}
    → ((ds : List Fields) → o ≡ some ds → xs ≡ map dict ds)
    → (elim o [ none ↦ none | some fss ↦ some (fs ∷ fss) ]) ≡ some docs
    → dict fs ∷ xs ≡ map dict docs
cons_lem none fs xs before h = cc
cons_lem (some ds) fs xs {docs} before h =
    let same : fs ∷ ds ≡ docs = ground (arith, h) in
    ap (λ ys. dict fs ∷ ys) (before ds refl) ∙ ap (map dict) same

items_lem : (xs : List Json) {docs : List Fields} → dicts_of xs ≡ some docs → xs ≡ map dict docs
items_lem [] {docs} h = let same : [] ≡ docs = ground (arith, h) in ap (map dict) same
items_lem (dict fs ∷ xs) h = cons_lem (dicts_of xs) fs xs (λ ds e. items_lem xs e) h
items_lem (null ∷ xs) h = cc
items_lem (bool b ∷ xs) h = cc
items_lem (int n ∷ xs) h = cc
items_lem (str s ∷ xs) h = cc
items_lem (list ys ∷ xs) h = cc

pub dicts_lem :
    (v : Json) {docs : List Fields} → as_dicts v ≡ some docs → as_list v ≡ some (map dict docs)
dicts_lem (list xs) h = ap some (items_lem (elems xs) h)
dicts_lem null h = cc
dicts_lem (bool b) h = cc
dicts_lem (int n) h = cc
dicts_lem (str s) h = cc
dicts_lem (dict fs) h = cc

pub check_lem :
    (L : Library) (docs : List Fields) (es : List Entry)
    → all_agree docs (map (expectation L) es) ≡ true
    → (check_entries (map dict docs) (map (target L) es) ≡ ok tt)
      × (traverse entry_id (map dict docs) ≡ ok (ids_of docs))
unfolding check_entries
check_lem L [] [] h = (refl, refl)
check_lem L [] (e ∷ es) h = cc
check_lem L (doc ∷ docs) [] h = cc
check_lem L (doc ∷ docs) (e ∷ es) h =
    let first = (and_left (agrees doc (expectation L e)) _ h) in
    let later = check_lem L docs es (and_right (agrees doc (expectation L e)) _ h) in
    (rw (target-agrees L e doc first) later.0, rw (id_lem L e doc first, later.1) refl)
