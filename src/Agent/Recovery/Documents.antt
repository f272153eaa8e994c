-- ===== src/Agent/Recovery/Documents.antt =====
-- The documents of entries, as the platform reads them.
use lsa.Base.{
  String, true, ◌≡◌, refl, ap, List, [], ◌∷◌, some, string_eq, nat_eq, map, all, All, ℤ, pos,
  negsuc, leb_ℤ, arith,
}
use lsa.Json.{Json, Fields, str, int, dict, list, items, elems, get, dicts_of, as_dicts, py_eq}
use lsa.Library.{Library}
use lsa.Receipts.{agrees, all_agree, state_holds, ids_of, restorable, same_list}
use lsa.Agent.Recovery.Sources.{Source, absent, blocked, regular_file}
use lsa.Agent.Recovery.Compile.{Entry, entry_fields, checkpoint_id, combined, is_ready}
use lsa.Agent.Recovery.Agreement.{expectation}

py_eq-text : (s : String) → py_eq (str s) (str s) ≡ true
unfolding py_eq
py_eq-text s = ground arith

py_eq-int : (n : ℤ) → py_eq (int n) (int n) ≡ true
unfolding py_eq
py_eq-int (pos n) = ground arith
py_eq-int (negsuc n) = ground arith

pub elems-items : (xs : List Json) → elems (items xs) ≡ xs
elems-items [] = refl
elems-items (x ∷ xs) = ap (λ ys. x ∷ ys) (elems-items xs)

dicts_of-map {ℓ} :
    {A : Type ℓ} (f : A → Fields) (xs : List A)
    → dicts_of (map (λ x. dict (f x)) xs) ≡ some (map f xs)
dicts_of-map f [] = refl
dicts_of-map f (x ∷ xs) = rw (dicts_of-map f xs) refl

pub as_dicts-map {ℓ} :
    {A : Type ℓ} (f : A → Fields) (xs : List A)
    → as_dicts (list (items (map (λ x. dict (f x)) xs))) ≡ some (map f xs)
as_dicts-map f xs = rw (elems-items (map (λ x. dict (f x)) xs)) (dicts_of-map f xs)

-- A document with the six identities of an entry.
agree_lem :
    (L : Library) (doc : Fields) (e : Entry) (p d : String)
    → e.plan_id ≡ str p
    → e.action_digest ≡ str d
    → get "checkpoint_id" doc ≡ str (checkpoint_id L e)
    → get "action_digest" doc ≡ e.action_digest
    → get "operation_index" doc ≡ int (pos e.operation_index)
    → get "path" doc ≡ str e.path
    → get "plan_id" doc ≡ e.plan_id
    → get "rollback_index" doc ≡ int e.rollback_index
    → agrees doc (expectation L e) ≡ true
agree_lem L doc e p d plan digest c a o f q r =
    rw (c, a, o, f, q, r, plan, digest)
      (rw (py_eq-text, py_eq-text, py_eq-int, py_eq-text, py_eq-text, py_eq-int) refl)

-- An entry whose plan and digest are texts, as those of the platform's records are.
abbrev pub IsTexted : Entry → Type 0
IsTexted e = (p : String) × (d : String) × (e.plan_id ≡ str p) × (e.action_digest ≡ str d)

entry_agrees :
    (L : Library) (all : List Entry) (e : Entry)
    → IsTexted e
    → agrees (entry_fields L (combined all e)) (expectation L e) ≡ true
unfolding string_eq
entry_agrees L all e (p, d, plan, digest) =
    agree_lem L (entry_fields L (combined all e)) e p d plan digest refl refl refl refl refl refl

pub all_agree-combined :
    (L : Library) (all es : List Entry)
    → All IsTexted es
    → all_agree (map (entry_fields L) (map (combined all) es)) (map (expectation L) es) ≡ true
all_agree-combined L all [] h = refl
all_agree-combined L all (e ∷ es) h =
    rw (entry_agrees L all e h.0, all_agree-combined L all es h.1) refl

-- The state of an entry is one of the three that the platform knows.
state_lem :
    (L : Library) (e : Entry) (s : Source)
    → state_holds (entry_fields L (record e { source = s })) ≡ true
unfolding string_eq
state_lem L e absent = refl
state_lem L e (blocked detail) = refl
state_lem L e (regular_file digest size mode uid gid) = refl

pub all-state_holds :
    (L : Library) (es : List Entry) → all state_holds (map (entry_fields L) es) ≡ true
all-state_holds L [] = refl
all-state_holds L (e ∷ es) = rw (state_lem L e e.source, all-state_holds L es) refl

pub ids_of-entries :
    (L : Library) (es : List Entry)
    → ids_of (map (entry_fields L) es) ≡ map (λ e. str (checkpoint_id L e)) es
unfolding string_eq
ids_of-entries L [] = refl
ids_of-entries L (e ∷ es) = ap (λ ids. str (checkpoint_id L e) ∷ ids) (ids_of-entries L es)

pub paths_of-entries :
    (L : Library) (es : List Entry)
    → map (get "path") (map (entry_fields L) es) ≡ map (λ (e : Entry). str e.path) es
unfolding string_eq
paths_of-entries L [] = refl
paths_of-entries L (e ∷ es) = ap (λ paths. str e.path ∷ paths) (paths_of-entries L es)

-- The index of an entry that is ready is a position.
abbrev pub IsIndexed : Entry → Type 0
IsIndexed e = is_ready e.source ≡ true → leb_ℤ (pos 0) e.rollback_index ≡ true

restorable_lem :
    (L : Library) (e : Entry) (s : Source)
    → (is_ready s ≡ true → leb_ℤ (pos 0) e.rollback_index ≡ true)
    → restorable (entry_fields L (record e { source = s })) ≡ is_ready s
unfolding string_eq
restorable_lem L e absent h = h refl
restorable_lem L e (blocked detail) h = refl
restorable_lem L e (regular_file digest size mode uid gid) h = h refl

pub all-restorable :
    (L : Library) (es : List Entry)
    → All IsIndexed es
    → all restorable (map (entry_fields L) es) ≡ all (λ (e : Entry). is_ready e.source) es
all-restorable L [] h = refl
all-restorable L (e ∷ es) h = rw (restorable_lem L e e.source h.0, all-restorable L es h.1) refl

pub same_list-texts : (xs : List String) → same_list (map str xs) (map str xs) ≡ true
same_list-texts [] = refl
same_list-texts (x ∷ xs) = rw (py_eq-text x, same_list-texts xs) refl
