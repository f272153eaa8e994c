-- ===== src/Agent/Contract/Backups.antt =====
-- What the loops over the operations and the rollback of an action establish.
use lsa.Base.{
  String, Bool, true, false, ◌&&◌, ◌||◌, ◌≡◌, refl, sym, Fault, List, [], ◌∷◌, string_eq, contains,
  any, All, ok, after, after_check, require, arith, Bool-cases, inl, inr,
}
use lsa.Json.{Json, Fields, dict, str, get, is_true, text_is, in_set, same_set, keys}
use lsa.Library.{Library}
use lsa.Agent.Contract.{exact_keys, operation_keys, allowed_operation_kinds, validate_path}
use lsa.Agent.Contract.Action.{Paths, added, check_operation, check_operations}

-- The operation backs the file up, or restores it.
abbrev pub modifies : String → Json → Bool
modifies path (dict op) = is_true (get "backup_required" op) && text_is path (get "path" op)
modifies path _ = false

abbrev pub restores : String → Json → Bool
restores path (dict op) = text_is "restore_backup" (get "kind" op) && text_is path (get "path" op)
restores path _ = false

-- An operation of one of the five kinds, on a reviewed path if on any.
abbrev pub IsAllowed : Library → Json → Type 0
IsAllowed L op =
    (fs : Fields) × (op ≡ dict fs)
    × (in_set (get "kind" fs) allowed_operation_kinds ≡ ok true)
    × (validate_path L (get "path" fs) ≡ ok tt)

added-keeps :
    (b : Bool) (v : Json) (paths : List String) (p : String)
    → contains paths p ≡ true
    → contains (added b v paths) p ≡ true
added-keeps true (str path) paths p h = ground arith
added-keeps b v paths p h = ground arith

added-new :
    (v : Json) (paths : List String) (p : String)
    → text_is p v ≡ true
    → contains (added true v paths) p ≡ true
added-new (str path) paths p h = ground arith
added-new v paths p h = ground arith

added-only :
    (b : Bool) (v : Json) (paths : List String) (p : String)
    → contains (added b v paths) p ≡ true
    → (contains paths p || (b && text_is p v)) ≡ true
added-only true (str path) paths p h = ground arith
added-only b v paths p h = ground arith

-- The keys of a document that has them.
pub exact_keys-eq-ok :
    (v : Json) (expected : List String) (label : String) {fs : Fields}
    → exact_keys v expected label ≡ ok fs
    → (v ≡ dict fs) × (same_set (keys fs) expected ≡ true)
unfolding exact_keys
exact_keys-eq-ok (dict fs) expected label e = (ground arith, ground arith)
exact_keys-eq-ok v expected label e = ground arith

-- What one operation of a loop has passed, and what it has added.
record Step (L : Library) (op : Json) (paths paths' : Paths) : Type 0 where
  allowed : IsAllowed L op
  keeps : (p : String) → contains paths.modified p ≡ true → contains paths'.modified p ≡ true
  modified : (p : String) → modifies p op ≡ true → contains paths'.modified p ≡ true
  restored :
      (p : String)
      → contains paths'.restored p ≡ true
      → (contains paths.restored p || restores p op) ≡ true

modified_lem :
    (fs : Fields) (paths : List String) (p : String)
    → modifies p (dict fs) ≡ true
    → contains (added (is_true (get "backup_required" fs)) (get "path" fs) paths) p ≡ true
modified_lem fs paths p h = elim (Bool-cases (is_true (get "backup_required" fs))) [
  | inl backed ↦ rw backed (added-new (get "path" fs) paths p (ground arith))
  | inr not_backed ↦ ground arith
]

step_lem :
    (L : Library) (op : Json) (fs : Fields) (paths : Paths)
    → op ≡ dict fs
    → in_set (get "kind" fs) allowed_operation_kinds ≡ ok true
    → validate_path L (get "path" fs) ≡ ok tt
    → Step L op paths (record {
      modified = added (is_true (get "backup_required" fs)) (get "path" fs) paths.modified;
      restored = added (text_is "restore_backup" (get "kind" fs)) (get "path" fs) paths.restored;
    })
step_lem L op fs paths same kind path = record {
  allowed = (fs, same, kind, path);
  keeps = added-keeps (is_true (get "backup_required" fs)) (get "path" fs) paths.modified;
  modified = λ p h. modified_lem fs paths.modified p (rw same at h);
  restored = λ p h.
      rw same
        (added-only (text_is "restore_backup" (get "kind" fs)) (get "path" fs) paths.restored p h);
}

check_operation-Step :
    (L : Library) (label : String) (op : Json) (paths : Paths) {paths' : Paths}
    → check_operation L label op paths ≡ ok paths'
    → Step L op paths paths'
unfolding check_operation
check_operation-Step L label op paths {paths'} e =
    after (exact_keys op operation_keys _) _ e λ typed shaped e.
      after (in_set (get "kind" typed) allowed_operation_kinds) _ e λ allowed known e.
        after_check (require allowed _) _ e λ passed e.
          after_check (validate_path L (get "path" typed)) _ e λ reviewed e.
            ended
              (step_lem L op typed paths (exact_keys-eq-ok op operation_keys _ shaped).0
                (allows _ allowed _ known passed) reviewed)
              e
  where
    ended : {q r : Paths} → Step L op paths q → ok q ≡ ok r → Step L op paths r
    ended {q} {r} s same = let eq : q ≡ r = ground arith in rw (sym eq) s

    allows :
        (v : Json) (b : Bool) (f : Fault)
        → in_set v allowed_operation_kinds ≡ ok b
        → require b f ≡ ok tt
        → in_set v allowed_operation_kinds ≡ ok true
    allows v true f known passed = known
    allows v false f known passed = cc

-- What a loop has passed and added.
pub record Loop (L : Library) (ops : List Json) (paths paths' : Paths) : Type 0 where
  pub allowed : All (IsAllowed L) ops
  pub keeps : (p : String) → contains paths.modified p ≡ true → contains paths'.modified p ≡ true
  pub modified : (p : String) → any (modifies p) ops ≡ true → contains paths'.modified p ≡ true
  pub restored :
      (p : String)
      → contains paths'.restored p ≡ true
      → (contains paths.restored p || any (restores p) ops) ≡ true

pub check_operations-Loop :
    (L : Library) (label : String) (ops : List Json) (paths : Paths) {paths' : Paths}
    → check_operations L label ops paths ≡ ok paths'
    → Loop L ops paths paths'
unfolding check_operations
check_operations-Loop L label [] paths {paths'} e =
    let same : paths ≡ paths' = ground arith in
    record {
      allowed = tt;
      keeps = λ p h. rw (sym same) h;
      modified = λ p h. cc;
      restored = λ p h. left _ (rw (sym same) at h);
    }
  where
    left : (b : Bool) → b ≡ true → (b || false) ≡ true
    left b h = ground arith
check_operations-Loop L label (op ∷ ops) paths {paths'} e =
    after (check_operation L label op paths) _ e λ middle done e.
      let step = check_operation-Step L label op paths done in
      let rest = check_operations-Loop L label ops middle e in
      record {
        allowed = (step.allowed, rest.allowed);
        keeps = λ p h. rest.keeps p (step.keeps p h);
        modified = λ p h.
            either (modifies p op) (any (modifies p) ops) h
              (λ here. rest.keeps p (step.modified p here)) (rest.modified p);
        restored = λ p h. ground (arith, rest.restored p h, step.restored p);
      }
  where
    either : {P : Type 0} (a b : Bool) → (a || b) ≡ true → (a ≡ true → P) → (b ≡ true → P) → P
    either true b h f g = f refl
    either false b h f g = g h
