-- ===== src/Agent/Recovery/Agreement.antt =====
-- The entries that the agent compiles are those that the platform expects of a receipt.
use lsa.Base.{
  ok_lem, ℕ, suc, String, true, false, ◌&&◌, ◌≡◌, refl, sym, ap, ◌∙◌, List, [], ◌∷◌, ◌++◌, Option,
  none, some, string_eq, map, if◌then◌else◌, ◌>>◌, ok, after, or_raise, or_raise-eq-ok, type_error,
  arith, Bool-cases, inl, inr,
}
use lsa.Json.{
  Json, Fields, null, bool, int, str, dict, list, get, at_key, as_dict, as_list, as_text, is_true,
  is_null, text_is,
}
use lsa.Library.{Library}
use lsa.Receipts.{restores, expected_of, expected_entries, expected_entry, backed_up_path, only}
use lsa.Agent.Contract.Preview.{hashable}
use lsa.Agent.Recovery.Sources.{Disk}
use lsa.Agent.Recovery.Compile.{
  Entry, Point, point_at, restore_points, indexes_of, index_of, entry_at, entries_from, list_at,
  action_entries, all_entries, source_of,
}

-- The platform's view of an entry.
abbrev pub expectation : Library → Entry → Fields
expectation L e =
    expected_entry L e.plan_id e.action_digest e.operation_index e.rollback_index e.path

pub at_key_lem : (k : String) (fs : Fields) {v : Json} → at_key k fs ≡ ok v → get k fs ≡ v
at_key_lem k fs e = ground arith

pub dict_lem : (v : Json) {fs : Fields} → or_raise (as_dict v) type_error ≡ ok fs → v ≡ dict fs
dict_lem v e = ground arith

indexes_of-append :
    (path : String) (xs ys : List Point)
    → indexes_of path (xs ++ ys) ≡ indexes_of path xs ++ indexes_of path ys
indexes_of-append path [] ys = refl
indexes_of-append path ((v, i) ∷ xs) ys = elim (Bool-cases (text_is path v)) [
  | inl hit ↦ rw hit (ap (λ zs. i ∷ zs) (indexes_of-append path xs ys))
  | inr miss ↦ rw miss (indexes_of-append path xs ys)
]

-- What the path of a restore adds.
value_lem :
    (path : String) (i : ℕ) (v : Json) {here : List Point}
    → (if is_null v then ok [] else hashable v >> ok ((v, i) ∷ [])) ≡ ok here
    → indexes_of path here ≡ (if text_is path v then i ∷ [] else [])
value_lem path i null {here} e = let same : [] ≡ here = ok_lem e in rw (sym same) refl
value_lem path i (str s) {here} e =
    let same : ((str s, i) ∷ []) ≡ here = ok_lem e in rw (sym same) refl
value_lem path i (bool b) {here} e =
    let same : ((bool b, i) ∷ []) ≡ here = ok_lem e in rw (sym same) refl
value_lem path i (int n) {here} e =
    let same : ((int n, i) ∷ []) ≡ here = ok_lem e in rw (sym same) refl
value_lem path i (list xs) e = ground arith
value_lem path i (dict fs) e = ground arith

-- What one operation adds to the restores of a path.
point_lem :
    (path : String) (i : ℕ) (fs : Fields) {here : List Point}
    → point_at i fs (get "kind" fs) ≡ ok here
    → indexes_of path here ≡ (
        if text_is "restore_backup" (get "kind" fs) && text_is path (get "path" fs)
        then i ∷ []
        else [])
point_lem path i fs {here} e = elim (Bool-cases (text_is "restore_backup" (get "kind" fs))) [
  | inl restore ↦ rw restore (
      after (at_key "path" fs) _ (rw restore at e)
        λ v known e. rw (at_key_lem "path" fs known) (value_lem path i v e))
  | inr other ↦ let same : [] ≡ here = ok_lem (rw other at e) in rw other (rw (sym same) refl)
]

restores-cons :
    (path : String) (i : ℕ) (fs : Fields) (ops : List Json)
    → restores path i (dict fs ∷ ops)
      ≡ (if text_is "restore_backup" (get "kind" fs) && text_is path (get "path" fs)
          then i ∷ []
          else [])
        ++ restores path (suc i) ops
unfolding restores
restores-cons path i fs ops =
    elim (Bool-cases (text_is "restore_backup" (get "kind" fs) && text_is path (get "path" fs))) [
      | inl hit ↦ rw hit refl
      | inr miss ↦ rw miss refl
    ]

-- The positions of the restores are those that the platform finds.
restore_points-restores :
    (path : String) (i : ℕ) (ops : List Json) {points : List Point}
    → restore_points i ops ≡ ok points
    → restores path i ops ≡ indexes_of path points
unfolding restore_points restores
restore_points-restores path i [] {points} e =
    let same : [] ≡ points = ok_lem e in rw (sym same) refl
restore_points-restores path i (op ∷ ops) {points} e =
    after (or_raise (as_dict op) type_error) _ e λ fs shaped e.
      after (at_key "kind" fs) _ e λ kind known e. after (point_at i fs kind) _ e λ here found e.
        after (restore_points (suc i) ops) _ e λ later rest e.
          let same : (here ++ later) ≡ points = ok_lem e in
          let first = point_lem path i fs (rw (sym (at_key_lem "kind" fs known)) at found) in
          let next = restore_points-restores path (suc i) ops rest in
          rw (dict_lem op shaped) (
            restores-cons path i fs ops
            ∙ ap (λ zs. zs ++ restores path (suc i) ops) (sym first)
            ∙ ap (λ zs. indexes_of path here ++ zs) next
            ∙ sym (indexes_of-append path here later)
            ∙ ap (indexes_of path) same)

-- The index that the agent takes is the platform's.
index_of-only : (xs : List ℕ) → index_of xs ≡ only xs
index_of-only [] = refl
index_of-only (x ∷ []) = refl
index_of-only (x ∷ y ∷ xs) = refl

-- What one operation contributes, on both sides.
module _ (L : Library) (disk : Disk) (entry : Fields) (points : List Point) (rollbacks : List Json)
    (same_restores : (path : String) → restores path 0 rollbacks ≡ indexes_of path points) where
  expected_at : ℕ → Option String → List Fields
  expected_at i none = []
  expected_at i (some path) =
      expected_entry L (get "plan_id" entry) (get "action_digest" entry) i
        (only (restores path 0 rollbacks)) path
      ∷ []

  none_lem :
      (i : ℕ) {here : List Entry} → ok [] ≡ ok here → expected_at i none ≡ map (expectation L) here
  unfolding expected_at
  none_lem i {here} e = let same : [] ≡ here = ok_lem e in rw (sym same) refl

  text_lem :
      (i : ℕ) (file : String) {here : List Entry}
      → entry_at L disk entry points i (str file) (bool true) ≡ ok here
      → expected_at i (some file) ≡ map (expectation L) here
  unfolding expected_at
  text_lem i file {here} e = after (at_key "plan_id" entry) _ e λ plan_id known e.
      after (at_key "action_digest" entry) _ e λ action_digest digested e.
        let made : Entry = record {
          plan_id = plan_id;
          action_digest = action_digest;
          operation_index = i;
          rollback_index = index_of (indexes_of file points);
          path = file;
          source = source_of L disk file (indexes_of file points);
        } in
        let same : (made ∷ []) ≡ here = ok_lem e in
        rw (sym same) (
          rw
            (
              at_key_lem "plan_id" entry known,
              at_key_lem "action_digest" entry digested,
              same_restores file,
              index_of-only (indexes_of file points),
            )
            refl)

  entry_lem :
      (i : ℕ) (path required : Json) {here : List Entry}
      → entry_at L disk entry points i path required ≡ ok here
      → expected_at i (if is_true required then as_text path else none) ≡ map (expectation L) here
  entry_lem i null (bool true) e = none_lem i e
  entry_lem i (str file) (bool true) e = text_lem i file e
  entry_lem i (bool b) (bool true) e = cc
  entry_lem i (int n) (bool true) e = cc
  entry_lem i (list xs) (bool true) e = cc
  entry_lem i (dict fs) (bool true) e = cc
  entry_lem i path (bool false) e = none_lem i e
  entry_lem i path null e = none_lem i e
  entry_lem i path (int n) e = none_lem i e
  entry_lem i path (str s) e = none_lem i e
  entry_lem i path (list xs) e = none_lem i e
  entry_lem i path (dict fs) e = none_lem i e

  -- The step of the platform's loop.
  step_lem :
      (i : ℕ) (o : Option String) (rest : Option (List Fields)) {later : List Fields}
      → rest ≡ some later
      → (elim o [
        | none ↦ rest
        | some path ↦ elim rest [
          | none ↦ none
          | some entries ↦ some (
              expected_entry L
                (get "plan_id" entry)
                (get "action_digest" entry)
                i
                (only (restores path 0 rollbacks))
                path
              ∷ entries)
        ]
      ])
        ≡ some (expected_at i o ++ later)
  unfolding expected_at
  step_lem i none rest e = e
  step_lem i (some path) rest e = rw e refl

  expected_of-cons :
      (i : ℕ) (fs : Fields) (ops : List Json) {later : List Fields}
      → expected_of L (get "plan_id" entry) (get "action_digest" entry) rollbacks (suc i) ops
        ≡ some later
      → expected_of L (get "plan_id" entry) (get "action_digest" entry) rollbacks i (dict fs ∷ ops)
        ≡ some (expected_at i (backed_up_path fs) ++ later)
  unfolding expected_of expected_at
  expected_of-cons i fs ops e = step_lem i (backed_up_path fs) _ e

expected_of-nil :
    (L : Library) (entry : Fields) (rollbacks : List Json) (i : ℕ)
    → expected_of L (get "plan_id" entry) (get "action_digest" entry) rollbacks i [] ≡ some []
unfolding expected_of
expected_of-nil L entry rollbacks i = refl

pub map-append {ℓ κ} :
    {A : Type ℓ} {B : Type κ} (f : A → B) (xs ys : List A) → map f (xs ++ ys) ≡ map f xs ++ map f ys
map-append f [] ys = refl
map-append f (x ∷ xs) ys = ap (λ zs. f x ∷ zs) (map-append f xs ys)

-- The entries of the operations, on both sides.
entries_from-expected_of :
    (L : Library) (disk : Disk) (entry : Fields) (points : List Point) (rollbacks : List Json)
    (same_restores : (path : String) → restores path 0 rollbacks ≡ indexes_of path points) (i : ℕ)
    (ops : List Json) {entries : List Entry}
    → entries_from L disk entry points i ops ≡ ok entries
    → expected_of L (get "plan_id" entry) (get "action_digest" entry) rollbacks i ops
      ≡ some (map (expectation L) entries)
unfolding entries_from
entries_from-expected_of L disk entry points rollbacks same_restores i [] {entries} e =
    let same : [] ≡ entries = ok_lem e in rw (sym same) (expected_of-nil L entry rollbacks i)
entries_from-expected_of L disk entry points rollbacks same_restores i (op ∷ ops) {entries} e =
    after (or_raise (as_dict op) type_error) _ e λ fs shaped e.
      after (at_key "path" fs) _ e λ path located e.
        after (at_key "backup_required" fs) _ e λ required asked e.
          after (entry_at L disk entry points i path required) _ e λ here found e.
            after (entries_from L disk entry points (suc i) ops) _ e λ later rest e.
              let same : (here ++ later) ≡ entries = ok_lem e in
              let next =
                entries_from-expected_of L disk entry points rollbacks same_restores (suc i) ops
                  rest in
              let first =
                entry_lem L disk entry points rollbacks same_restores i path required found in
              rw (dict_lem op shaped) (
                expected_of-cons L disk entry points rollbacks same_restores i fs ops next
                ∙ ap some (
                    rw (at_key_lem "path" fs located, at_key_lem "backup_required" fs asked)
                      (ap (λ zs. zs ++ map (expectation L) later) first
                        ∙ sym (map-append (expectation L) here later)
                        ∙ ap (map (expectation L)) same)))

-- The fields that the agent has read are those that the platform reads.
pub list_at_lem :
    (k : String) (fs : Fields) {xs : List Json}
    → list_at k fs ≡ ok xs
    → as_list (get k fs) ≡ some xs
unfolding list_at
list_at_lem k fs e =
    after (at_key k fs) _ e λ v known e. rw (at_key_lem k fs known) (or_raise-eq-ok _ _ e)

-- A test on what an option holds.
elim_some {ℓ κ} :
    {A : Type ℓ} {B : Type κ} (o : Option A) (f : A → Option B) {a : A} {b : Option B}
    → o ≡ some a
    → f a ≡ b
    → (elim o [ none ↦ none | some x ↦ f x ]) ≡ b
elim_some none f e h = cc
elim_some (some x) f {a} e h = ap f (some_lem e) ∙ h
  where
    some_lem : some x ≡ some a → x ≡ a
    some_lem e = ground arith

-- The document of an action, as the platform goes through it.
expected_entries-cons :
    (L : Library) (fs snapshot : Fields) (actions rollbacks operations : List Json)
    {here later : List Fields}
    → get "action_snapshot" fs ≡ dict snapshot
    → as_list (get "rollback" snapshot) ≡ some rollbacks
    → as_list (get "operations" snapshot) ≡ some operations
    → expected_of L (get "plan_id" fs) (get "action_digest" fs) rollbacks 0 operations ≡ some here
    → expected_entries L actions ≡ some later
    → expected_entries L (dict fs ∷ actions) ≡ some (here ++ later)
unfolding expected_entries
expected_entries-cons L fs snapshot actions rollbacks operations s r o h e =
    elim_some (as_dict (get "action_snapshot" fs)) _ (ap as_dict s) (
      elim_some (as_list (get "rollback" snapshot)) _ r
        (elim_some (as_list (get "operations" snapshot)) _ o (rw (h, e) refl)))

expected_nil : (L : Library) → expected_entries L [] ≡ some []
unfolding expected_entries
expected_nil L = refl

-- The entries that the agent compiles from a list of actions have, one by one and in order, the identity and
-- the identifier of those that the platform expects for them.
pub all_entries-expected_entries :
    (L : Library) (disk : Disk) (actions : List Json) {entries : List Entry}
    → all_entries L disk actions ≡ ok entries
    → expected_entries L actions ≡ some (map (expectation L) entries)
unfolding all_entries action_entries
all_entries-expected_entries L disk [] {entries} e =
    let same : [] ≡ entries = ok_lem e in
    expected_nil L ∙ ap (λ es. some (map (expectation L) es)) same
all_entries-expected_entries L disk (action ∷ actions) {entries} e =
    after (or_raise (as_dict action) type_error) _ e λ fs shaped e.
      after (action_entries L disk fs) _ e λ here found e.
        after (all_entries L disk actions) _ e λ later rest e.
          after (at_key "action_snapshot" fs) _ found λ value known found.
            after (or_raise (as_dict value) type_error) _ found λ snapshot is_dict found.
              after (list_at "rollback" snapshot) _ found λ rollbacks listed found.
                after (restore_points 0 rollbacks) _ found λ points pointed found.
                  after (list_at "operations" snapshot) _ found λ operations planned found.
                    let same : (here ++ later) ≡ entries = ok_lem e in
                    rw (dict_lem action shaped) (
                      expected_entries-cons L fs snapshot actions rollbacks operations
                        (at_key_lem "action_snapshot" fs known ∙ dict_lem value is_dict)
                        (list_at_lem "rollback" snapshot listed)
                        (list_at_lem "operations" snapshot planned)
                        (entries_from-expected_of L disk fs points rollbacks
                          (λ path. restore_points-restores path 0 rollbacks pointed) 0 operations
                          found)
                        (all_entries-expected_entries L disk actions rest)
                      ∙ ap some (
                          sym (map-append (expectation L) here later)
                          ∙ ap (map (expectation L)) same))
