-- ===== src/Agent/Recovery/Acceptance.antt =====
-- The platform accepts the recovery plan that the agent compiles.
use lsa.Base.{
  String, Bool, true, false, ◌&&◌, ◌≡◌, refl, sym, ap, ◌∙◌, List, [], ◌∷◌, ◌==◌, string_eq, nat_eq,
  map, all, All, length, ltb, arith, Option, none, Bool-cases, inl, inr, some, ok, if◌then◌else◌,
}
use lsa.Json.{Json, Fields, str, get, as_list, as_dicts, text_is}
use lsa.Library.{Library}
use lsa.Receipts.{
  validate_recovery_plan, expected_entries, entries_hold, nonempty, ids_of, in_order, same_list,
  distinct, expected_ready, restorable,
}
use lsa.Agent.Recovery.Sources.{Disk}
use lsa.Agent.Recovery.Compile.{
  Entry, checkpoint_id, entry_fields, combined, is_ready, all_ready, plan_of, list_at, all_entries,
  compile_recovery_plan,
}
use lsa.Agent.Recovery.Agreement.{expectation, all_entries-expected_entries, list_at_lem}
use lsa.Agent.Recovery.Documents.{
  as_dicts-map, elems-items, IsTexted, IsIndexed, all_agree-combined, all-state_holds,
  ids_of-entries, paths_of-entries, all-restorable, same_list-texts,
}
use lsa.Agent.Recovery.Passing.{ready-distinct}
use lsa.Agent.Recovery.Positions.{all_entries-IsIndexed, All-combined}
use mathlib.Core.List.{reverse}
use mathlib.Mathlib.Data.List.Basic.{map-reverse_aux}

id_texts-reverse :
    (L : Library) (es : List Entry)
    → reverse (map (λ e. str (checkpoint_id L e)) es) ≡ map str (reverse (map (checkpoint_id L) es))
id_texts-reverse L es =
    ap reverse (twice es) ∙ sym (map-reverse_aux str (map (checkpoint_id L) es) [])
  where
    twice :
        (es : List Entry)
        → map (λ e. str (checkpoint_id L e)) es ≡ map str (map (checkpoint_id L) es)
    twice [] = refl
    twice (e ∷ es) = ap (λ xs. str (checkpoint_id L e) ∷ xs) (twice es)

same_list_lem : (xs : List Json) (ys : List String) → xs ≡ map str ys → same_list xs xs ≡ true
same_list_lem xs ys e = rw e (same_list-texts ys)

order_lem :
    (L : Library) (es : List Entry)
    → in_order (get "rollback_order" (plan_of L es)) (ids_of (map (entry_fields L) es)) ≡ true
unfolding string_eq
order_lem L es =
    rw (ids_of-entries L es, elems-items (reverse (map (λ e. str (checkpoint_id L e)) es)))
      (same_list_lem (reverse (map (λ e. str (checkpoint_id L e)) es))
        (reverse (map (checkpoint_id L) es)) (id_texts-reverse L es))

entries_lem :
    (L : Library) (es : List Entry)
    → as_dicts (get "entries" (plan_of L es)) ≡ some (map (entry_fields L) es)
unfolding string_eq
entries_lem L es = as_dicts-map (entry_fields L) es

status_lem :
    (L : Library) (es : List Entry) (b : Bool)
    → all_ready es ≡ b
    → text_is (if b then "ready" else "blocked") (get "status" (plan_of L es)) ≡ true
unfolding string_eq
status_lem L es true h = rw h refl
status_lem L es false h = rw h refl

ids-combined :
    (L : Library) (whole es : List Entry)
    → map (λ e. str (checkpoint_id L e)) (map (combined whole) es)
      ≡ map (λ e. str (checkpoint_id L e)) es
ids-combined L whole [] = refl
ids-combined L whole (e ∷ es) = ap (λ xs. str (checkpoint_id L e) ∷ xs) (ids-combined L whole es)

length_lem :
    (L : Library) (whole es : List Entry)
    → (length (map (entry_fields L) (map (combined whole) es)) == length (map (expectation L) es))
      ≡ true
length_lem L whole [] = ground arith
length_lem L whole (e ∷ es) = ground (arith, length_lem L whole es)

expected_ready_lem :
    (docs : List Fields) {paths : List Json} {b : Bool}
    → map (get "path") docs ≡ paths
    → all restorable docs ≡ b
    → expected_ready docs ≡ (distinct paths && b)
expected_ready_lem docs p r = rw (p, r) refl

and_lem : (a b : Bool) {c : Bool} → a ≡ true → b ≡ true → c ≡ true → (a && b) ≡ c
and_lem a b h k l = ground arith

none_lem : (a b : Bool) {c : Bool} → b ≡ false → c ≡ false → (a && b) ≡ c
none_lem a b h l = ground arith

ready_lem :
    (L : Library) (e : Entry) (es : List Entry)
    → All IsIndexed (e ∷ es)
    → all_ready (map (combined (e ∷ es)) (e ∷ es))
      ≡ expected_ready (map (entry_fields L) (map (combined (e ∷ es)) (e ∷ es)))
ready_lem L e es h = sym (
    expected_ready_lem (map (entry_fields L) shared) (paths_of-entries L shared)
      (all-restorable L shared (All-combined (e ∷ es) (e ∷ es) h))
    ∙ both)
  where
    shared : List Entry
    shared = map (combined (e ∷ es)) (e ∷ es)

    both :
        (distinct (map (λ (e : Entry). str e.path) shared)
          && all (λ (e : Entry). is_ready e.source) shared)
        ≡ all_ready shared
    both = elim (Bool-cases (all (λ (e : Entry). is_ready e.source) shared)) [
      | inl ready ↦ and_lem _ _ (ready-distinct (e ∷ es) ready) ready ready
      | inr held ↦ none_lem _ _ held held
    ]

elim_true {ℓ} :
    {A : Type ℓ} (o : Option A) (f : A → Bool) {a : A}
    → o ≡ some a
    → f a ≡ true
    → (elim o [ none ↦ false | some x ↦ f x ]) ≡ true
elim_true none f e h = ground (arith, e)
elim_true (some x) f {a} e h = let same : x ≡ a = ground (arith, e) in rw same h

checks_lem :
    (L : Library) (contract plan : Fields) {actions : List Json} {expected entries : List Fields}
    → as_list (get "actions" contract) ≡ some actions
    → expected_entries L actions ≡ some expected
    → as_dicts (get "entries" plan) ≡ some entries
    → (length entries == length expected && nonempty entries && entries_hold plan entries expected)
      ≡ true
    → validate_recovery_plan L contract plan ≡ true
unfolding validate_recovery_plan
checks_lem L contract plan a e d h =
    elim_true (as_list (get "actions" contract)) _ a
      (elim_true (expected_entries L _) _ e (elim_true (as_dicts (get "entries" plan)) _ d h))

-- The checks on the documents of a plan, one by one.
hold_lem :
    (L : Library) (e : Entry) (es : List Entry)
    → All IsTexted (e ∷ es)
    → All IsIndexed (e ∷ es)
    → distinct (map (λ e. str (checkpoint_id L e)) (e ∷ es)) ≡ true
    → entries_hold
        (plan_of L (map (combined (e ∷ es)) (e ∷ es)))
        (map (entry_fields L) (map (combined (e ∷ es)) (e ∷ es)))
        (map (expectation L) (e ∷ es))
      ≡ true
hold_lem L e es texted indexed ids =
    five_lem _ _ _ _ _ (all_agree-combined L (e ∷ es) (e ∷ es) texted) (all-state_holds L shared)
      (ap distinct (ids_of-entries L shared ∙ ids-combined L (e ∷ es) (e ∷ es)) ∙ ids)
      (order_lem L shared) (status_lem L shared _ (ready_lem L e es indexed))
  where
    shared : List Entry
    shared = map (combined (e ∷ es)) (e ∷ es)

    five_lem :
        (a b c d f : Bool)
        → a ≡ true
        → b ≡ true
        → c ≡ true
        → d ≡ true
        → f ≡ true
        → (a && b && c && d && f) ≡ true
    five_lem a b c d f h k l m n = rw (h, k, l, m, n) refl

plan_passes :
    (L : Library) (disk : Disk) (contract : Fields) {actions : List Json} (entries : List Entry)
    → list_at "actions" contract ≡ ok actions
    → all_entries L disk actions ≡ ok entries
    → ltb 0 (length entries) ≡ true
    → All IsTexted entries
    → distinct (map (λ e. str (checkpoint_id L e)) entries) ≡ true
    → validate_recovery_plan L contract (plan_of L (map (combined entries) entries)) ≡ true
plan_passes L disk contract [] a h l texted ids = ground (arith, l)
plan_passes L disk contract {actions} (e ∷ es) a h l texted ids =
    checks_lem L contract (plan_of L (map (combined (e ∷ es)) (e ∷ es)))
      (list_at_lem "actions" contract a) (all_entries-expected_entries L disk actions h)
      (entries_lem L (map (combined (e ∷ es)) (e ∷ es)))
      (rw
        (
          length_lem L (e ∷ es) (e ∷ es),
          hold_lem L e es texted (all_entries-IsIndexed L disk actions h) ids,
        )
        refl)

-- From a contract whose actions yield at least one entry, with texts for plans and digests and with distinct
-- identifiers, the agent compiles a recovery plan, and the platform accepts that plan, whatever the disk
-- shows.
pub compile-passes :
    (L : Library) (disk : Disk) (contract : Fields) {actions : List Json} {entries : List Entry}
    → list_at "actions" contract ≡ ok actions
    → all_entries L disk actions ≡ ok entries
    → ltb 0 (length entries) ≡ true
    → All IsTexted entries
    → distinct (map (λ e. str (checkpoint_id L e)) entries) ≡ true
    → (plan : Fields) × (compile_recovery_plan L disk contract ≡ ok plan)
      × (validate_recovery_plan L contract plan ≡ true)
unfolding compile_recovery_plan
compile-passes L disk contract {actions} {entries} a h l texted ids = (
  plan_of L (map (combined entries) entries),
  rw (a, h) refl,
  plan_passes L disk contract entries a h l texted ids,
)
