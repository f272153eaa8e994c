-- ===== src/Agent/Recovery/Positions.antt =====
-- An entry that is ready has the position of its restore operation.
use lsa.Base.{
  ℕ, suc, String, true, ◌&&◌, not, ◌≡◌, sym, List, [], ◌∷◌, map, All, All-append, ltb, arith,
  Bool-cases, inl, inr, pos, leb_ℤ, ok, after, or_raise, type_error,
}
use lsa.Json.{Json, Fields, is_true, is_null, as_text, as_dict, at_key}
use lsa.Library.{Library}
use lsa.Agent.Recovery.Sources.{Disk}
use lsa.Agent.Recovery.Compile.{
  Entry, Point, path_count, combined, is_ready, source_of, index_of, indexes_of, entry_at,
  entries_from, action_entries, all_entries, list_at, restore_points,
}
use lsa.Agent.Recovery.Documents.{IsIndexed}

source_lem :
    (L : Library) (disk : Disk) (path : String) (is : List ℕ)
    → is_ready (source_of L disk path is) ≡ true
    → leb_ℤ (pos 0) (index_of is) ≡ true
source_lem L disk path [] h = ground (arith, h)
source_lem L disk path (i ∷ []) h = ground arith
source_lem L disk path (i ∷ j ∷ is) h = ground (arith, h)

-- A property of the list that a result holds.
moved_list {ℓ κ} : {A : Type ℓ} (P : List A → Type κ) {xs ys : List A} → ok xs ≡ ok ys → P xs → P ys
moved_list P {xs} {ys} e h = let same : xs ≡ ys = ground (arith, e) in rw (sym same) h

module _ (L : Library) (disk : Disk) where
  entry_at-IsIndexed :
      (entry : Fields) (points : List Point) (i : ℕ) (path required : Json) {here : List Entry}
      → entry_at L disk entry points i path required ≡ ok here
      → All IsIndexed here
  entry_at-IsIndexed entry points i path required e =
      elim (Bool-cases (is_true required && not (is_null path))) [
        | inl wanted ↦
            after (or_raise (as_text path) type_error) _ (rw wanted at e) λ file texted e.
              after (at_key "plan_id" entry) _ e λ plan_id known e.
                after (at_key "action_digest" entry) _ e λ action_digest digested e.
                  moved_list (All IsIndexed) e
                    ((λ ready. source_lem L disk file (indexes_of file points) ready), tt)
        | inr unwanted ↦ moved_list (All IsIndexed) (rw unwanted at e) tt
      ]

  entries_from-IsIndexed :
      (entry : Fields) (points : List Point) (i : ℕ) (ops : List Json) {entries : List Entry}
      → entries_from L disk entry points i ops ≡ ok entries
      → All IsIndexed entries
  unfolding entries_from
  entries_from-IsIndexed entry points i [] e = moved_list (All IsIndexed) e tt
  entries_from-IsIndexed entry points i (op ∷ ops) e =
      after (or_raise (as_dict op) type_error) _ e λ fs shaped e.
        after (at_key "path" fs) _ e λ path located e.
          after (at_key "backup_required" fs) _ e λ required asked e.
            after (entry_at L disk entry points i path required) _ e λ here found e.
              after (entries_from L disk entry points (suc i) ops) _ e λ later rest e.
                moved_list (All IsIndexed) e (
                  All-append IsIndexed here later
                    (entry_at-IsIndexed entry points i path required found)
                    (entries_from-IsIndexed entry points (suc i) ops rest))

  pub all_entries-IsIndexed :
      (actions : List Json) {entries : List Entry}
      → all_entries L disk actions ≡ ok entries
      → All IsIndexed entries
  unfolding all_entries action_entries
  all_entries-IsIndexed [] e = moved_list (All IsIndexed) e tt
  all_entries-IsIndexed (action ∷ actions) e =
      after (or_raise (as_dict action) type_error) _ e λ fs shaped e.
        after (action_entries L disk fs) _ e λ here found e.
          after (all_entries L disk actions) _ e λ later rest e.
            after (at_key "action_snapshot" fs) _ found λ value known found.
              after (or_raise (as_dict value) type_error) _ found λ snapshot is_dict found.
                after (list_at "rollback" snapshot) _ found λ rollbacks listed found.
                  after (restore_points 0 rollbacks) _ found λ points pointed found.
                    after (list_at "operations" snapshot) _ found λ operations planned found.
                      moved_list (All IsIndexed) e (
                        All-append IsIndexed here later
                          (entries_from-IsIndexed fs points 0 operations found)
                          (all_entries-IsIndexed actions rest))

pub All-combined :
    (whole es : List Entry) → All IsIndexed es → All IsIndexed (map (combined whole) es)
All-combined whole [] h = tt
All-combined whole (e ∷ es) h = (kept, All-combined whole es h.1)
  where
    kept : IsIndexed (combined whole e)
    kept ready = elim (Bool-cases (ltb 1 (path_count e.path whole))) [
      | inl many ↦ ground (arith, (rw many at ready))
      | inr one ↦ h.0 (rw one at ready)
    ]
