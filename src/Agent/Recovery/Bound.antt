-- ===== src/Agent/Recovery/Bound.antt =====
-- The agent's check of a plan accepts what the platform's check accepts.
use lsa.Base.{
  step_lem, ℕ, suc, String, true, false, ◌≡◌, refl, sym, ap, ◌∙◌, List, [], ◌∷◌, nat_eq, string_eq,
  map, arith, Result, ok, type_error, after, or_raise,
}
use lsa.Json.{Json, Fields, null, bool, int, str, dict, list, at_key, as_dict, py_eq, text_is}
use lsa.Library.{Library}
use lsa.Agent.Recovery.Sources.{Disk}
use lsa.Agent.Recovery.Compile.{
  Entry, Point, indexes_of, entry_at, entries_from, list_at, action_entries, all_entries,
  restore_points,
}
use lsa.Agent.Recovery.Binding.{
  indexes_at, target_fields, target_at, targets_from, action_targets, all_targets,
}
use lsa.Agent.Recovery.Agreement.{map-append}

-- What the agent expects of an entry.
abbrev pub target : Library → Entry → Fields
target L e =
    target_fields L e.plan_id e.action_digest e.operation_index e.rollback_index (str e.path)

text_eq : (s t : String) → py_eq (str s) (str t) ≡ text_is s (str t)
unfolding py_eq
text_eq s t = ground arith

indexes_lem :
    (path : String) (points : List Point) → indexes_at (str path) points ≡ indexes_of path points
unfolding py_eq
indexes_lem path [] = refl
indexes_lem path ((str s, i) ∷ points) = rw (text_eq path s, indexes_lem path points) refl
indexes_lem path ((null, i) ∷ points) = indexes_lem path points
indexes_lem path ((bool b, i) ∷ points) = indexes_lem path points
indexes_lem path ((int n, i) ∷ points) = indexes_lem path points
indexes_lem path ((list xs, i) ∷ points) = indexes_lem path points
indexes_lem path ((dict fs, i) ∷ points) = indexes_lem path points

moved_result {ℓ κ} :
    {A : Type ℓ} {B : Type κ} (f : A → B) {x y : A} {r : Result B}
    → ok x ≡ ok y
    → r ≡ ok (f x)
    → r ≡ ok (f y)
moved_result f {x} {y} e h = let same : x ≡ y = ground (arith, e) in h ∙ ap (λ z. ok (f z)) same

module _ (L : Library) (disk : Disk) (entry : Fields) (points : List Point) where
  text_lem :
      (i : ℕ) (file : String) {here : List Entry}
      → entry_at L disk entry points i (str file) (bool true) ≡ ok here
      → target_at L entry points i (str file) (bool true) ≡ ok (map (target L) here)
  text_lem i file e = after (at_key "plan_id" entry) _ e λ plan_id known e.
      after (at_key "action_digest" entry) _ e λ action_digest digested e.
        moved_result (map (target L)) e (
          step_lem (at_key "plan_id" entry) _ known (
            step_lem (at_key "action_digest" entry) _ digested (rw (indexes_lem file points) refl)))

  target_lem :
      (i : ℕ) (path required : Json) {here : List Entry}
      → entry_at L disk entry points i path required ≡ ok here
      → target_at L entry points i path required ≡ ok (map (target L) here)
  target_lem i null (bool true) e = moved_result (map (target L)) e refl
  target_lem i (str file) (bool true) e = text_lem i file e
  target_lem i (bool b) (bool true) e = cc
  target_lem i (int n) (bool true) e = cc
  target_lem i (list xs) (bool true) e = cc
  target_lem i (dict fs) (bool true) e = cc
  target_lem i path (bool false) e = moved_result (map (target L)) e refl
  target_lem i path null e = moved_result (map (target L)) e refl
  target_lem i path (int n) e = moved_result (map (target L)) e refl
  target_lem i path (str s) e = moved_result (map (target L)) e refl
  target_lem i path (list xs) e = moved_result (map (target L)) e refl
  target_lem i path (dict fs) e = moved_result (map (target L)) e refl

  pub targets_from-entries :
      (i : ℕ) (ops : List Json) {entries : List Entry}
      → entries_from L disk entry points i ops ≡ ok entries
      → targets_from L entry points i ops ≡ ok (map (target L) entries)
  unfolding entries_from targets_from
  targets_from-entries i [] e = moved_result (map (target L)) e refl
  targets_from-entries i (op ∷ ops) e = after (or_raise (as_dict op) type_error) _ e λ fs shaped e.
      after (at_key "path" fs) _ e λ path located e.
        after (at_key "backup_required" fs) _ e λ required asked e.
          after (entry_at L disk entry points i path required) _ e λ here found e.
            after (entries_from L disk entry points (suc i) ops) _ e λ later rest e.
              moved_result (map (target L)) e (
                step_lem (or_raise (as_dict op) type_error) _ shaped (
                  step_lem (at_key "path" fs) _ located (
                    step_lem (at_key "backup_required" fs) _ asked (
                      step_lem (target_at L entry points i path required) _
                        (target_lem i path required found)
                        (step_lem (targets_from L entry points (suc i) ops) _
                          (targets_from-entries (suc i) ops rest)
                          (ap ok (sym (map-append (target L) here later))))))))

pub all_targets-entries :
    (L : Library) (disk : Disk) (actions : List Json) {entries : List Entry}
    → all_entries L disk actions ≡ ok entries
    → all_targets L actions ≡ ok (map (target L) entries)
unfolding all_entries all_targets action_entries action_targets
all_targets-entries L disk [] e = moved_result (map (target L)) e refl
all_targets-entries L disk (action ∷ actions) e =
    after (or_raise (as_dict action) type_error) _ e λ fs shaped e.
      after (action_entries L disk fs) _ e λ here found e.
        after (all_entries L disk actions) _ e λ later rest e. moved_result (map (target L)) e (
          step_lem (or_raise (as_dict action) type_error) _ shaped (
            step_lem (action_targets L fs) _ (action_lem fs found) (
              step_lem (all_targets L actions) _ (all_targets-entries L disk actions rest)
                (ap ok (sym (map-append (target L) here later))))))
  where
    action_lem :
        (fs : Fields) {here : List Entry}
        → action_entries L disk fs ≡ ok here
        → action_targets L fs ≡ ok (map (target L) here)
    action_lem fs found = after (at_key "action_snapshot" fs) _ found λ value known found.
        after (or_raise (as_dict value) type_error) _ found λ snapshot is_dict found.
          after (list_at "rollback" snapshot) _ found λ rollbacks listed found.
            after (restore_points 0 rollbacks) _ found λ points pointed found.
              after (list_at "operations" snapshot) _ found λ operations planned found.
                step_lem (at_key "action_snapshot" fs) _ known (
                  step_lem (or_raise (as_dict value) type_error) _ is_dict (
                    step_lem (list_at "rollback" snapshot) _ listed (
                      step_lem (restore_points 0 rollbacks) _ pointed (
                        step_lem (list_at "operations" snapshot) _ planned
                          (targets_from-entries L disk fs points 0 operations found)))))
