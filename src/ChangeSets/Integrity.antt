-- ===== src/ChangeSets/Integrity.antt =====
-- `_links` and `_assert_envelope_integrity`: the stored change set, its links and its plans still say
-- what the signed envelope says.
use lsa.Base.{
  concat, ℕ, String, Bool, true, false, ◌&&◌, ◌||◌, not, List, [], ◌∷◌, Option, none, some, ◌==◌,
  ◌!=◌, string_eq, nat_eq, all, any, map, select, sort_by, Result, ok, catalog_error, ◌>>=◌, ◌>>◌,
  raise_if, or_raise, for_each, if◌then◌else◌,
}
use lsa.Json.{
  Fields, end, dict, get, is_true, is_false, as_dict, as_dicts, as_text, text_is, py_eq, opt_text,
  opt_num, last_by, has,
}
use lsa.Library.{Library, instant, digest_of}
use lsa.Schema.Plans.{RemediationPlan}
use lsa.Schema.ChangeSets.{
  RemediationChangeSet, RemediationChangeSetPlan, RemediationChangeSetTarget,
}
use lsa.Schema.Database.{Db, get_plan}

-- The links of a change set. Their order is read by no check.
abbrev pub plan_links : Db → RemediationChangeSet → List RemediationChangeSetPlan
plan_links db cs = select (λ (l : RemediationChangeSetPlan). l.change_set_id == cs.id) db.plan_links

abbrev pub target_links : Db → RemediationChangeSet → List RemediationChangeSetTarget
target_links db cs =
    select (λ (l : RemediationChangeSetTarget). l.change_set_id == cs.id) db.target_links

pub record Operational : Type 0 where
  pub start : ℕ
  pub finish : ℕ
  pub batch_size : ℕ
  pub batch_interval : ℕ

same_texts : List String → List String → Bool
same_texts [] [] = true
same_texts (s ∷ ss) (t ∷ ts) = s == t && same_texts ss ts
same_texts _ _ = false

abbrev plan_ids : List Fields → Option (List String)
plan_ids [] = some []
plan_ids (item ∷ rest) = elim (as_text (get "plan_id" item)) [
  | none ↦ none
  | some id ↦ elim (plan_ids rest) [ none ↦ none | some ids ↦ some (id ∷ ids) ]
]

abbrev sorted : List String → List String
sorted = sort_by (λ s. s)

-- The triple of a target's record and of its link.
abbrev same_target : Fields → RemediationChangeSetTarget → Bool
same_target item link =
    text_is link.host_id (get "host_id" item)
    && text_is link.agent_id (get "agent_id" item)
    && text_is link.rollout_phase (get "rollout_phase" item)

abbrev same_targets : List Fields → List RemediationChangeSetTarget → Bool
same_targets records links =
    all (λ item. any (same_target item) links) records
    && all (λ link. any (λ item. same_target item link) records) links

-- `immutable_state` of a plan, against its record in the envelope.
abbrev pub same_plan : Fields → RemediationPlan → Bool
same_plan item plan =
    text_is plan.id (get "plan_id" item)
    && text_is plan.host_id (get "host_id" item)
    && text_is plan.report_id (get "report_id" item)
    && text_is plan.control_id (get "control_id" item)
    && py_eq (get "action_id" item) (opt_text plan.action_id)
    && py_eq (get "action_version" item) (opt_num plan.action_version)
    && py_eq (get "action_digest" item) (opt_text plan.action_digest)

-- The four safeguards of the envelope.
abbrev pub safeguards_hold : Fields → Bool
safeguards_hold safeguards =
    is_false (get "execution_enabled" safeguards)
    && is_true (get "four_eyes_required" safeguards)
    && is_true (get "post_change_verification_required" safeguards)
    && is_true (get "rollback_checkpoint_required" safeguards)

abbrev pub identity_holds : RemediationChangeSet → Bool
identity_holds cs =
    text_is cs.payload_schema_version (get "schema_version" cs.payload)
    && text_is cs.id (get "change_set_id" cs.payload)
    && text_is cs.tenant_id (get "tenant_id" cs.payload)

unfoldable pub check_plan : Db → List Fields → RemediationChangeSetPlan → Result (Unit {0})
check_plan db records link = do
  let mismatch =
      catalog_error "Remediation change-set plan state does not match the signed envelope"
  plan ← or_raise (get_plan db link.plan_id) mismatch
  item ← or_raise (last_by "plan_id" link.plan_id records) mismatch
  raise_if (not (same_plan item plan)) mismatch

-- `payload.get("safeguards", {})`, if it is a dict.
abbrev pub safeguards_of : Fields → Option Fields
safeguards_of payload =
    if has "safeguards" payload then as_dict (get "safeguards" payload) else some end

-- `_envelope_records`
unfoldable pub envelope_records : RemediationChangeSet → String → Result (List Fields)
envelope_records cs key =
    or_raise (as_dicts (get key cs.payload))
      (catalog_error (concat "Remediation change-set " (concat key " envelope is malformed")))

module _ (L : Library) where
  -- `_envelope_operational_values`
  unfoldable pub operational_values : RemediationChangeSet → Result Operational
  operational_values cs = do
    let malformed = catalog_error "Remediation change-set operational envelope is malformed"
    window ← or_raise (as_dict (get "maintenance_window" cs.payload)) malformed
    rollout ← or_raise (as_dict (get "rollout" cs.payload)) malformed
    raise_if (not (has "start" window && has "end" window)) malformed
    start ← or_raise (L.parse_iso (L.py_str (get "start" window))) malformed
    finish ← or_raise (L.parse_iso (L.py_str (get "end" window))) malformed
    batch_size ← or_raise (L.py_int (get "batch_size" rollout)) malformed
    batch_interval ← or_raise (L.py_int (get "batch_interval_minutes" rollout)) malformed
    raise_if (not (text_is "canary" (get "strategy" rollout))) malformed
    ok (record {
      start = instant start;
      finish = instant finish;
      batch_size = batch_size;
      batch_interval = batch_interval;
    })

  unfoldable pub check_identity : RemediationChangeSet → Result (Unit {0})
  check_identity cs = do
    let mismatch =
        catalog_error
          "Remediation change-set identity or safety invariants do not match the envelope"
    safeguards ← or_raise (safeguards_of cs.payload) mismatch
    raise_if (not (identity_holds cs && safeguards_hold safeguards)) mismatch

  unfoldable pub check_columns : RemediationChangeSet → Result (Unit {0})
  unfolding operational_values
  check_columns cs = do
    values ← operational_values cs
    raise_if
        (values.start != cs.maintenance_window_start
          || values.finish != cs.maintenance_window_end
          || values.batch_size != cs.batch_size
          || values.batch_interval != cs.batch_interval_minutes)
        (catalog_error
          "Remediation change-set operational columns do not match the signed envelope")

  unfoldable pub check_links : Db → RemediationChangeSet → List Fields → Result (Unit {0})
  unfolding same_texts
  check_links db cs records = do
    target_records ← envelope_records cs "targets"
    ids ←
        or_raise (plan_ids records)
          (catalog_error "Remediation change-set plan links do not match the signed envelope")
    raise_if
        (not (
          same_texts (sorted ids)
            (sorted (map (λ (l : RemediationChangeSetPlan). l.plan_id) (plan_links db cs)))))
        (catalog_error "Remediation change-set plan links do not match the signed envelope")
    raise_if (not (same_targets target_records (target_links db cs)))
        (catalog_error "Remediation change-set targets do not match the signed envelope")

  unfoldable pub assert_envelope_integrity : Db → RemediationChangeSet → Result (Unit {0})
  unfolding check_identity check_columns check_links check_plan envelope_records
  assert_envelope_integrity db cs = do
    raise_if (digest_of L (dict cs.payload) != cs.digest)
        (catalog_error "Remediation change-set payload digest does not match")
    check_identity cs
    check_columns cs
    records ← envelope_records cs "plans"
    check_links db cs records
    for_each (check_plan db records) (plan_links db cs)
