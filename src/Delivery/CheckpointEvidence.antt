-- ===== src/Delivery/CheckpointEvidence.antt =====
-- The checks that a checkpoint receipt has passed, result by result.
use lsa.Base.{
  all-All, any, none, Option, map, Distinct, and_left, and_right, nat_eq, ℕ, String, Bool, true,
  false, ◌≡◌, refl, ◌&&◌, ◌||◌, not, List, [], ◌∷◌, some, All, ok, after, after_check, require,
  require-eq-ok, raise_if, or_raise, or_raise-eq-ok, for_each, Fault, arith, string_eq, ◌==◌,
}
use lsa.Json.{Fields, dict, get, as_dicts, text_is, is_some, is_null, last_by}
use lsa.Library.{Library, digest_of}
use lsa.Schema.Fleet.{LinuxAgent}
use lsa.Schema.Jobs.{JobStatus, delivered, is_delivered, RemediationCheckpointJob}
use lsa.Schema.Database.{Db}
use lsa.Signing.{verify_signature}
use lsa.Receipts.{validate_recovery_plan}
use lsa.Delivery.Answers.{
  InTime, NamesJob, IsExact, IsConsistent, prepared-InTime, equal_lem, raised_lem, any-contains,
  consistent_lem,
}
use lsa.Delivery.CheckpointReceipt.{
  says_nothing, has_evidence, checkpoint_journal_digest, CheckpointSubmission, CheckpointResult,
  repeats_checkpoint, covers, check_result, check_status, is_prepared_in_time, is_checkpoint_bound,
  names_digest, check_checkpoint_receipt,
}

-- The evidence that a result gives, which depends on the state of its source in the plan.
pub record IsEvidenced (entries : List Fields) (r : CheckpointResult) : Type 0 where
  pub entry : Fields
  pub is_entry : last_by "checkpoint_id" r.checkpoint_id entries ≡ some entry
  pub same_source : text_is r.source_state (get "source_state" entry) ≡ true
  pub blocked :
      r.is_blocked ≡ true
      → (r.backup_created ≡ false)
        × (is_some r.encrypted_blob_digest ≡ false)
        × (is_some r.encrypted_size_bytes ≡ false)
        × (is_some r.error ≡ true)
  pub without_error : r.is_blocked ≡ false → is_some r.error ≡ false
  pub file :
      r.source_state ≡ "regular_file"
      → r.is_blocked ≡ false
      → (r.backup_created ≡ true)
        × (is_some r.encrypted_blob_digest ≡ true)
        × (is_some r.encrypted_size_bytes ≡ true)
  pub absent :
      r.source_state ≡ "absent"
      → (r.backup_created ≡ false)
        × (is_some r.encrypted_blob_digest ≡ false)
        × (is_some r.encrypted_size_bytes ≡ false)

-- The checks that a checkpoint receipt has passed.
pub record Secured (L : Library) (db : Db) (now : ℕ) (agent : LinuxAgent)
    (row : RemediationCheckpointJob) (s : CheckpointSubmission) : Type 0 where
  pub awaited : row.job.status ≡ delivered
  pub valid_plan : validate_recovery_plan L row.job.contract row.recovery_plan ≡ true
  pub for_this_job : text_is row.job.id (get "checkpoint_job_id" s.receipt) ≡ true
  pub for_validation : text_is row.validation_job_id (get "validation_id" s.receipt) ≡ true
  pub names_job : NamesJob L row.job s.receipt
  pub signed : verify_signature L agent.public_key s.receipt s.signature ≡ true
  pub timely : InTime db now row.job s.prepared_at
  pub entries : List Fields
  pub has_entries : as_dicts (get "entries" row.recovery_plan) ≡ some entries
  pub exact : IsExact (λ (r : CheckpointResult). r.checkpoint_id) s.checkpoint_results entries
  pub results : All (IsEvidenced entries) s.checkpoint_results
  pub consistent :
      IsConsistent
        (λ (r : CheckpointResult). r.is_blocked)
        "journal_state"
        "checkpointed"
        s.receipt
        s.checkpoint_results
  pub journal :
      text_is
        (checkpoint_journal_digest L row.job.id row.validation_job_id row.job.contract_digest
          row.recovery_plan
          (get "journal_state" s.receipt)
          (map (λ (r : CheckpointResult). r.document) s.checkpoint_results)
          (get "error" s.receipt))
        (get "journal_digest" s.receipt)
      ≡ true

nine :
    (a b c d e f g h i : Bool)
    → (a && b && c && d && e && f && g && h && i) ≡ true
    → (a ≡ true)
      × (b ≡ true)
      × (c ≡ true)
      × (d ≡ true)
      × (e ≡ true)
      × (f ≡ true)
      × (g ≡ true)
      × (h ≡ true)
      × (i ≡ true)
nine a b c d e f g h i all_hold = (
  ground arith,
  ground arith,
  ground arith,
  ground arith,
  ground arith,
  ground arith,
  ground arith,
  ground arith,
  ground arith,
)

neither : (a b : Bool) → (a || not b) ≡ false → (a ≡ false) × (b ≡ true)
neither a b h = (ground arith, ground arith)

repeats-Distinct :
    (rs : List CheckpointResult)
    → repeats_checkpoint rs ≡ false
    → Distinct (map (λ (r : CheckpointResult). r.checkpoint_id) rs)
repeats-Distinct [] h = tt
repeats-Distinct (r ∷ rs) h = (
  any-contains (λ (q : CheckpointResult). q.checkpoint_id) r.checkpoint_id rs (ground arith),
  repeats-Distinct rs (ground arith),
)

covers-IsExact :
    (results : List CheckpointResult) (entries : List Fields)
    → repeats_checkpoint results ≡ false
    → covers results entries ≡ true
    → IsExact (λ (r : CheckpointResult). r.checkpoint_id) results entries
covers-IsExact results entries once covered = record {
  once = repeats-Distinct results once;
  known = all-All _ results (and_left _ _ covered);
  answered = all-All _ entries (and_right _ _ covered);
}

-- The four tests of a result's evidence.
blocked_lem :
    (b created digest size : Bool) (error : Option String)
    → (b && (created || (digest || size) || says_nothing error)) ≡ false
    → b ≡ true
    → (created ≡ false) × (digest ≡ false) × (size ≡ false) × (is_some error ≡ true)
blocked_lem b created digest size none h k = ground arith
blocked_lem b created digest size (some text) h k = (ground arith, ground arith, ground arith, refl)

error_lem : (b e : Bool) → (not b && e) ≡ false → b ≡ false → e ≡ false
error_lem b e h k = ground arith

file_lem :
    (state : String) (b created digest size : Bool)
    → (state == "regular_file" && not b && (not created || not digest || not size)) ≡ false
    → state ≡ "regular_file"
    → b ≡ false
    → (created ≡ true) × (digest ≡ true) × (size ≡ true)
file_lem state b created digest size h is_file k = (ground arith, ground arith, ground arith)

absent_lem :
    (state : String) (created digest size : Bool)
    → (state == "absent" && (created || (digest || size))) ≡ false
    → state ≡ "absent"
    → (created ≡ false) × (digest ≡ false) × (size ≡ false)
absent_lem state created digest size h is_absent = (ground arith, ground arith, ground arith)

check-IsEvidenced :
    (entries : List Fields) (r : CheckpointResult)
    → check_result entries r ≡ ok tt
    → IsEvidenced entries r
check-IsEvidenced entries r e =
    after (or_raise (last_by "checkpoint_id" r.checkpoint_id entries) _) _ e λ entry known e.
      after_check (require (text_is r.source_state (get "source_state" entry)) _) _ e λ bound e.
        after_check
          (raise_if (r.is_blocked && (r.backup_created || has_evidence r || says_nothing r.error))
            _)
          _ e
          λ blocked e. after_check (raise_if (not r.is_blocked && is_some r.error) _) _ e λ clean e.
            after_check
              (raise_if
                (r.source_state == "regular_file"
                  && not r.is_blocked
                  && (not r.backup_created
                      || not (is_some r.encrypted_blob_digest)
                      || not (is_some r.encrypted_size_bytes)))
                _)
              _ e
              λ file e. record {
                entry = entry;
                is_entry = or_raise-eq-ok _ _ known;
                same_source = require-eq-ok _ _ bound;
                blocked = blocked_lem r.is_blocked _ _ _ r.error (raised_lem _ _ blocked);
                without_error = error_lem r.is_blocked _ (raised_lem _ _ clean);
                file = file_lem r.source_state r.is_blocked _ _ _ (raised_lem _ _ file);
                absent = absent_lem r.source_state _ _ _ (raised_lem _ _ e);
              }

each :
    (entries : List Fields) (rs : List CheckpointResult)
    → for_each (check_result entries) rs ≡ ok tt
    → All (IsEvidenced entries) rs
each entries [] e = tt
each entries (r ∷ rs) e =
    after_check (check_result entries r) _ e
      λ here e. (check-IsEvidenced entries r here, each entries rs e)

check_status-IsConsistent :
    (receipt : Fields) (results : List CheckpointResult)
    → check_status receipt results ≡ ok tt
    → IsConsistent
        (λ (r : CheckpointResult). r.is_blocked)
        "journal_state"
        "checkpointed"
        receipt
        results
check_status-IsConsistent receipt results e =
    after_check
      (raise_if
        (text_is "ready" (get "status" receipt)
          && (not (text_is "checkpointed" (get "journal_state" receipt))
              || any (λ (r : CheckpointResult). r.is_blocked) results
              || not (is_null (get "error" receipt))))
        _)
      _ e
      λ ready e.
        consistent_lem (λ (r : CheckpointResult). r.is_blocked) "journal_state" "checkpointed"
          receipt results (raised_lem _ _ ready) (raised_lem _ _ e)

awaited_status : (t : JobStatus) (f : Fault) → require (is_delivered t) f ≡ ok tt → t ≡ delivered
awaited_status t f e = ground arith

pub check-Secured :
    (L : Library) (db : Db) (now : ℕ) (agent : LinuxAgent) (row : RemediationCheckpointJob)
    (s : CheckpointSubmission)
    → check_checkpoint_receipt L db now agent row s ≡ ok tt
    → Secured L db now agent row s
unfolding check_checkpoint_receipt
check-Secured L db now agent row s e =
    after_check (require (is_delivered row.job.status) _) _ e λ awaited e.
      after_check (require (is_checkpoint_bound L agent row s) _) _ e λ bound e.
        after_check (require (is_prepared_in_time db now row.job s.prepared_at) _) _ e λ timely e.
          after (or_raise (as_dicts (get "entries" row.recovery_plan)) _) _ e λ entries held e.
            after_check
              (raise_if
                (repeats_checkpoint s.checkpoint_results
                  || not (covers s.checkpoint_results entries))
                _)
              _ e
              λ covered e.
                after_check (for_each (check_result entries) s.checkpoint_results) _ e λ checked e.
                  after_check (check_status s.receipt s.checkpoint_results) _ e λ consistent e.
                    let (same, valid, id, validation, set, digest, of_agent, host, signed) =
                      nine (digest_of L (dict row.job.contract) == row.job.contract_digest) _ _ _ _
                        _ _ _ _ (require-eq-ok (is_checkpoint_bound L agent row s) _ bound) in
                    let (once, complete) =
                      neither (repeats_checkpoint s.checkpoint_results)
                        (covers s.checkpoint_results entries) (raised_lem _ _ covered) in
                    record {
                      awaited = awaited_status row.job.status _ awaited;
                      valid_plan = valid;
                      for_this_job = id;
                      for_validation = validation;
                      names_job = record {
                        same_contract = equal_lem _ _ same;
                        of_set = set;
                        of_contract = digest;
                        of_agent = of_agent;
                        of_host = host;
                      };
                      signed = signed;
                      timely = prepared-InTime db now row.job s.prepared_at (
                          require-eq-ok (is_prepared_in_time db now row.job s.prepared_at) _
                            timely);
                      entries = entries;
                      has_entries = or_raise-eq-ok _ _ held;
                      exact = covers-IsExact s.checkpoint_results entries once complete;
                      results = each entries s.checkpoint_results checked;
                      consistent =
                          check_status-IsConsistent s.receipt s.checkpoint_results consistent;
                      journal = require-eq-ok (names_digest L row s) _ e;
                    }
