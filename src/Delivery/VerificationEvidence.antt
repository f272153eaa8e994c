-- ===== src/Delivery/VerificationEvidence.antt =====
-- The checks that a verification receipt has passed, result by result.
use lsa.Base.{
  all-All, any, none, Option, map, Distinct, and_left, and_right, nat_eq, ℕ, String, Bool, true,
  false, ◌≡◌, refl, ◌&&◌, ◌||◌, not, List, [], ◌∷◌, some, All, ok, Fault, after, after_check,
  require, require-eq-ok, raise_if, or_raise, or_raise-eq-ok, for_each, arith, string_eq, ◌==◌,
}
use lsa.Json.{
  Fields, dict, get, text_is, as_dicts, is_some, last_by, py_eq, is_null, opt_text, opt_num,
}
use lsa.Library.{Library, digest_of}
use lsa.Schema.Fleet.{LinuxAgent}
use lsa.Schema.Jobs.{JobStatus, delivered, is_delivered, RemediationRecoveryVerificationJob}
use lsa.Schema.Database.{Db, get_checkpoint_job}
use lsa.Signing.{verify_signature}
use lsa.Receipts.{validate_recovery_plan}
use lsa.Delivery.Answers.{
  InTime, NamesJob, IsExact, IsConsistent, prepared-InTime, equal_lem, raised_lem, any-contains,
  consistent_lem,
}
use lsa.Delivery.CheckpointReceipt.{is_prepared_in_time, says_nothing}
use lsa.Delivery.VerificationReceipt.{
  VerificationSubmission, VerificationResult, repeats_verification, verifies_all, recorded_results,
  recorded_result, is_recorded_blob, names_blob, check_verification, check_verdict_of,
  is_verification_bound, check_verification_receipt,
}

-- The evidence that a result gives. A file that is called verified has the digest and the size that the
-- checkpoint recorded.
pub record IsBacked (entries recorded : List Fields) (r : VerificationResult) : Type 0 where
  pub entry : Fields
  pub is_entry : last_by "checkpoint_id" r.checkpoint_id entries ≡ some entry
  pub same_source : text_is r.source_state (get "source_state" entry) ≡ true
  pub blocked :
      r.is_blocked ≡ true
      → (is_some r.encrypted_blob_digest ≡ false)
        × (is_some r.encrypted_size_bytes ≡ false)
        × (is_some r.error ≡ true)
  pub without_error : r.is_blocked ≡ false → is_some r.error ≡ false
  pub file :
      r.source_state ≡ "regular_file"
      → r.is_blocked ≡ false
      → (py_eq
            (opt_text r.encrypted_blob_digest)
            (get "encrypted_blob_digest" (recorded_result r.checkpoint_id recorded))
          ≡ true)
        × (py_eq
              (opt_num r.encrypted_size_bytes)
              (get "encrypted_size_bytes" (recorded_result r.checkpoint_id recorded))
            ≡ true)
  pub absent :
      r.source_state ≡ "absent"
      → (is_some r.encrypted_blob_digest ≡ false) × (is_some r.encrypted_size_bytes ≡ false)

-- The checks that a verification receipt has passed.
pub record Verified (L : Library) (db : Db) (now : ℕ) (agent : LinuxAgent)
    (row : RemediationRecoveryVerificationJob) (s : VerificationSubmission) : Type 0 where
  pub awaited : row.job.status ≡ delivered
  pub valid_plan : validate_recovery_plan L row.job.contract row.recovery_plan ≡ true
  pub for_this_job : text_is row.job.id (get "verification_job_id" s.receipt) ≡ true
  pub for_checkpoint : text_is row.checkpoint_job_id (get "checkpoint_job_id" s.receipt) ≡ true
  pub for_validation : text_is row.validation_job_id (get "validation_id" s.receipt) ≡ true
  pub for_journal :
      text_is row.checkpoint_journal_digest (get "checkpoint_journal_digest" s.receipt) ≡ true
  pub names_job : NamesJob L row.job s.receipt
  pub signed : verify_signature L agent.public_key s.receipt s.signature ≡ true
  pub timely : InTime db now row.job s.verified_at
  pub entries : List Fields
  pub has_entries : as_dicts (get "entries" row.recovery_plan) ≡ some entries
  pub exact : IsExact (λ (r : VerificationResult). r.checkpoint_id) s.verification_results entries
  pub backed :
      All
        (IsBacked entries (recorded_results (get_checkpoint_job db row.checkpoint_job_id)))
        s.verification_results
  pub consistent :
      IsConsistent
        (λ (r : VerificationResult). r.is_blocked)
        "verification_state"
        "verified"
        s.receipt
        s.verification_results

eleven :
    (a b c d e f g h i j k : Bool)
    → (a && b && c && d && e && f && g && h && i && j && k) ≡ true
    → (a ≡ true)
      × (b ≡ true)
      × (c ≡ true)
      × (d ≡ true)
      × (e ≡ true)
      × (f ≡ true)
      × (g ≡ true)
      × (h ≡ true)
      × (i ≡ true)
      × (j ≡ true)
      × (k ≡ true)
eleven a b c d e f g h i j k all_hold = (
  ground arith,
  ground arith,
  ground arith,
  ground arith,
  ground arith,
  ground arith,
  ground arith,
  ground arith,
  ground arith,
  ground arith,
  ground arith,
)

neither : (a b : Bool) → (a || not b) ≡ false → (a ≡ false) × (b ≡ true)
neither a b h = (ground arith, ground arith)

repeats-Distinct :
    (rs : List VerificationResult)
    → repeats_verification rs ≡ false
    → Distinct (map (λ (r : VerificationResult). r.checkpoint_id) rs)
repeats-Distinct [] h = tt
repeats-Distinct (r ∷ rs) h = (
  any-contains (λ (q : VerificationResult). q.checkpoint_id) r.checkpoint_id rs (ground arith),
  repeats-Distinct rs (ground arith),
)

verifies-IsExact :
    (results : List VerificationResult) (entries : List Fields)
    → repeats_verification results ≡ false
    → verifies_all results entries ≡ true
    → IsExact (λ (r : VerificationResult). r.checkpoint_id) results entries
verifies-IsExact results entries once covered = record {
  once = repeats-Distinct results once;
  known = all-All _ results (and_left _ _ covered);
  answered = all-All _ entries (and_right _ _ covered);
}

-- The four tests of a result's evidence.
blocked_lem :
    (b digest size : Bool) (error : Option String)
    → (b && ((digest || size) || says_nothing error)) ≡ false
    → b ≡ true
    → (digest ≡ false) × (size ≡ false) × (is_some error ≡ true)
blocked_lem b digest size none h k = ground arith
blocked_lem b digest size (some text) h k = (ground arith, ground arith, refl)

error_lem : (b e : Bool) → (not b && e) ≡ false → b ≡ false → e ≡ false
error_lem b e h k = ground arith

file_lem :
    (state : String) (b digest size : Bool)
    → (state == "regular_file" && not b && not (digest && size)) ≡ false
    → state ≡ "regular_file"
    → b ≡ false
    → (digest ≡ true) × (size ≡ true)
file_lem state b digest size h is_file k = (ground arith, ground arith)

absent_lem :
    (state : String) (digest size : Bool)
    → (state == "absent" && (digest || size)) ≡ false
    → state ≡ "absent"
    → (digest ≡ false) × (size ≡ false)
absent_lem state digest size h is_absent = (ground arith, ground arith)

check-IsBacked :
    (entries recorded : List Fields) (r : VerificationResult)
    → check_verification entries recorded r ≡ ok tt
    → IsBacked entries recorded r
check-IsBacked entries recorded r e =
    after (or_raise (last_by "checkpoint_id" r.checkpoint_id entries) _) _ e λ entry known e.
      after_check (require (text_is r.source_state (get "source_state" entry)) _) _ e λ bound e.
        after_check (raise_if (r.is_blocked && (names_blob r || says_nothing r.error)) _) _ e
          λ blocked e. after_check (raise_if (not r.is_blocked && is_some r.error) _) _ e λ clean e.
            after_check
              (raise_if
                (r.source_state == "regular_file"
                  && not r.is_blocked
                  && not (is_recorded_blob r (recorded_result r.checkpoint_id recorded)))
                _)
              _ e
              λ file e. record {
                entry = entry;
                is_entry = or_raise-eq-ok _ _ known;
                same_source = require-eq-ok _ _ bound;
                blocked = blocked_lem r.is_blocked _ _ r.error (raised_lem _ _ blocked);
                without_error = error_lem r.is_blocked _ (raised_lem _ _ clean);
                file = file_lem r.source_state r.is_blocked _ _ (raised_lem _ _ file);
                absent = absent_lem r.source_state _ _ (raised_lem _ _ e);
              }

check_verdict-IsConsistent :
    (receipt : Fields) (results : List VerificationResult)
    → check_verdict_of receipt results ≡ ok tt
    → IsConsistent
        (λ (r : VerificationResult). r.is_blocked)
        "verification_state"
        "verified"
        receipt
        results
check_verdict-IsConsistent receipt results e =
    after_check
      (raise_if
        (text_is "ready" (get "status" receipt)
          && (not (text_is "verified" (get "verification_state" receipt))
              || any (λ (r : VerificationResult). r.is_blocked) results
              || not (is_null (get "error" receipt))))
        _)
      _ e
      λ ready e.
        consistent_lem (λ (r : VerificationResult). r.is_blocked) "verification_state" "verified"
          receipt results (raised_lem _ _ ready) (raised_lem _ _ e)

delivered_status : (t : JobStatus) (f : Fault) → require (is_delivered t) f ≡ ok tt → t ≡ delivered
delivered_status t f e = ground arith

each :
    (entries recorded : List Fields) (rs : List VerificationResult)
    → for_each (check_verification entries recorded) rs ≡ ok tt
    → All (IsBacked entries recorded) rs
each entries recorded [] e = tt
each entries recorded (r ∷ rs) e =
    after_check (check_verification entries recorded r) _ e
      λ here e. (check-IsBacked entries recorded r here, each entries recorded rs e)

pub check-Verified :
    (L : Library) (db : Db) (now : ℕ) (agent : LinuxAgent)
    (row : RemediationRecoveryVerificationJob) (s : VerificationSubmission)
    → check_verification_receipt L db now agent row s ≡ ok tt
    → Verified L db now agent row s
unfolding check_verification_receipt
check-Verified L db now agent row s e =
    after_check (require (is_delivered row.job.status) _) _ e λ awaited e.
      after_check (require (is_verification_bound L agent row s) _) _ e λ bound e.
        after_check (require (is_prepared_in_time db now row.job s.verified_at) _) _ e λ timely e.
          after (or_raise (as_dicts (get "entries" row.recovery_plan)) _) _ e λ entries held e.
            after_check
              (raise_if
                (repeats_verification s.verification_results
                  || not (verifies_all s.verification_results entries))
                _)
              _ e
              λ covered e.
                after_check
                  (for_each
                    (check_verification entries
                      (recorded_results (get_checkpoint_job db row.checkpoint_job_id)))
                    s.verification_results)
                  _ e
                  λ checked e.
                    let (
                      same, valid, id, checkpoint, validation, set, digest, journal, of_agent, host,
                      signed,
                    ) =
                      eleven (digest_of L (dict row.job.contract) == row.job.contract_digest) _ _ _
                        _ _ _ _ _ _ _
                        (require-eq-ok (is_verification_bound L agent row s) _ bound) in
                    let (once, complete) =
                      neither (repeats_verification s.verification_results)
                        (verifies_all s.verification_results entries) (raised_lem _ _ covered) in
                    record {
                      awaited = delivered_status row.job.status _ awaited;
                      valid_plan = valid;
                      for_this_job = id;
                      for_checkpoint = checkpoint;
                      for_validation = validation;
                      for_journal = journal;
                      names_job = record {
                        same_contract = equal_lem _ _ same;
                        of_set = set;
                        of_contract = digest;
                        of_agent = of_agent;
                        of_host = host;
                      };
                      signed = signed;
                      timely = prepared-InTime db now row.job s.verified_at (
                          require-eq-ok (is_prepared_in_time db now row.job s.verified_at) _
                            timely);
                      entries = entries;
                      has_entries = or_raise-eq-ok _ _ held;
                      exact = verifies-IsExact s.verification_results entries once complete;
                      backed =
                          each entries
                            (recorded_results (get_checkpoint_job db row.checkpoint_job_id))
                            s.verification_results checked;
                      consistent = check_verdict-IsConsistent s.receipt s.verification_results e;
                    }
