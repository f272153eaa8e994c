-- ===== src/Delivery/Invariant.antt =====
-- At most one validation job of a change set and an agent is under way, whatever requests arrive.
use lsa.Base.{
  ℕ, String, ◌≡◌, refl, List, [], ◌∷◌, some, find, string_eq, nat_eq, option_eq, Result, ok, err,
  after, after_check, require, or_raise, on_error, catalog_409, arith, Bool-cases, inl, inr,
  length-select-update_first, all,
}
use lsa.Library.{Library}
use lsa.Schema.Fleet.{User, LinuxAgent, PlatformChangeSigningKey}
use lsa.Schema.ChangeSets.{is_pending}
use lsa.Schema.Jobs.{Job, RemediationValidationJob, has_receipt}
use lsa.Schema.Database.{Db}
use lsa.Signing.{active_change_signing_key, sign_change_set}
use lsa.Plans.{require_admin}
use lsa.ChangeSets.Decisions.{change_set_of, keyed, authorize_change_set}
use lsa.ChangeSets.Jobs.{is_under_way, queue_checkpoint_job, queue_recovery_verification_job}
use lsa.ChangeSets.Gates.{Gate, readiness_gates}
use lsa.Delivery.Control.{Response}
use lsa.Delivery.Sequence.{answer-jobs}
use lsa.Delivery.Validation.{next_remediation_validation, require_validation_agent, is_deliverable}
use lsa.Delivery.Checkpoint.{
  next_remediation_checkpoint, next_recovery_verification, require_checkpoint_agent,
  require_verification_agent,
}
use lsa.Delivery.CheckpointReceipt.{
  CheckpointSubmission, submit_remediation_checkpoint_receipt, answer_checkpoint_again,
  accept_checkpoint, is_checkpoint_for, is_stored, check_checkpoint_receipt,
}
use lsa.Delivery.VerificationReceipt.{
  VerificationSubmission, submit_recovery_verification_receipt, answer_verification_again,
  accept_verification, is_verification_for, is_known_receipt, check_verification_receipt,
}
use lsa.Delivery.Receipt.{
  Submission, submit_remediation_validation_receipt, accept_receipt, answer_again, check_receipt,
  is_job_of, accepted_job, is_same_receipt,
}
use lsa.Delivery.Lifecycle.{
  Request, authorize, cancel, validate, checkpoint, verify, poll, poll_checkpoint,
  poll_verification, submit, submit_checkpoint, submit_verification, handle, serve, stored,
  committed,
}
use lsa.Delivery.UnderWay.{
  OneUnderWay, queue-OneUnderWay, cancel-OneUnderWay, unchanged-OneUnderWay, fewer-OneUnderWay,
  next_job-fewer,
}

stored-eq-ok :
    (r : Result (Response × Db)) {db : Db}
    → stored r ≡ ok db
    → (response : Response) × (r ≡ ok (response, db))
stored-eq-ok (ok (response, db')) h = let same : db' ≡ _ = ground arith in (response, rw same refl)
stored-eq-ok (err e) h = cc

module _ (L : Library) (now : ℕ) (agent : LinuxAgent) where
  poll-OneUnderWay :
      (db db' : Db) (response : Response)
      → next_remediation_validation L now agent db ≡ ok (response, db')
      → OneUnderWay db
      → OneUnderWay db'
  unfolding next_remediation_validation
  poll-OneUnderWay db db' response e h =
      after_check (require_validation_agent agent) _ e λ attested e.
        fewer-OneUnderWay db db'
          (λ s a. rw (answer-jobs L now agent _ _ _ e) (
            next_job-fewer (is_deliverable L db now agent) now
              "Validation contract is no longer eligible for delivery" agent.id agent.tenant_id
              db.validation_jobs s a))
          h

  poll_checkpoint-OneUnderWay :
      (db db' : Db) (response : Response)
      → next_remediation_checkpoint L now agent db ≡ ok (response, db')
      → OneUnderWay db
      → OneUnderWay db'
  unfolding next_remediation_checkpoint
  poll_checkpoint-OneUnderWay db db' response e h =
      after_check (require_checkpoint_agent agent) _ e
        λ attested e. unchanged-OneUnderWay db db' (answer-jobs L now agent _ _ _ e) h

  poll_verification-OneUnderWay :
      (db db' : Db) (response : Response)
      → next_recovery_verification L now agent db ≡ ok (response, db')
      → OneUnderWay db
      → OneUnderWay db'
  unfolding next_recovery_verification
  poll_verification-OneUnderWay db db' response e h =
      after_check (require_verification_agent agent) _ e
        λ attested e. unchanged-OneUnderWay db db' (answer-jobs L now agent _ _ _ e) h

  accept-OneUnderWay :
      (id : String) (job : Job) (receipt : Submission) (db db' : Db) (response : Response)
      → accept_receipt L now agent id job receipt db ≡ ok (response, db')
      → OneUnderWay db
      → OneUnderWay db'
  unfolding accept_receipt
  accept-OneUnderWay id job receipt db db' response e h =
      after_check (check_receipt L db now agent job receipt) _ e λ checked e.
        fewer-OneUnderWay db db'
          (λ s a. rw (answer-jobs L now agent _ _ _ e) (
            length-select-update_first (is_under_way s a) (is_job_of agent id)
              (λ (r : RemediationValidationJob). record { job = accepted_job now receipt r.job })
              db.validation_jobs (λ x found again. ground arith)))
          h

  submit_checkpoint-OneUnderWay :
      (id : String) (s : CheckpointSubmission) (db db' : Db) (response : Response)
      → submit_remediation_checkpoint_receipt L now agent id s db ≡ ok (response, db')
      → OneUnderWay db
      → OneUnderWay db'
  unfolding submit_remediation_checkpoint_receipt answer_checkpoint_again accept_checkpoint
  submit_checkpoint-OneUnderWay id s db db' response e h =
      after_check (require_checkpoint_agent agent) _ e λ attested e.
        after (or_raise (find (is_checkpoint_for agent id) db.checkpoint_jobs) _) _ e λ row found e.
          elim (Bool-cases (has_receipt row.job.status)) [
            | inl held ↦
                after_check (require (is_stored row.job s) _) _ (rw held at e)
                  λ same e. unchanged-OneUnderWay db db' (answer-jobs L now agent _ _ _ e) h
            | inr open_job ↦
                after_check (check_checkpoint_receipt L db now agent row s) _ (rw open_job at e)
                  λ checked e. unchanged-OneUnderWay db db' (answer-jobs L now agent _ _ _ e) h
          ]

  submit_verification-OneUnderWay :
      (id : String) (s : VerificationSubmission) (db db' : Db) (response : Response)
      → submit_recovery_verification_receipt L now agent id s db ≡ ok (response, db')
      → OneUnderWay db
      → OneUnderWay db'
  unfolding submit_recovery_verification_receipt answer_verification_again accept_verification
  submit_verification-OneUnderWay id s db db' response e h =
      after_check (require_verification_agent agent) _ e λ attested e.
        after (or_raise (find (is_verification_for agent id) db.verification_jobs) _) _ e
          λ row found e. elim (Bool-cases (has_receipt row.job.status)) [
            | inl held ↦
                after_check (require (is_known_receipt row.job s) _) _ (rw held at e)
                  λ same e. unchanged-OneUnderWay db db' (answer-jobs L now agent _ _ _ e) h
            | inr open_job ↦
                after_check (check_verification_receipt L db now agent row s) _ (rw open_job at e)
                  λ checked e. unchanged-OneUnderWay db db' (answer-jobs L now agent _ _ _ e) h
          ]

  submit-OneUnderWay :
      (id : String) (receipt : Submission) (db db' : Db) (response : Response)
      → submit_remediation_validation_receipt L now agent id receipt db ≡ ok (response, db')
      → OneUnderWay db
      → OneUnderWay db'
  unfolding submit_remediation_validation_receipt answer_again
  submit-OneUnderWay id receipt db db' response e h =
      after_check (require_validation_agent agent) _ e λ attested e.
        after (or_raise (find (is_job_of agent id) db.validation_jobs) _) _ e λ row found e.
          elim (Bool-cases (has_receipt row.job.status)) [
            | inl held ↦
                after_check (require (is_same_receipt row.job receipt) _) _ (rw held at e)
                  λ same e. unchanged-OneUnderWay db db' (answer-jobs L now agent _ _ _ e) h
            | inr open_job ↦
                accept-OneUnderWay id row.job receipt db db' response (rw open_job at e) h
          ]

keyed-validation_jobs :
    (user : User) (generated : PlatformChangeSigningKey) (db : Db) (tenant_id : String)
    → (keyed user (active_change_signing_key generated db tenant_id)).validation_jobs
      ≡ db.validation_jobs
unfolding keyed active_change_signing_key
keyed-validation_jobs user generated db tenant_id = ground arith

module _ (L : Library) where
  authorize-OneUnderWay :
      (generated : PlatformChangeSigningKey) (now later : ℕ) (user : User) (id : String)
      (db db' : Db)
      → authorize_change_set L generated now later user id db ≡ ok db'
      → OneUnderWay db
      → OneUnderWay db'
  unfolding authorize_change_set
  authorize-OneUnderWay generated now later user id db db' e h =
      after_check (require_admin user) _ e λ admin e.
        after (change_set_of db user id) _ e λ cs found e.
          after_check (require (is_pending cs.status) _) _ e λ pending e.
            after (on_error catalog_409 (readiness_gates L db now cs (some user))) _ e
              λ gates computed e.
                after_check (require (all (λ (g : Gate). g.passed) gates) _) _ e λ passed e.
                  after
                    (sign_change_set L (active_change_signing_key generated db user.tenant_id).0
                      cs.payload)
                    _ e
                    λ signature signed e.
                      unchanged-OneUnderWay db db'
                        (ground (arith, keyed-validation_jobs user generated db user.tenant_id)) h

  checkpoint-OneUnderWay :
      (id : String) (now : ℕ) (user : User) (set_id job_id : String) (db db' : Db)
      → queue_checkpoint_job L id now user set_id job_id db ≡ ok db'
      → OneUnderWay db
      → OneUnderWay db'
  unfolding queue_checkpoint_job
  checkpoint-OneUnderWay id now user set_id job_id db db' e h =
      unchanged-OneUnderWay db db' (ground arith) h

  verify-OneUnderWay :
      (id : String) (now : ℕ) (user : User) (set_id job_id : String) (db db' : Db)
      → queue_recovery_verification_job L id now user set_id job_id db ≡ ok db'
      → OneUnderWay db
      → OneUnderWay db'
  unfolding queue_recovery_verification_job
  verify-OneUnderWay id now user set_id job_id db db' e h =
      unchanged-OneUnderWay db db' (ground arith) h

  handle-OneUnderWay :
      (now : ℕ) (r : Request) (db db' : Db)
      → handle L now r db ≡ ok db'
      → OneUnderWay db
      → OneUnderWay db'
  unfolding handle
  handle-OneUnderWay now (authorize generated later user id) db db' e h =
      authorize-OneUnderWay generated now later user id db db' e h
  handle-OneUnderWay now (cancel user id reason) db db' e h =
      cancel-OneUnderWay L now user id reason db db' e h
  handle-OneUnderWay now (validate id user set_id agent_id) db db' e h =
      queue-OneUnderWay L id now user set_id agent_id db db' e h
  handle-OneUnderWay now (checkpoint id user set_id job_id) db db' e h =
      checkpoint-OneUnderWay id now user set_id job_id db db' e h
  handle-OneUnderWay now (verify id user set_id job_id) db db' e h =
      verify-OneUnderWay id now user set_id job_id db db' e h
  handle-OneUnderWay now (poll agent) db db' e h =
      let (response, e) = stored-eq-ok (next_remediation_validation L now agent db) e in
      poll-OneUnderWay L now agent db db' response e h
  handle-OneUnderWay now (poll_checkpoint agent) db db' e h =
      let (response, e) = stored-eq-ok (next_remediation_checkpoint L now agent db) e in
      poll_checkpoint-OneUnderWay L now agent db db' response e h
  handle-OneUnderWay now (poll_verification agent) db db' e h =
      let (response, e) = stored-eq-ok (next_recovery_verification L now agent db) e in
      poll_verification-OneUnderWay L now agent db db' response e h
  handle-OneUnderWay now (submit agent id s) db db' e h =
      let (response, e) =
        stored-eq-ok (submit_remediation_validation_receipt L now agent id s db) e in
      submit-OneUnderWay L now agent id s db db' response e h
  handle-OneUnderWay now (submit_checkpoint agent id s) db db' e h =
      let (response, e) =
        stored-eq-ok (submit_remediation_checkpoint_receipt L now agent id s db) e in
      submit_checkpoint-OneUnderWay L now agent id s db db' response e h
  handle-OneUnderWay now (submit_verification agent id s) db db' e h =
      let (response, e) =
        stored-eq-ok (submit_recovery_verification_receipt L now agent id s db) e in
      submit_verification-OneUnderWay L now agent id s db db' response e h

  committed-OneUnderWay :
      (db : Db) (r : Result Db)
      → ((db' : Db) → r ≡ ok db' → OneUnderWay db')
      → OneUnderWay db
      → OneUnderWay (committed db r)
  committed-OneUnderWay db (ok db') keep h = keep db' refl
  committed-OneUnderWay db (err e) keep h = h

  -- Whatever requests arrive, in any order: if of each change set and agent at most one validation
  -- job is queued or delivered, then this holds afterwards.
  pub serve-OneUnderWay :
      (requests : List (ℕ × Request)) (db : Db) → OneUnderWay db → OneUnderWay (serve L requests db)
  unfolding serve
  serve-OneUnderWay [] db h = h
  serve-OneUnderWay ((now, r) ∷ rest) db h =
      serve-OneUnderWay rest (committed db (handle L now r db)) (
        committed-OneUnderWay db (handle L now r db) (λ db' e. handle-OneUnderWay now r db db' e h)
          h)
