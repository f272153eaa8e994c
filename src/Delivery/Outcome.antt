-- ===== src/Delivery/Outcome.antt =====
-- What an accepted validation receipt has established.
use lsa.Base.{
  never_lem, Option-cases, or_raise-eq-ok, find_sound, ℕ, String, true, ◌≡◌, some, find,
  update_first, ◌⊎◌, inl, inr, ok, after, after_check, require, require-eq-ok, or_raise, Bool-cases,
  string_eq, nat_eq, option_eq,
}
use lsa.Library.{Library}
use lsa.Schema.Fleet.{LinuxAgent}
use lsa.Schema.Jobs.{Job, has_receipt, RemediationValidationJob}
use lsa.Schema.Database.{Db}
use lsa.Delivery.Control.{Response}
use lsa.Delivery.Sequence.{signed_control_response-eq-ok}
use lsa.Delivery.Answers.{
  IsStored, IsOwn, own_lem, answer-rest, stored_lem, only_numbered, closed_by,
}
use lsa.Delivery.Validation.{require_validation_agent}
use lsa.Delivery.Receipt.{
  Submission, is_job_of, is_same_receipt, check_receipt, answer_again, accept_receipt,
  submit_remediation_validation_receipt,
}
use lsa.Delivery.ReceiptChecks.{Checked, check_receipt-eq-ok}

-- What a submission that returns has found and done, for a job that had a receipt and for one that
-- had none.
pub record Submitted (L : Library) (now : ℕ) (agent : LinuxAgent) (id : String) (s : Submission)
    (db db' : Db) : Type 0 where
  pub row : RemediationValidationJob
  pub found : find (is_job_of agent id) db.validation_jobs ≡ some row
  pub own : IsOwn agent id row.job
  pub outcome :
      ((has_receipt row.job.status ≡ true)
        × IsStored row.job s.receipt s.signature
        × (db' ≡ only_numbered agent db))
      ⊎ (Checked L db now agent row.job s
          × (db' ≡ record db {
            agents = db'.agents;
            audit_events = db'.audit_events;
            validation_jobs =
                update_first
                  (is_job_of agent id)
                  (λ (r : RemediationValidationJob). record {
                    job = closed_by now s.receipt s.signature r.job;
                  })
                  db.validation_jobs;
          }))

same-IsStored :
    (job : Job) (s : Submission) → is_same_receipt job s ≡ true → IsStored job s.receipt s.signature
same-IsStored job s h = elim (Option-cases job.receipt) [
  | inl missing ↦ never_lem (rw missing at h)
  | inr (old, given) ↦
      stored_lem job.receipt job.receipt_signature s.receipt s.signature (rw given (rw given at h))
]

-- A receipt that is accepted belongs to the job with this identifier of the agent and its tenant. Either the job
-- had a receipt, which is then the same one with the same signature, and nothing changes but the agent's
-- sequence number, which advances; or the job was delivered, its contract has its digest, the agent's
-- key signed the receipt, which names the job, its change set, contract, agent and host and says that nothing
-- is enabled or applied, in time, with at most one result for a plan, each of an action with its digest. A ready
-- verdict is backed by a ready result for each action, no error, and a ready recovery plan from an agent that
-- plans recoveries. Then the job's row alone takes the verdict, and apart from it only the agents and
-- the audit events change.
pub submit-eq-ok :
    (L : Library) (now : ℕ) (agent : LinuxAgent) (id : String) (s : Submission) (db : Db)
    {response : Response} {db' : Db}
    → submit_remediation_validation_receipt L now agent id s db ≡ ok (response, db')
    → Submitted L now agent id s db db'
unfolding submit_remediation_validation_receipt answer_again accept_receipt
submit-eq-ok L now agent id s db {response} {db'} e =
    after_check (require_validation_agent agent) _ e λ attested e.
      after (or_raise (find (is_job_of agent id) db.validation_jobs) _) _ e λ row found e. record {
        row = row;
        found = or_raise-eq-ok _ _ found;
        own =
            own_lem agent id row.job (find_sound (is_job_of agent id) _ (or_raise-eq-ok _ _ found));
        outcome = elim (Bool-cases (has_receipt row.job.status)) [
          | inl held ↦
              after_check (require (is_same_receipt row.job s) _) _ (rw held at e) λ same e. inl (
                held,
                same-IsStored row.job s (require-eq-ok _ _ same),
                (signed_control_response-eq-ok L now agent _ _ db e).written,
              )
          | inr open_job ↦
              after_check (check_receipt L db now agent row.job s) _ (rw open_job at e) λ checked e.
                inr (
                  check_receipt-eq-ok L db now agent row.job s checked,
                  answer-rest L now agent _ _ _ e,
                )
        ];
      }
