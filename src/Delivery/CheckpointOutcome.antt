-- ===== src/Delivery/CheckpointOutcome.antt =====
-- What an accepted checkpoint receipt has established.
use lsa.Base.{
  find_sound, nat_eq, ℕ, String, true, ◌≡◌, some, find, update_first, ◌⊎◌, inl, inr, ok, after,
  after_check, require, require-eq-ok, or_raise, or_raise-eq-ok, Bool-cases, string_eq,
}
use lsa.Library.{Library}
use lsa.Schema.Fleet.{LinuxAgent}
use lsa.Schema.Jobs.{has_receipt, RemediationCheckpointJob}
use lsa.Schema.Database.{Db}
use lsa.Delivery.Control.{Response}
use lsa.Delivery.Sequence.{signed_control_response-eq-ok}
use lsa.Delivery.Answers.{
  IsStored, IsOwn, own_lem, answer-rest, stored_lem, only_numbered, closed_by,
}
use lsa.Delivery.Checkpoint.{require_checkpoint_agent}
use lsa.Delivery.CheckpointReceipt.{
  CheckpointSubmission, is_checkpoint_for, is_stored, check_checkpoint_receipt,
  answer_checkpoint_again, accept_checkpoint, submit_remediation_checkpoint_receipt,
}
use lsa.Delivery.CheckpointEvidence.{Secured, check-Secured}

-- What a submission that returns has found and done.
pub record CheckpointSubmitted (L : Library) (now : ℕ) (agent : LinuxAgent) (id : String)
    (s : CheckpointSubmission) (db db' : Db) : Type 0 where
  pub row : RemediationCheckpointJob
  pub found : find (is_checkpoint_for agent id) db.checkpoint_jobs ≡ some row
  pub own : IsOwn agent id row.job
  pub outcome :
      ((has_receipt row.job.status ≡ true)
        × IsStored row.job s.receipt s.signature
        × (db' ≡ only_numbered agent db))
      ⊎ (Secured L db now agent row s
          × (db' ≡ record db {
            agents = db'.agents;
            audit_events = db'.audit_events;
            checkpoint_jobs =
                update_first
                  (is_checkpoint_for agent id)
                  (λ (r : RemediationCheckpointJob). record r {
                    job = closed_by now s.receipt s.signature r.job;
                  })
                  db.checkpoint_jobs;
          }))

-- A checkpoint receipt that is accepted belongs to the job with this identifier of the agent and its tenant.
-- Either the job had a receipt, which is then the same one with the same signature, and nothing changes but the
-- agent's sequence number, which advances; or the job was delivered, its recovery plan is valid, the agent's
-- key signed the receipt, which names the job, its validation, change set, contract, agent and host, in time,
-- there is exactly one result for each entry of the plan, each of the source state of its entry and with the
-- evidence that this state calls for, the verdict fits the results, and the journal's digest is that of these
-- results. Then the job's row alone takes the verdict, and apart from it only the agents and the audit events
-- change.
pub submit_checkpoint-eq-ok :
    (L : Library) (now : ℕ) (agent : LinuxAgent) (id : String) (s : CheckpointSubmission) (db : Db)
    {response : Response} {db' : Db}
    → submit_remediation_checkpoint_receipt L now agent id s db ≡ ok (response, db')
    → CheckpointSubmitted L now agent id s db db'
unfolding submit_remediation_checkpoint_receipt answer_checkpoint_again accept_checkpoint
submit_checkpoint-eq-ok L now agent id s db {response} {db'} e =
    after_check (require_checkpoint_agent agent) _ e λ attested e.
      after (or_raise (find (is_checkpoint_for agent id) db.checkpoint_jobs) _) _ e λ row found e.
        record {
          row = row;
          found = or_raise-eq-ok _ _ found;
          own =
              own_lem agent id row.job
                (find_sound (is_checkpoint_for agent id) _ (or_raise-eq-ok _ _ found));
          outcome = elim (Bool-cases (has_receipt row.job.status)) [
            | inl held ↦ after_check (require (is_stored row.job s) _) _ (rw held at e) λ same e.
                inl (
                  held,
                  stored_lem row.job.receipt row.job.receipt_signature s.receipt s.signature
                      (require-eq-ok (is_stored row.job s) _ same),
                  (signed_control_response-eq-ok L now agent _ _ db e).written,
                )
            | inr open_job ↦
                after_check (check_checkpoint_receipt L db now agent row s) _ (rw open_job at e)
                  λ checked e.
                    inr
                      (check-Secured L db now agent row s checked, answer-rest L now agent _ _ _ e)
          ];
        }
