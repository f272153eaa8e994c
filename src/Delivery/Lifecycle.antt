-- ===== src/Delivery/Lifecycle.antt =====
-- Any sequence of requests by administrators and agents that touch the jobs of a change set
-- (apps/api/lsa/api/change_sets.py, agents.py). A request that raises changes nothing.
use lsa.Base.{ℕ, String, List, [], ◌∷◌, Result, ok, err}
use lsa.Library.{Library}
use lsa.Schema.Fleet.{User, LinuxAgent, PlatformChangeSigningKey}
use lsa.Schema.Database.{Db}
use lsa.ChangeSets.Decisions.{authorize_change_set, cancel_change_set}
use lsa.ChangeSets.Jobs.{
  queue_validation_job, queue_checkpoint_job, queue_recovery_verification_job,
}
use lsa.Delivery.Control.{Response}
use lsa.Delivery.Validation.{next_remediation_validation}
use lsa.Delivery.Checkpoint.{next_remediation_checkpoint, next_recovery_verification}
use lsa.Delivery.CheckpointReceipt.{CheckpointSubmission, submit_remediation_checkpoint_receipt}
use lsa.Delivery.VerificationReceipt.{VerificationSubmission, submit_recovery_verification_receipt}
use lsa.Delivery.Receipt.{Submission, submit_remediation_validation_receipt}

pub data Request : Type 0 where
  authorize : PlatformChangeSigningKey → ℕ → User → String → Request
  cancel : User → String → String → Request
  validate : String → User → String → String → Request
  checkpoint : String → User → String → String → Request
  verify : String → User → String → String → Request
  poll : LinuxAgent → Request
  poll_checkpoint : LinuxAgent → Request
  poll_verification : LinuxAgent → Request
  submit : LinuxAgent → String → Submission → Request
  submit_checkpoint : LinuxAgent → String → CheckpointSubmission → Request
  submit_verification : LinuxAgent → String → VerificationSubmission → Request

-- The database after an agent's request, which also has an answer.
abbrev pub stored : Result (Response × Db) → Result Db
stored (ok (response, db)) = ok db
stored (err e) = err e

abbrev pub committed : Db → Result Db → Db
committed db (ok db') = db'
committed db (err e) = db

module _ (L : Library) where
  unfoldable pub handle : ℕ → Request → Db → Result Db
  handle now (authorize generated later user id) db =
      authorize_change_set L generated now later user id db
  handle now (cancel user id reason) db = cancel_change_set L now user id reason db
  handle now (validate id user change_set_id agent_id) db =
      queue_validation_job L id now user change_set_id agent_id db
  handle now (checkpoint id user change_set_id job_id) db =
      queue_checkpoint_job L id now user change_set_id job_id db
  handle now (verify id user change_set_id job_id) db =
      queue_recovery_verification_job L id now user change_set_id job_id db
  handle now (poll agent) db = stored (next_remediation_validation L now agent db)
  handle now (poll_checkpoint agent) db = stored (next_remediation_checkpoint L now agent db)
  handle now (poll_verification agent) db = stored (next_recovery_verification L now agent db)
  handle now (submit agent id s) db =
      stored (submit_remediation_validation_receipt L now agent id s db)
  handle now (submit_checkpoint agent id s) db =
      stored (submit_remediation_checkpoint_receipt L now agent id s db)
  handle now (submit_verification agent id s) db =
      stored (submit_recovery_verification_receipt L now agent id s db)

  unfoldable pub serve : List (ℕ × Request) → Db → Db
  serve [] db = db
  serve ((now, request) ∷ rest) db = serve rest (committed db (handle now request db))
