-- ===== src/ChangeSets/Provenance.antt =====
-- What a queued checkpoint or verification job rests on.
use lsa.Base.{
  ℕ, String, true, false, ◌≡◌, refl, [], ◌∷◌, ◌++◌, ◌⊎◌, inl, inr, Option, none, some, any, find,
  string_eq, ok, after, after_check, require, or_raise, arith, Bool-cases,
}
use lsa.Json.{Fields, get, as_dict, text_is}
use lsa.Library.{Library}
use lsa.Schema.Fleet.{User}
use lsa.Schema.ChangeSets.{RemediationChangeSet}
use lsa.Schema.Jobs.{ready, RemediationValidationJob}
use lsa.Schema.Database.{Db, get_agent}
use lsa.Receipts.{validate_recovery_plan}
use lsa.Plans.{require_admin}
use lsa.ChangeSets.Decisions.{is_set_of, change_set_of}
use lsa.ChangeSets.Jobs.{
  is_eligible, is_checkpoint_of, attests, ready_receipt, ready_plan, checkpoint_row,
  queue_checkpoint_job, is_validation_of,
}

-- The preflight that a checkpoint job was queued for.
pub record Preflight (L : Library) (now : ℕ) (user : User) (set_id validation_id : String) (db : Db)
    : Type 0 where
  pub cs : RemediationChangeSet
  pub row : RemediationValidationJob
  pub receipt : Fields
  pub plan : Fields
  pub by_admin : user.role ≡ "admin"
  pub is_of_set : find (is_set_of user set_id) db.change_sets ≡ some cs
  pub eligible : is_eligible now cs ≡ true
  pub found : find (is_validation_of user cs validation_id) db.validation_jobs ≡ some row
  pub succeeded : row.job.status ≡ ready
  pub answered : row.job.receipt ≡ some receipt
  pub has_plan : as_dict (get "recovery_plan" receipt) ≡ some plan
  pub valid_plan : validate_recovery_plan L row.job.contract plan ≡ true
  pub ready_to_recover : text_is "ready" (get "status" plan) ≡ true
  pub attested : attests "remediation-checkpoint-v1" (get_agent db row.job.agent_id) ≡ true

ready_plan-cases :
    (L : Library) (contract : Fields) (o : Option Fields) (plan : Fields)
    → ready_plan L contract o ≡ some plan
    → (o ≡ some plan)
      × (validate_recovery_plan L contract plan ≡ true)
      × (text_is "ready" (get "status" plan) ≡ true)
ready_plan-cases L contract none plan h = cc
ready_plan-cases L contract (some p) plan h =
    let same : p ≡ plan = ground arith in rw (← same) (refl, ground arith, ground arith)

-- A request for a checkpoint that returns rests on a preflight: the change set is authorized and its window
-- has not ended, the validation job of this set and tenant is ready, its receipt has a recovery plan that is valid for
-- the contract and ready, and the agent attests checkpoints. The database then gains the job of that
-- plan, unless a checkpoint job of that validation is under way or done.
pub queue_checkpoint-eq-ok :
    (L : Library) (id : String) (now : ℕ) (user : User) (set_id validation_id : String) (db : Db)
    {db' : Db}
    → queue_checkpoint_job L id now user set_id validation_id db ≡ ok db'
    → (p : Preflight L now user set_id validation_id db) × ((any
              (is_checkpoint_of p.row.job.id)
              db.checkpoint_jobs
            ≡ true)
          × (db' ≡ db)
        ⊎ (any (is_checkpoint_of p.row.job.id) db.checkpoint_jobs ≡ false)
          × (db'.checkpoint_jobs
              ≡ db.checkpoint_jobs ++ (checkpoint_row L id now user p.cs p.row.job p.plan ∷ [])))
unfolding queue_checkpoint_job
queue_checkpoint-eq-ok L id now user set_id validation_id db {db'} e =
    after_check (require_admin user) _ e λ admin e.
      after (change_set_of db user set_id) _ e λ cs of_set e.
        after_check (require (is_eligible now cs) _) _ e λ eligible e.
          after (or_raise (find (is_validation_of user cs validation_id) db.validation_jobs) _) _ e
            λ row found e. after (or_raise (ready_receipt row.job) _) _ e λ receipt answered e.
              after
                (or_raise (ready_plan L row.job.contract (as_dict (get "recovery_plan" receipt))) _)
                _ e
                λ plan planned e.
                  after_check
                    (require (attests "remediation-checkpoint-v1" (get_agent db row.job.agent_id))
                      _)
                    _ e
                    λ attested e.
                      let holds =
                        ready_plan-cases L row.job.contract (as_dict (get "recovery_plan" receipt))
                          plan (ground arith) in
                      (
                        record {
                          cs = cs;
                          row = row;
                          receipt = receipt;
                          plan = plan;
                          by_admin = ground arith;
                          is_of_set = ground arith;
                          eligible = ground arith;
                          found = ground arith;
                          succeeded = ground arith;
                          answered = ground arith;
                          has_plan = holds.0;
                          valid_plan = holds.1;
                          ready_to_recover = holds.2;
                          attested = ground arith;
                        },
                        elim (Bool-cases (any (is_checkpoint_of row.job.id) db.checkpoint_jobs)) [
                          | inl busy ↦ inl (busy, ground arith)
                          | inr free ↦ inr (free, ground arith)
                        ],
                      )
