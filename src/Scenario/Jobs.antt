-- ===== src/Scenario/Jobs.antt =====
-- The databases in which the change set is authorized and its jobs are at their stages.
use lsa.Base.{true, false, [], ◌∷◌, Option, none, some, string_eq, pos}
use lsa.Json.{Fields, nil, cons, end, field, null, bool, int, str, list, dict}
use lsa.Schema.ChangeSets.{RemediationChangeSet, authorized}
use lsa.Schema.Jobs.{JobStatus, queued, delivered, ready, RemediationValidationJob}
use lsa.Schema.Database.{Db}
use lsa.Scenario.Envelope.{change_set, fleet}

-- A contract with one operation that is backed up, and the plan to restore it.
abbrev pub contract : Fields
contract =
    field "actions"
      (list (
        cons
          (dict (
            field "plan_id" (str "pl1") (
              field "action_digest" (str "digest") (
                field "action_snapshot"
                  (dict (
                    field "operations"
                      (list (
                        cons
                          (dict
                            (field "backup_required" (bool true) (field "path" (str "/etc/a") end)))
                          nil))
                      (field "rollback"
                        (list (
                          cons
                            (dict (
                              field "kind" (str "restore_backup")
                                (field "path" (str "/etc/a") end)))
                            nil))
                        end)))
                  end))))
          nil))
      end

abbrev pub recovery_plan : Fields
recovery_plan =
    field "entries"
      (list (
        cons
          (dict (
            field "checkpoint_id" (str "digest") (
              field "plan_id" (str "pl1") (
                field "action_digest" (str "digest") (
                  field "operation_index" (int (pos 0)) (
                    field "path" (str "/etc/a") (
                      field "rollback_index" (int (pos 0)) (
                        field "source_state" (str "absent") (
                          field "status" (str "ready")
                            (field "backup_created" (bool false) end))))))))))
          nil))
      (field "rollback_order" (list (cons (str "digest") nil)) (field "status" (str "ready") end))

abbrev pub receipt : Fields
receipt = field "validation_id" (str "j1") (
    field "change_set_id" (str "cs1") (
      field "contract_digest" (str "digest") (
        field "agent_id" (str "a1") (
          field "host_id" (str "h1") (
            field "status" (str "ready") (
              field "execution_enabled" (bool false) (
                field "changes_applied" (bool false)
                  (field "recovery_plan" (dict recovery_plan) (field "error" null end)))))))))

abbrev pub job : JobStatus → Option Fields → RemediationValidationJob
job status receipt = record {
  job = record {
    id = "j1";
    tenant_id = "t";
    change_set_id = "cs1";
    host_id = "h1";
    agent_id = "a1";
    status = status;
    contract = contract;
    contract_digest = "digest";
    requested_by = "eve";
    requested_at = 3000;
    delivered_at = some 3500;
    lease_expires_at = none;
    completed_at = none;
    receipt = receipt;
    receipt_signature = none;
    error = none;
  };
}

abbrev pub authorized_set : RemediationChangeSet
authorized_set = record change_set {
  status = authorized;
  authorized_by = some "eve";
  authorized_at = some 2001;
  signature = some "signature";
  signing_key_id = some "c1";
}

abbrev pub authorized_fleet : Db
authorized_fleet = record fleet { change_sets = authorized_set ∷ [] }

-- The authorized change set with a validation job that was delivered, and with one that is ready.
abbrev pub busy_fleet : Db
busy_fleet = record authorized_fleet { validation_jobs = job delivered none ∷ [] }

abbrev pub checked_fleet : Db
checked_fleet = record authorized_fleet { validation_jobs = job ready (some receipt) ∷ [] }

-- A checkpoint job that was delivered, and the agent's answer.
abbrev pub preparing_fleet : Db
preparing_fleet = record checked_fleet {
  checkpoint_jobs =
      record {
        job = record (job delivered none).job { id = "j2" };
        validation_job_id = "j1";
        recovery_plan = recovery_plan;
      }
      ∷ [];
}

abbrev pub checkpoint_receipt : Fields
checkpoint_receipt = field "checkpoint_job_id" (str "j2") (
    field "validation_id" (str "j1") (
      field "change_set_id" (str "cs1") (
        field "contract_digest" (str "digest") (
          field "agent_id" (str "a1") (
            field "host_id" (str "h1") (
              field "status" (str "ready") (
                field "journal_state" (str "checkpointed")
                  (field "journal_digest" (str "digest") (field "error" null end)))))))))

-- A checkpoint that is ready, and a verification job that waits for the agent.
abbrev pub checkpointed_fleet : Db
checkpointed_fleet = record checked_fleet {
  checkpoint_jobs =
      record {
        job = record (job ready (some (field "journal_digest" (str "journal") end))).job {
          id = "j2";
        };
        validation_job_id = "j1";
        recovery_plan = recovery_plan;
      }
      ∷ [];
}

abbrev pub waiting_fleet : Db
waiting_fleet = record checkpointed_fleet {
  verification_jobs =
      record {
        job = record (job queued none).job { id = "j3" };
        checkpoint_job_id = "j2";
        validation_job_id = "j1";
        recovery_plan = recovery_plan;
        checkpoint_journal_digest = "journal";
      }
      ∷ [];
}

-- A verification job that was delivered, and the agent's answer.
abbrev pub verifying_fleet : Db
verifying_fleet = record checkpointed_fleet {
  verification_jobs =
      record {
        job = record (job delivered none).job { id = "j3" };
        checkpoint_job_id = "j2";
        validation_job_id = "j1";
        recovery_plan = recovery_plan;
        checkpoint_journal_digest = "journal";
      }
      ∷ [];
}

abbrev pub verification_receipt : Fields
verification_receipt = field "verification_job_id" (str "j3") (
    field "checkpoint_job_id" (str "j2") (
      field "validation_id" (str "j1") (
        field "change_set_id" (str "cs1") (
          field "contract_digest" (str "digest") (
            field "checkpoint_journal_digest" (str "journal") (
              field "agent_id" (str "a1") (
                field "host_id" (str "h1") (
                  field "status" (str "ready")
                    (field "verification_state" (str "verified") (field "error" null end))))))))))
