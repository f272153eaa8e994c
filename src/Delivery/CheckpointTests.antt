-- ===== src/Delivery/CheckpointTests.antt =====
-- The checkpoint receipt of the scenario's agent.
use lsa.Base.{String, true, false, ◌≡◌, refl, List, [], ◌∷◌, none, string_eq}
use lsa.Json.{end}
use lsa.Library.{aware}
use lsa.Schema.Database.{Db}
use lsa.Delivery.Control.{Response}
use lsa.Delivery.CheckpointReceipt.{CheckpointSubmission, submit_remediation_checkpoint_receipt}
use lsa.Delivery.CheckpointOutcome.{CheckpointSubmitted, submit_checkpoint-eq-ok}
use lsa.Scenario.{
  toy, agent, fleet, preparing_fleet, checkpoint_receipt, returns, returned, returns-eq-ok,
}

abbrev submission : CheckpointSubmission
submission = record {
  receipt = checkpoint_receipt;
  prepared_at = aware 5000;
  checkpoint_results =
      record {
        checkpoint_id = "digest";
        source_state = "absent";
        is_blocked = false;
        backup_created = false;
        encrypted_blob_digest = none;
        encrypted_size_bytes = none;
        error = none;
        document = end;
      }
      ∷ [];
  signature = "signature";
}

abbrev nothing : Response × Db
nothing = (record { trust = end; envelope = end; signature = "" }, fleet)

abbrev submitted : Response × Db
submitted =
    returned nothing
      (submit_remediation_checkpoint_receipt toy 5000 agent "j2" submission preparing_fleet)

accepts_checkpoint :
    returns (submit_remediation_checkpoint_receipt toy 5000 agent "j2" submission preparing_fleet)
    ≡ true
unfolding submit_remediation_checkpoint_receipt lsa.Delivery.CheckpointReceipt.accept_checkpoint
    lsa.Delivery.CheckpointReceipt.check_checkpoint_receipt string_eq lsa.Signing.verify_signature
    native.Mathlib.Decide.ℕ_discrete lsa.Json.last_by lsa.Receipts.validate_recovery_plan
    lsa.Receipts.expected_entries lsa.Json.py_eq lsa.Receipts.restores
    lsa.Delivery.Control.signed_control_response lsa.Base.option_eq
    lsa.Delivery.Control.rotation_block lsa.Signing.sign_platform_envelope
accepts_checkpoint = refl

submit_checkpoint-eq-ok_example :
    CheckpointSubmitted toy 5000 agent "j2" submission preparing_fleet submitted.1
submit_checkpoint-eq-ok_example =
    submit_checkpoint-eq-ok toy 5000 agent "j2" submission preparing_fleet (
      returns-eq-ok nothing
        (submit_remediation_checkpoint_receipt toy 5000 agent "j2" submission preparing_fleet)
        accepts_checkpoint)
