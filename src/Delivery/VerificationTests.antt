-- ===== src/Delivery/VerificationTests.antt =====
-- The verification receipt of the scenario's agent.
use lsa.Base.{String, true, false, ◌≡◌, refl, List, [], ◌∷◌, none, string_eq}
use lsa.Json.{end}
use lsa.Library.{aware}
use lsa.Schema.Database.{Db}
use lsa.Delivery.Control.{Response}
use lsa.Delivery.VerificationReceipt.{VerificationSubmission, submit_recovery_verification_receipt}
use lsa.Delivery.VerificationOutcome.{VerificationSubmitted, submit_verification-eq-ok}
use lsa.Scenario.{
  toy, agent, fleet, verifying_fleet, verification_receipt, returns, returned, returns-eq-ok,
}

abbrev submission : VerificationSubmission
submission = record {
  receipt = verification_receipt;
  verified_at = aware 5000;
  verification_results =
      record {
        checkpoint_id = "digest";
        source_state = "absent";
        is_blocked = false;
        encrypted_blob_digest = none;
        encrypted_size_bytes = none;
        error = none;
      }
      ∷ [];
  signature = "signature";
}

abbrev nothing : Response × Db
nothing = (record { trust = end; envelope = end; signature = "" }, fleet)

abbrev submitted : Response × Db
submitted =
    returned nothing
      (submit_recovery_verification_receipt toy 5000 agent "j3" submission verifying_fleet)

accepts_verification :
    returns (submit_recovery_verification_receipt toy 5000 agent "j3" submission verifying_fleet)
    ≡ true
unfolding submit_recovery_verification_receipt lsa.Delivery.VerificationReceipt.accept_verification
    lsa.Delivery.VerificationReceipt.check_verification_receipt string_eq
    lsa.Signing.verify_signature native.Mathlib.Decide.ℕ_discrete lsa.Json.last_by
    lsa.Receipts.validate_recovery_plan lsa.Receipts.expected_entries lsa.Json.py_eq
    lsa.Receipts.restores lsa.Delivery.Control.signed_control_response lsa.Base.option_eq
    lsa.Delivery.Control.rotation_block lsa.Signing.sign_platform_envelope
accepts_verification = refl

submit_verification-eq-ok_example :
    VerificationSubmitted toy 5000 agent "j3" submission verifying_fleet submitted.1
submit_verification-eq-ok_example =
    submit_verification-eq-ok toy 5000 agent "j3" submission verifying_fleet (
      returns-eq-ok nothing
        (submit_recovery_verification_receipt toy 5000 agent "j3" submission verifying_fleet)
        accepts_verification)
