-- ===== src/Delivery/Tests.antt =====
-- Polls and receipts of the scenario's agent.
use lsa.Base.{
  IsSorted, ℕ, ◌+◌, ◌≤◌, String, Bool, true, false, ◌≡◌, refl, List, [], ◌∷◌, Option, none, some,
  select, length, string_eq, ◌==◌, ◌&&◌, Bool-cases, inl, inr, pos, arith, All, Result, ok, err,
}
use lsa.Json.{Fields, end, get, int}
use lsa.Library.{aware}
use lsa.Schema.Fleet.{LinuxAgent}
use lsa.Schema.Jobs.{delivered, RemediationValidationJob}
use lsa.Schema.Database.{Db, get_agent}
use lsa.ChangeSets.Jobs.{is_under_way}
use lsa.Delivery.{next_job, is_waiting, deliver, expire_all}
use lsa.Delivery.Control.{Response, signed_control_response}
use lsa.Delivery.Validation.{validation_of, with_validation, is_deliverable}
use lsa.Delivery.Receipt.{Submission, submit_remediation_validation_receipt}
use lsa.Delivery.Sequence.{answers-sequence}
use lsa.Delivery.Selection.{Poll, next_job-Picked}
use lsa.Delivery.Lifecycle.{Request, cancel, poll, poll_checkpoint, submit, serve}
use lsa.Delivery.UnderWay.{OneUnderWay}
use lsa.Delivery.Invariant.{serve-OneUnderWay}
use lsa.Delivery.Checkpoint.{next_recovery_verification}
use lsa.Delivery.Evidence.{Polled, next_recovery_verification-eq-ok}
use lsa.Delivery.Outcome.{Submitted, submit-eq-ok}
use lsa.Scenario.{
  toy, admin, agent, fleet, busy_fleet, waiting_fleet, receipt, job, returns, returned,
  returns-eq-ok,
}

abbrev submission : Submission
submission = record {
  receipt = receipt;
  evaluated_at = aware 5000;
  action_results = record { plan_id = "pl1"; action_digest = "digest"; is_ready = true } ∷ [];
  signature = "signature";
}

abbrev requests : List (ℕ × Request)
requests =
    (4000, poll agent)
    ∷ (4001, poll_checkpoint agent)
    ∷ (5000, submit agent "j1" submission)
    ∷ (6000, cancel admin "cs1" "late")
    ∷ []

busy-OneUnderWay : OneUnderWay busy_fleet
busy-OneUnderWay s a = elim (Bool-cases (is_under_way s a (job delivered none))) [
  | inl hit ↦ rw hit (omega arith)
  | inr miss ↦ rw miss (omega arith)
]

serve-OneUnderWay_example : OneUnderWay (serve toy requests busy_fleet)
serve-OneUnderWay_example = serve-OneUnderWay toy requests busy_fleet busy-OneUnderWay

abbrev nothing : Response × Db
nothing = (record { trust = end; envelope = end; signature = "" }, fleet)

abbrev first : Response × Db
first = returned nothing (signed_control_response toy 4000 agent "remediation-validation" end fleet)

first_returns :
    returns (signed_control_response toy 4000 agent "remediation-validation" end fleet) ≡ true
unfolding signed_control_response string_eq lsa.Base.option_eq lsa.Delivery.Control.rotation_block
    lsa.Signing.sign_platform_envelope native.Mathlib.Decide.ℕ_discrete
first_returns = refl

abbrev numbered_agent : LinuxAgent
numbered_agent = record agent { platform_envelope_sequence = 8 }

abbrev second : Response × Db
second =
    returned nothing
      (signed_control_response toy 4001 numbered_agent "remediation-validation" end first.1)

second_returns :
    returns (signed_control_response toy 4001 numbered_agent "remediation-validation" end first.1)
    ≡ true
unfolding signed_control_response string_eq lsa.Base.option_eq lsa.Delivery.Control.rotation_block
    lsa.Signing.sign_platform_envelope native.Mathlib.Decide.ℕ_discrete
second_returns = refl

agent_found : get_agent fleet "a1" ≡ some agent
unfolding string_eq
agent_found = refl

agent_numbered : get_agent first.1 "a1" ≡ some numbered_agent
unfolding signed_control_response string_eq lsa.Base.option_eq lsa.Delivery.Control.rotation_block
    lsa.Signing.sign_platform_envelope native.Mathlib.Decide.ℕ_discrete
agent_numbered = refl

answers-sequence_example :
    (n : ℕ) × (get "sequence" first.0.envelope ≡ int (pos n))
    × (get "sequence" second.0.envelope ≡ int (pos (n + 1)))
answers-sequence_example =
    answers-sequence toy 4000 4001 agent numbered_agent "remediation-validation"
      "remediation-validation" end end fleet first.1 second.1 first.0 second.0 agent_found
      (returns-eq-ok nothing
        (signed_control_response toy 4000 agent "remediation-validation" end fleet) first_returns)
      agent_numbered
      (returns-eq-ok nothing
        (signed_control_response toy 4001 numbered_agent "remediation-validation" end first.1)
        second_returns)

abbrev submitted : Response × Db
submitted =
    returned nothing
      (submit_remediation_validation_receipt toy 5000 agent "j1" submission busy_fleet)

accepts_receipt :
    returns (submit_remediation_validation_receipt toy 5000 agent "j1" submission busy_fleet) ≡ true
unfolding submit_remediation_validation_receipt string_eq lsa.Delivery.Receipt.accept_receipt
    lsa.Delivery.Receipt.check_receipt lsa.Signing.verify_signature native.Mathlib.Decide.ℕ_discrete
    lsa.Json.last_by lsa.Receipts.validate_recovery_plan lsa.Receipts.expected_entries
    lsa.Json.py_eq lsa.Receipts.restores signed_control_response lsa.Base.option_eq
    lsa.Delivery.Control.rotation_block lsa.Signing.sign_platform_envelope
accepts_receipt = refl

submit-eq-ok_example : Submitted toy 5000 agent "j1" submission busy_fleet submitted.1
submit-eq-ok_example = submit-eq-ok toy 5000 agent "j1" submission busy_fleet (
    returns-eq-ok nothing
      (submit_remediation_validation_receipt toy 5000 agent "j1" submission busy_fleet)
      accepts_receipt)

abbrev is_due : RemediationValidationJob → Bool
is_due = is_deliverable toy busy_fleet 4000 agent

abbrev chosen : Option RemediationValidationJob × List RemediationValidationJob
chosen =
    next_job validation_of with_validation is_due 4000 "late" "a1" "t" busy_fleet.validation_jobs

next_job-Picked_example :
    Poll validation_of with_validation is_due 4000 "late" "a1" "t" busy_fleet.validation_jobs
      chosen.0 chosen.1
next_job-Picked_example =
    next_job-Picked validation_of with_validation is_due 4000 "late" "a1" "t"
      busy_fleet.validation_jobs

abbrev polled : Response × Db
polled = returned nothing (next_recovery_verification toy 4000 agent waiting_fleet)

poll_returns : returns (next_recovery_verification toy 4000 agent waiting_fleet) ≡ true
unfolding next_recovery_verification string_eq signed_control_response lsa.Base.option_eq
    lsa.Delivery.Control.rotation_block lsa.Signing.sign_platform_envelope
    native.Mathlib.Decide.ℕ_discrete
poll_returns = refl

next_recovery_verification-eq-ok_example : Polled toy 4000 agent waiting_fleet polled.0 polled.1
next_recovery_verification-eq-ok_example =
    next_recovery_verification-eq-ok toy 4000 agent waiting_fleet
      (returns-eq-ok nothing (next_recovery_verification toy 4000 agent waiting_fleet) poll_returns)
