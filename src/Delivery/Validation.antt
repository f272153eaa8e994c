-- ===== src/Delivery/Validation.antt =====
-- `next_remediation_validation` (apps/api/lsa/api/agents.py): the next validation job of an agent.
use lsa.Base.{
  ℕ, String, Bool, false, ◌&&◌, not, [], ◌∷◌, Option, none, some, leb, ◌==◌, string_eq, nat_eq,
  option_eq, Result, http, ◌>>◌, require, if◌then◌else◌,
}
use lsa.Json.{Fields, end, field, null, str, dict, get, has, as_dict, py_eq, opt_text, subset}
use lsa.Library.{Library, digest_of}
use lsa.Schema.Fleet.{LinuxAgent}
use lsa.Schema.ChangeSets.{RemediationChangeSet, is_authorized}
use lsa.Schema.Jobs.{Job, RemediationValidationJob}
use lsa.Schema.Database.{Db, get_change_set}
use lsa.Delivery.{next_job}
use lsa.Delivery.Control.{Response, touched, signed_control_response}

-- `_require_remediation_validation_agent`
abbrev pub require_validation_agent : LinuxAgent → Result (Unit {0})
require_validation_agent agent =
    require
      (subset
        ("signed-platform-control-v1" ∷ "remediation-contract-validation-v1"
          ∷ "remediation-dry-run-v1" ∷ [])
        agent.capabilities)
      (http 409 "Agent has not attested the signed remediation dry-run capabilities")

-- A change set that is authorized and whose window has not passed.
abbrev pub is_open : ℕ → Option RemediationChangeSet → Bool
is_open now none = false
is_open now (some cs) = is_authorized cs.status && not (leb cs.maintenance_window_end now)

abbrev endorsed_by : Option String → Option Fields → Bool
endorsed_by key_id none = false
endorsed_by key_id (some endorsement) =
    py_eq (get "platform_command_key_id" endorsement) (opt_text key_id)

-- `job.contract.get("platform_endorsement", {})`, if it is a dict.
abbrev endorsement_in : Fields → Option Fields
endorsement_in contract =
    if has "platform_endorsement" contract
    then as_dict (get "platform_endorsement" contract)
    else some end

abbrev pub validation_of : RemediationValidationJob → Job
validation_of row = row.job

abbrev pub with_validation : RemediationValidationJob → Job → RemediationValidationJob
with_validation row job = record { job = job }

module _ (L : Library) where
  -- The job may still be delivered.
  abbrev pub is_deliverable : Db → ℕ → LinuxAgent → RemediationValidationJob → Bool
  is_deliverable db now agent row =
      is_open now (get_change_set db row.job.change_set_id)
      && digest_of L (dict row.job.contract) == row.job.contract_digest
      && endorsed_by agent.platform_command_key_id (endorsement_in row.job.contract)

  abbrev validation_payload : Option RemediationValidationJob → Fields
  validation_payload none = field "validation" null end
  validation_payload (some row) =
      field "validation"
        (dict (
          field "validation_id" (str row.job.id) (
            field "change_set_id" (str row.job.change_set_id) (
              field "contract_digest" (str row.job.contract_digest)
                (field "contract" (dict row.job.contract) end)))))
        end

  unfoldable pub next_remediation_validation : ℕ → LinuxAgent → Db → Result (Response × Db)
  next_remediation_validation now agent db = do
    require_validation_agent agent
    let (selected, rows) =
        next_job validation_of with_validation (is_deliverable db now agent) now
          "Validation contract is no longer eligible for delivery" agent.id agent.tenant_id
          db.validation_jobs
    signed_control_response L now agent "remediation-validation" (validation_payload selected)
        (touched now agent (record db { validation_jobs = rows }))
