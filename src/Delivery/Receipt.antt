-- ===== src/Delivery/Receipt.antt =====
-- The answer to a validation job (apps/api/lsa/api/agents.py): the checks of
-- `submit_remediation_validation_receipt`, and the handler.
use lsa.Base.{
  ℕ, ◌+◌, String, Bool, true, false, ◌&&◌, ◌||◌, not, List, [], ◌∷◌, Option, none, some, leb, ◌==◌,
  string_eq, nat_eq, option_eq, contains, all, any, find, update_first, Result, http, ◌>>=◌, ◌>>◌,
  raise_if, require, or_raise, if◌then◌else◌, length, pos,
}
use lsa.Json.{
  Json, Fields, Items, nil, cons, end, field, str, int, bool, list, dict, get, is_false, is_null,
  truthy, text_is, as_dict, as_list, as_text, py_eq, last_by,
}
use lsa.Library.{Library, Moment, naive, aware, minutes, digest_of}
use lsa.Schema.Fleet.{LinuxAgent}
use lsa.Schema.ChangeSets.{RemediationChangeSet}
use lsa.Schema.Jobs.{
  Job, JobStatus, ready, blocked, is_delivered, has_receipt, RemediationValidationJob,
}
use lsa.Schema.Database.{Db, AuditEvent, add_event, get_change_set}
use lsa.Signing.{verify_signature}
use lsa.Receipts.{validate_recovery_plan}
use lsa.Delivery.Control.{Response, touched, signed_control_response}
use lsa.Delivery.Validation.{require_validation_agent}

-- `RemediationValidationActionResult`, without the single checks.
pub record ActionResult : Type 0 where
  pub plan_id : String
  pub action_digest : String
  pub is_ready : Bool

-- `RemediationValidationReceiptSubmission`: the receipt as the document that was signed, and the
-- fields that Pydantic has typed.
pub record Submission : Type 0 where
  pub receipt : Fields
  pub evaluated_at : Moment
  pub action_results : List ActionResult
  pub signature : String

-- The literal status of a receipt.
abbrev pub receipt_status : Fields → JobStatus
receipt_status receipt = if text_is "ready" (get "status" receipt) then ready else blocked

-- The dicts among the actions of the contract.
abbrev pub dicts_in : Json → List Fields
dicts_in (list xs) = dicts_among xs
  where
    dicts_among : Items → List Fields
    dicts_among nil = []
    dicts_among (cons (dict fs) rest) = fs ∷ dicts_among rest
    dicts_among (cons x rest) = dicts_among rest
dicts_in _ = []

abbrev is_received : List ActionResult → Fields → Bool
is_received results action =
    any (λ (r : ActionResult). text_is r.plan_id (get "plan_id" action)) results

abbrev pub is_expected : List Fields → ActionResult → Bool
is_expected actions r = elim (last_by "plan_id" r.plan_id actions) [
  | none ↦ false
  | some action ↦ text_is r.action_digest (get "action_digest" action)
]

abbrev pub repeats : List ActionResult → Bool
repeats [] = false
repeats (r ∷ rs) = any (λ (q : ActionResult). q.plan_id == r.plan_id) rs || repeats rs

-- The bindings of a receipt to its job.
abbrev pub is_bound : Library → LinuxAgent → Job → Submission → Bool
is_bound L agent job s =
    digest_of L (dict job.contract) == job.contract_digest
    && text_is job.id (get "validation_id" s.receipt)
    && text_is job.change_set_id (get "change_set_id" s.receipt)
    && text_is job.contract_digest (get "contract_digest" s.receipt)
    && text_is job.agent_id (get "agent_id" s.receipt)
    && text_is job.host_id (get "host_id" s.receipt)
    && is_false (get "execution_enabled" s.receipt)
    && is_false (get "changes_applied" s.receipt)
    && verify_signature L agent.public_key s.receipt s.signature

-- The receipt's time against the delivery, the clock and the window.
abbrev pub is_timely : ℕ → ℕ → Option ℕ → Option RemediationChangeSet → Bool
is_timely now t none change_set = false
is_timely now t (some delivered_at) none = false
is_timely now t (some delivered_at) (some cs) =
    leb delivered_at (t + minutes 5) && leb t (now + minutes 5) && leb t cs.maintenance_window_end

-- `{item.plan_id: …} == expected` as sets of plans.
abbrev is_complete : List ActionResult → List Fields → Bool
is_complete results actions = all (is_received results) actions && all (is_expected actions) results

-- `Ready receipt has incomplete action results`, the other way round.
abbrev pub is_conclusive : Fields → Bool → List ActionResult → List Fields → Option Fields → Bool
is_conclusive receipt capable results actions plan =
    is_complete results actions
    && all (λ (r : ActionResult). r.is_ready) results
    && is_null (get "error" receipt)
    && (not capable || has_ready_plan plan)
  where
    has_ready_plan : Option Fields → Bool
    has_ready_plan none = false
    has_ready_plan (some p) = text_is "ready" (get "status" p)

abbrev pub accepted_job : ℕ → Submission → Job → Job
accepted_job now s job = record job {
  status = receipt_status s.receipt;
  receipt = some s.receipt;
  receipt_signature = some s.signature;
  error = as_text (get "error" s.receipt);
  completed_at = some now;
}

abbrev pub moment_of : Moment → Option ℕ
moment_of (naive t) = none
moment_of (aware t) = some t

abbrev pub is_job_of : LinuxAgent → String → RemediationValidationJob → Bool
is_job_of agent id row =
    row.job.id == id && row.job.agent_id == agent.id && row.job.tenant_id == agent.tenant_id

abbrev pub is_same_receipt : Job → Submission → Bool
is_same_receipt job s = holds_receipt job.receipt && job.receipt_signature == some s.signature
  where
    holds_receipt : Option Fields → Bool
    holds_receipt none = false
    holds_receipt (some old) = py_eq (dict old) (dict s.receipt)

module _ (L : Library) where
  -- What is said of the recovery plan, if there is one.
  abbrev pub check_recovery_plan : Fields → Fields → Bool → Option Fields → Result (Unit {0})
  check_recovery_plan contract receipt capable none =
      raise_if
        (capable && not (text_is "blocked" (get "status" receipt) && truthy (get "error" receipt)))
        (http 409 "Recovery-capable receipt omitted its plan")
  check_recovery_plan contract receipt capable (some plan) = do
    require (validate_recovery_plan L contract plan) (http 409 "Recovery plan binding is invalid")
    raise_if
        (text_is "blocked" (get "status" plan) && not (text_is "blocked" (get "status" receipt)))
        (http 409 "Blocked recovery plan requires a blocked receipt")

  abbrev pub check_verdict : Submission → Bool → List Fields → Option Fields → Result (Unit {0})
  check_verdict s capable actions plan =
      if text_is "ready" (get "status" s.receipt)
      then require (is_conclusive s.receipt capable s.action_results actions plan)
          (http 409 "Ready receipt has incomplete action results")
      else raise_if
          (not (is_complete s.action_results actions) && not (truthy (get "error" s.receipt)))
          (http 409 "Blocked receipt must explain incomplete results")

  -- The checks on a receipt for a job that awaits one.
  unfoldable pub check_receipt : Db → ℕ → LinuxAgent → Job → Submission → Result (Unit {0})
  check_receipt db now agent job s = do
    require (is_delivered job.status) (http 409 "Validation job is not awaiting a receipt")
    require (is_bound L agent job s) (http 409 "Validation receipt trust binding is invalid")
    t ←
        or_raise (moment_of s.evaluated_at)
          (http 409 "Validation receipt time must include a timezone")
    require (is_timely now t job.delivered_at (get_change_set db job.change_set_id))
        (http 409 "Validation receipt time is outside its contract")
    let actions = dicts_in (get "actions" job.contract)
    raise_if (repeats s.action_results) (http 409 "Validation receipt repeats an action result")
    require (all (is_expected actions) s.action_results)
        (http 409 "Validation receipt action binding is invalid")
    let plan = as_dict (get "recovery_plan" s.receipt)
    let capable = contains agent.capabilities "remediation-recovery-planning-v1"
    check_recovery_plan job.contract s.receipt capable plan
    check_verdict s capable actions plan

  abbrev receipt_event : LinuxAgent → Job → Submission → AuditEvent
  receipt_event agent job s = record {
    tenant_id = job.tenant_id;
    actor_type = "agent";
    actor_id = some agent.id;
    action =
        if text_is "ready" (get "status" s.receipt)
        then "remediation_validation.ready"
        else "remediation_validation.blocked";
    target_type = "remediation_validation_job";
    target_id = job.id;
    details = field "change_set_id" (str job.change_set_id) (
        field "contract_digest" (str job.contract_digest) (
          field "recovery_status" (recovery_status (as_dict (get "recovery_plan" s.receipt))) (
            field "recovery_checkpoints"
              (recovery_checkpoints (as_dict (get "recovery_plan" s.receipt)))
              (field "changes_applied" (bool false) end))));
  }
    where
      recovery_status : Option Fields → Json
      recovery_status none = str "not_reported"
      recovery_status (some plan) = get "status" plan

      entry_count : Option (List Json) → Json
      entry_count none = int (pos 0)
      entry_count (some entries) = int (pos (length entries))

      recovery_checkpoints : Option Fields → Json
      recovery_checkpoints none = int (pos 0)
      recovery_checkpoints (some plan) = entry_count (as_list (get "entries" plan))

  abbrev receipt_payload : Job → Json → Fields
  receipt_payload job status =
      field "validation_id" (str job.id) (field "status" status (field "accepted" (bool true) end))

  abbrev pub status_text : JobStatus → Json
  status_text ready = str "ready"
  status_text _ = str "blocked"

  -- A receipt for a job that has one: the same receipt is answered again.
  unfoldable pub answer_again : ℕ → LinuxAgent → Job → Submission → Db → Result (Response × Db)
  answer_again now agent job s db = do
    require (is_same_receipt job s) (http 409 "Validation job already has another receipt")
    signed_control_response L now agent "remediation-validation-receipt"
        (receipt_payload job (status_text job.status)) db

  unfoldable pub accept_receipt :
      ℕ → LinuxAgent → String → Job → Submission → Db → Result (Response × Db)
  accept_receipt now agent id job s db = do
    check_receipt db now agent job s
    signed_control_response L now agent "remediation-validation-receipt"
        (receipt_payload job (get "status" s.receipt))
        (add_event (receipt_event agent job s) (
          touched now agent (record db {
            validation_jobs =
                update_first (is_job_of agent id) (λ r. record { job = accepted_job now s r.job })
                  db.validation_jobs;
          })))

  unfoldable pub submit_remediation_validation_receipt :
      ℕ → LinuxAgent → String → Submission → Db → Result (Response × Db)
  submit_remediation_validation_receipt now agent id s db = do
    require_validation_agent agent
    row ←
        or_raise (find (is_job_of agent id) db.validation_jobs)
          (http 404 "Remediation validation job not found")
    if has_receipt row.job.status
        then answer_again now agent row.job s db
        else accept_receipt now agent id row.job s db
