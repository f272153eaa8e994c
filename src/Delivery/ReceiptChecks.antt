-- ===== src/Delivery/ReceiptChecks.antt =====
-- The checks that a validation receipt has passed.
use lsa.Base.{
  all-All, ◌||◌, not, any, All, [], ◌∷◌, none, map, Distinct, refl, and_left, and_right,
  or_raise-eq-ok, ℕ, Bool, true, false, ◌≡◌, List, Option, some, ok, after, after_check, require,
  require-eq-ok, raise_if, or_raise, arith, contains, all, string_eq, nat_eq, option_eq, ◌==◌, ◌&&◌,
}
use lsa.Json.{
  Json, null, bool, int, str, list, last_by, is_null, Fields, dict, get, text_is, as_dict, is_false,
}
use lsa.Library.{Library, digest_of}
use lsa.Schema.Fleet.{LinuxAgent}
use lsa.Schema.Jobs.{Job, delivered, is_delivered}
use lsa.Schema.Database.{Db, get_change_set}
use lsa.Signing.{verify_signature}
use lsa.Delivery.Answers.{InTime, NamesJob, timely-InTime, equal_lem, raised_lem, any-contains}
use lsa.Delivery.Receipt.{
  ActionResult, Submission, is_bound, is_timely, is_conclusive, is_expected, moment_of,
  check_receipt, check_recovery_plan, check_verdict, dicts_in, repeats,
}

-- What a ready verdict rests on: each action of the contract has a result, every result is ready and of an
-- action with its digest, there is no error, and an agent that plans recoveries has sent a ready plan.
pub record Conclusive (contract receipt : Fields) (capable : Bool) (results : List ActionResult)
    : Type 0 where
  pub received :
      All
        (λ action.
          any (λ (r : ActionResult). text_is r.plan_id (get "plan_id" action)) results ≡ true)
        (dicts_in (get "actions" contract))
  pub all_ready : All (λ (r : ActionResult). r.is_ready ≡ true) results
  pub no_error : is_null (get "error" receipt) ≡ true
  pub recoverable :
      capable ≡ true
      → (plan : Fields) × (get "recovery_plan" receipt ≡ dict plan)
        × (text_is "ready" (get "status" plan) ≡ true)

-- A result is of an action of the contract, with its digest.
abbrev pub IsOfAction : List Fields → ActionResult → Type 0
IsOfAction actions r =
    (action : Fields) × (last_by "plan_id" r.plan_id actions ≡ some action)
    × (text_is r.action_digest (get "action_digest" action) ≡ true)

-- The checks that a receipt has passed.
pub record Checked (L : Library) (db : Db) (now : ℕ) (agent : LinuxAgent) (job : Job)
    (s : Submission) : Type 0 where
  pub awaited : job.status ≡ delivered
  pub for_this_job : text_is job.id (get "validation_id" s.receipt) ≡ true
  pub names_job : NamesJob L job s.receipt
  pub nothing_enabled : is_false (get "execution_enabled" s.receipt) ≡ true
  pub nothing_applied : is_false (get "changes_applied" s.receipt) ≡ true
  pub signed : verify_signature L agent.public_key s.receipt s.signature ≡ true
  pub timely : InTime db now job s.evaluated_at
  pub once : Distinct (map (λ (r : ActionResult). r.plan_id) s.action_results)
  pub of_actions : All (IsOfAction (dicts_in (get "actions" job.contract))) s.action_results
  pub complete_if_ready :
      text_is "ready" (get "status" s.receipt) ≡ true
      → Conclusive job.contract s.receipt
          (contains agent.capabilities "remediation-recovery-planning-v1")
          s.action_results

nine :
    (a b c d e f g h i : Bool)
    → (a && b && c && d && e && f && g && h && i) ≡ true
    → (a ≡ true)
      × (b ≡ true)
      × (c ≡ true)
      × (d ≡ true)
      × (e ≡ true)
      × (f ≡ true)
      × (g ≡ true)
      × (h ≡ true)
      × (i ≡ true)
nine a b c d e f g h i all_hold = (
  ground arith,
  ground arith,
  ground arith,
  ground arith,
  ground arith,
  ground arith,
  ground arith,
  ground arith,
  ground arith,
)

repeats-Distinct :
    (rs : List ActionResult)
    → repeats rs ≡ false
    → Distinct (map (λ (r : ActionResult). r.plan_id) rs)
repeats-Distinct [] h = tt
repeats-Distinct (r ∷ rs) h = (
  any-contains (λ (q : ActionResult). q.plan_id) r.plan_id rs (ground arith),
  repeats-Distinct rs (ground arith),
)

of_action_lem :
    (actions : List Fields) (rs : List ActionResult)
    → all (is_expected actions) rs ≡ true
    → All (IsOfAction actions) rs
of_action_lem actions [] h = tt
of_action_lem actions (r ∷ rs) h = (
  here (last_by "plan_id" r.plan_id actions) (and_left (is_expected actions r) _ h),
  of_action_lem actions rs (and_right (is_expected actions r) _ h),
)
  where
    here :
        (o : Option Fields)
        → (elim o [
          | none ↦ false
          | some action ↦ text_is r.action_digest (get "action_digest" action)
        ])
          ≡ true
        → (action : Fields) × (o ≡ some action)
          × (text_is r.action_digest (get "action_digest" action) ≡ true)
    here none h = cc
    here (some action) h = (action, refl, h)

-- The five tests of a ready verdict.
four_lem :
    (a b c d e : Bool)
    → ((a && b) && c && d && e) ≡ true
    → (a ≡ true) × (c ≡ true) × (d ≡ true) × (e ≡ true)
four_lem a b c d e h = (ground arith, ground arith, ground arith, ground arith)

plan_lem :
    (v : Json) (b : Bool)
    → (not b || (elim (as_dict v) [ none ↦ false | some p ↦ text_is "ready" (get "status" p) ]))
      ≡ true
    → b ≡ true
    → (plan : Fields) × (v ≡ dict plan) × (text_is "ready" (get "status" plan) ≡ true)
plan_lem (dict fs) b h k = (fs, refl, ground arith)
plan_lem null b h k = ground arith
plan_lem (bool a) b h k = ground arith
plan_lem (int n) b h k = ground arith
plan_lem (str s) b h k = ground arith
plan_lem (list xs) b h k = ground arith

is_conclusive-Conclusive :
    (contract receipt : Fields) (capable : Bool) (results : List ActionResult)
    → is_conclusive receipt capable results
        (dicts_in (get "actions" contract))
        (as_dict (get "recovery_plan" receipt))
      ≡ true
    → Conclusive contract receipt capable results
is_conclusive-Conclusive contract receipt capable results h =
    let (received, all_ready, no_error, plan) =
      four_lem
        (all
          (λ action. any (λ (r : ActionResult). text_is r.plan_id (get "plan_id" action)) results)
          (dicts_in (get "actions" contract)))
        _ (all (λ (r : ActionResult). r.is_ready) results) (is_null (get "error" receipt)) _ h in
    record {
      received = all-All _ _ received;
      all_ready = all-All (λ (r : ActionResult). r.is_ready) results all_ready;
      no_error = no_error;
      recoverable = plan_lem (get "recovery_plan" receipt) capable plan;
    }

verdict_complete :
    (L : Library) (s : Submission) (capable : Bool) (actions : List Fields) (plan : Option Fields)
    → check_verdict L s capable actions plan ≡ ok tt
    → text_is "ready" (get "status" s.receipt) ≡ true
    → is_conclusive s.receipt capable s.action_results actions plan ≡ true
verdict_complete L s capable actions plan e is_ready =
    require-eq-ok (is_conclusive s.receipt capable s.action_results actions plan) _
      (rw is_ready at e)

pub check_receipt-eq-ok :
    (L : Library) (db : Db) (now : ℕ) (agent : LinuxAgent) (job : Job) (s : Submission)
    → check_receipt L db now agent job s ≡ ok tt
    → Checked L db now agent job s
unfolding check_receipt
check_receipt-eq-ok L db now agent job s e =
    after_check (require (is_delivered job.status) _) _ e λ awaited e.
      after_check (require (is_bound L agent job s) _) _ e λ bound e.
        after (or_raise (moment_of s.evaluated_at) _) _ e λ time evaluated e.
          after_check
            (require (is_timely now time job.delivered_at (get_change_set db job.change_set_id)) _)
            _ e
            λ timely e. after_check (raise_if (repeats s.action_results) _) _ e λ once e.
              after_check
                (require
                  (all (is_expected (dicts_in (get "actions" job.contract))) s.action_results) _)
                _ e
                λ expected e.
                  after_check
                    (check_recovery_plan L job.contract s.receipt
                      (contains agent.capabilities "remediation-recovery-planning-v1")
                      (as_dict (get "recovery_plan" s.receipt)))
                    _ e
                    λ recoverable e.
                      let (same, id, set, digest, of_agent, host, disabled, unchanged, signed) =
                        nine (digest_of L (dict job.contract) == job.contract_digest) _ _ _ _ _ _ _
                          _ (require-eq-ok (is_bound L agent job s) _ bound) in
                      record {
                        awaited = ground arith;
                        for_this_job = id;
                        names_job = record {
                          same_contract = equal_lem _ _ same;
                          of_set = set;
                          of_contract = digest;
                          of_agent = of_agent;
                          of_host = host;
                        };
                        nothing_enabled = disabled;
                        nothing_applied = unchanged;
                        signed = signed;
                        timely =
                            timely-InTime db now job s.evaluated_at (or_raise-eq-ok _ _ evaluated)
                              (require-eq-ok _ _ timely);
                        once = repeats-Distinct s.action_results (raised_lem _ _ once);
                        of_actions =
                            of_action_lem (dicts_in (get "actions" job.contract)) s.action_results
                              (require-eq-ok _ _ expected);
                        complete_if_ready = λ is_ready.
                            is_conclusive-Conclusive job.contract s.receipt _ s.action_results
                              (verdict_complete L s _ _ _ e is_ready);
                      }
