-- ===== src/Delivery/UnderWay.antt =====
-- At most one validation job of a change set and an agent is under way: the table of the jobs, and the two
-- handlers of change sets that write it.
use lsa.Base.{
  ℕ, ◌≤◌, String, Bool, true, false, ◌≡◌, refl, List, [], ◌∷◌, ◌++◌, Option, none, some, any,
  select, update, length, string_eq, nat_eq, option_eq, contains, ok, after, after_check, require,
  raise_if, arith, Bool-cases, inl, inr, length-select-update, length-select-append,
  length-select-none, order_by,
}
use lsa.Json.{dict}
use lsa.Library.{Library, digest_of}
use lsa.Schema.Fleet.{User}
use lsa.Schema.ChangeSets.{is_canceled}
use lsa.Schema.Jobs.{RemediationValidationJob}
use lsa.Schema.Database.{Db}
use lsa.Plans.{require_admin}
use lsa.ChangeSets.Decisions.{change_set_of, cancel_change_set, is_ended, end_validation}
use lsa.ChangeSets.Jobs.{is_under_way, queued_job, queue_validation_job}
use lsa.ChangeSets.Contracts.{validation_contract_for_agent}
use lsa.Delivery.{
  next_job, expired_job, delivered_job, is_waiting, expire_all, deliver, pick, modify, has_id,
}
use lsa.Delivery.Validation.{validation_of, with_validation}

abbrev pub OneUnderWay : Db → Type 0
OneUnderWay db =
    (change_set_id agent_id : String)
    → length (select (is_under_way change_set_id agent_id) db.validation_jobs) ≤ 1

-- The jobs of a table, after a job was added where none was under way.
same_query :
    (s a : String) (row : RemediationValidationJob) (rows : List RemediationValidationJob)
    → is_under_way s a row ≡ true
    → any (is_under_way row.job.change_set_id row.job.agent_id) rows ≡ false
    → any (is_under_way s a) rows ≡ false
same_query s a row rows same free =
    let set_eq : row.job.change_set_id ≡ s = ground arith in
    let agent_eq : row.job.agent_id ≡ a = ground arith in rw (← set_eq) (rw (← agent_eq) free)

append-OneUnderWay :
    (rows rows' : List RemediationValidationJob) (row : RemediationValidationJob) (s a : String)
    → rows' ≡ rows ++ (row ∷ [])
    → any (is_under_way row.job.change_set_id row.job.agent_id) rows ≡ false
    → length (select (is_under_way s a) rows) ≤ 1
    → length (select (is_under_way s a) rows') ≤ 1
append-OneUnderWay rows rows' row s a e free h = rw e (
    rw (length-select-append (is_under_way s a) rows row)
      (elim (Bool-cases (is_under_way s a row)) [
        | inr other ↦ rw other (omega (arith, h))
        | inl same ↦ rw same (
            omega (
              arith,
              length-select-none (is_under_way s a) rows (same_query s a row rows same free),
            ))
      ]))

pub queue-OneUnderWay :
    (L : Library) (id : String) (now : ℕ) (user : User) (set_id agent_id : String) (db db' : Db)
    → queue_validation_job L id now user set_id agent_id db ≡ ok db'
    → OneUnderWay db
    → OneUnderWay db'
unfolding queue_validation_job
queue-OneUnderWay L id now user set_id agent_id db db' e h s a =
    after_check (require_admin user) _ e λ admin e.
      after (change_set_of db user set_id) _ e λ cs found e.
        after (validation_contract_for_agent L db cs user.tenant_id agent_id) _ e λ built made e.
          after_check (require (contains built.1.capabilities "remediation-dry-run-v1") _) _ e
            λ dry e. elim (Bool-cases (any (is_under_way cs.id built.1.id) db.validation_jobs)) [
              | inl busy ↦
                  let same : db'.validation_jobs ≡ db.validation_jobs = ground arith in
                  rw same (h s a)
              | inr free ↦
                  append-OneUnderWay db.validation_jobs db'.validation_jobs
                    (record {
                      job =
                          queued_job id user.tenant_id cs.id built.1.host_id built.1.id built.0
                            (digest_of L (dict built.0)) user now;
                    })
                    s a (ground arith) free (h s a)
            ]

fewer :
    (p q : RemediationValidationJob → Bool)
    (f : RemediationValidationJob → RemediationValidationJob)
    (rows rows' : List RemediationValidationJob)
    → rows' ≡ update q f rows
    → ((x : RemediationValidationJob) → p (f x) ≡ true → p x ≡ true)
    → length (select p rows') ≤ length (select p rows)
fewer p q f rows rows' e keep = rw e (length-select-update p q f rows (λ x hit again. keep x again))

pub cancel-OneUnderWay :
    (L : Library) (now : ℕ) (user : User) (id reason : String) (db db' : Db)
    → cancel_change_set L now user id reason db ≡ ok db'
    → OneUnderWay db
    → OneUnderWay db'
unfolding cancel_change_set
cancel-OneUnderWay L now user id reason db db' e h s a =
    after_check (require_admin user) _ e λ admin e.
      after (change_set_of db user id) _ e λ cs found e.
        after_check (raise_if (is_canceled cs.status) _) _ e λ open_set e.
          let less : length (select (is_under_way s a) db'.validation_jobs)
              ≤ length (select (is_under_way s a) db.validation_jobs) =
            fewer (is_under_way s a) (λ j. is_ended cs.id j.job) (end_validation now)
              db.validation_jobs db'.validation_jobs (ground arith) (λ j again. ground arith) in
          omega (arith, less, h s a)

-- A handler that leaves the validation jobs alone.
pub unchanged-OneUnderWay :
    (db db' : Db) → db'.validation_jobs ≡ db.validation_jobs → OneUnderWay db → OneUnderWay db'
unchanged-OneUnderWay db db' same h s a = rw same (h s a)

pub fewer-OneUnderWay :
    (db db' : Db)
    → ((s a : String)
        → length (select (is_under_way s a) db'.validation_jobs)
          ≤ length (select (is_under_way s a) db.validation_jobs))
    → OneUnderWay db
    → OneUnderWay db'
fewer-OneUnderWay db db' less h s a = omega (arith, less s a, h s a)

module _ (is_eligible : RemediationValidationJob → Bool) where
  deliver-fewer :
      (now : ℕ) (row : Option RemediationValidationJob) (rows : List RemediationValidationJob)
      (s a : String)
      → length (
          select
            (is_under_way s a)
            (deliver validation_of with_validation is_eligible now row rows))
        ≤ length (select (is_under_way s a) rows)
  deliver-fewer now none rows s a = omega arith
  deliver-fewer now (some row) rows s a =
      fewer (is_under_way s a) (has_id validation_of with_validation is_eligible row.job.id)
        (modify validation_of with_validation is_eligible (delivered_job now)) rows _ refl
        (λ j again. ground arith)

  expire_all-fewer :
      (now : ℕ) (error : String) (ids : List String) (rows : List RemediationValidationJob)
      (s a : String)
      → length (
          select
            (is_under_way s a)
            (expire_all validation_of with_validation is_eligible now error ids rows))
        ≤ length (select (is_under_way s a) rows)
  expire_all-fewer now error ids rows s a =
      fewer (is_under_way s a) (λ row. contains ids row.job.id)
        (modify validation_of with_validation is_eligible (expired_job now error)) rows _ refl
        (λ j again. ground arith)

  -- A poll starts no job.
  pub next_job-fewer :
      (now : ℕ) (error agent_id tenant_id : String) (rows : List RemediationValidationJob)
      (s a : String)
      → length (
          select
            (is_under_way s a)
            (next_job validation_of with_validation is_eligible now error agent_id tenant_id
              rows).1)
        ≤ length (select (is_under_way s a) rows)
  unfolding next_job
  next_job-fewer now error agent_id tenant_id rows s a =
      let picked = pick validation_of with_validation is_eligible (
        order_by (λ (row : RemediationValidationJob). row.job.requested_at)
          (select (λ (row : RemediationValidationJob). is_waiting agent_id tenant_id row.job)
            rows)) in
      omega (
        arith,
        deliver-fewer now picked.1
            (expire_all validation_of with_validation is_eligible now error picked.0 rows) s a,
        expire_all-fewer now error picked.0 rows s a,
      )
