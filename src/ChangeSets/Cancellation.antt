-- ===== src/ChangeSets/Cancellation.antt =====
-- What the cancellation of a change set leaves behind.
use lsa.Base.{
  ℕ, String, Bool, true, false, ◌≡◌, refl, not, List, [], ◌∷◌, some, any, find, select, update,
  ◌==◌, string_eq, ok, after, after_check, raise_if, arith, Bool-cases, inl, inr,
}
use lsa.Library.{Library}
use lsa.Schema.Fleet.{User}
use lsa.Schema.ChangeSets.{RemediationChangeSet, is_canceled}
use lsa.Schema.Jobs.{
  Job, RemediationValidationJob, RemediationCheckpointJob, RemediationRecoveryVerificationJob,
}
use lsa.Schema.Database.{Db}
use lsa.Plans.{require_admin}
use lsa.ChangeSets.Decisions.{
  is_set_of, change_set_of, is_ended, end_validation, end_checkpoint, end_verification,
  cancel_change_set,
}

module _ {ℓ} {A : Type ℓ} where
  -- An assignment that takes every row that it finds out of the query.
  update-none :
      (p : A → Bool) (f : A → A) (xs : List A)
      → ((x : A) → p (f x) ≡ false)
      → any p (update p f xs) ≡ false
  update-none p f [] h = refl
  update-none p f (x ∷ xs) h = ground (arith, h x, update-none p f xs h)

  select-update :
      (p q : A → Bool) (f : A → A) (xs : List A)
      → ((x : A) → p x ≡ true → q x ≡ false)
      → ((x : A) → p x ≡ true → q (f x) ≡ false)
      → select q (update p f xs) ≡ select q xs
  select-update p q f [] h k = refl
  select-update p q f (x ∷ xs) h k = elim (Bool-cases (p x)) [
    | inl hit ↦ rw hit (rw (h x hit) (rw (k x hit) (select-update p q f xs h k)))
    | inr miss ↦ rw miss (rw (select-update p q f xs h k))
  ]

  updated-none :
      (p : A → Bool) (f : A → A) (xs ys : List A)
      → ys ≡ update p f xs
      → ((x : A) → p (f x) ≡ false)
      → any p ys ≡ false
  updated-none p f xs ys e h = rw e (update-none p f xs h)

  updated-select :
      (p q : A → Bool) (f : A → A) (xs ys : List A)
      → ys ≡ update p f xs
      → ((x : A) → p x ≡ true → q x ≡ false)
      → ((x : A) → p x ≡ true → q (f x) ≡ false)
      → select q ys ≡ select q xs
  updated-select p q f xs ys e h k = rw e (select-update p q f xs h k)

-- A job of another change set, or one that has ended.
abbrev pub is_other : String → Job → Bool
is_other id job = not (job.change_set_id == id)

-- No job of the change set is under way any more, and other change sets have the jobs they had.
pub record Canceled (id : String) (db db' : Db) : Type 0 where
  pub validations :
      any (λ (j : RemediationValidationJob). is_ended id j.job) db'.validation_jobs ≡ false
  pub checkpoints :
      any (λ (j : RemediationCheckpointJob). is_ended id j.job) db'.checkpoint_jobs ≡ false
  pub verifications :
      any (λ (j : RemediationRecoveryVerificationJob). is_ended id j.job) db'.verification_jobs
      ≡ false
  pub other_validations :
      select (λ (j : RemediationValidationJob). is_other id j.job) db'.validation_jobs
      ≡ select (λ (j : RemediationValidationJob). is_other id j.job) db.validation_jobs
  pub other_checkpoints :
      select (λ (j : RemediationCheckpointJob). is_other id j.job) db'.checkpoint_jobs
      ≡ select (λ (j : RemediationCheckpointJob). is_other id j.job) db.checkpoint_jobs
  pub other_verifications :
      select (λ (j : RemediationRecoveryVerificationJob). is_other id j.job) db'.verification_jobs
      ≡ select (λ (j : RemediationRecoveryVerificationJob). is_other id j.job) db.verification_jobs

cancel_lem :
    (now : ℕ) (id : String) (db db' : Db)
    → db'.validation_jobs
      ≡ update
          (λ (j : RemediationValidationJob). is_ended id j.job)
          (end_validation now)
          db.validation_jobs
    → db'.checkpoint_jobs
      ≡ update
          (λ (j : RemediationCheckpointJob). is_ended id j.job)
          (end_checkpoint now)
          db.checkpoint_jobs
    → db'.verification_jobs
      ≡ update
          (λ (j : RemediationRecoveryVerificationJob). is_ended id j.job)
          (end_verification now)
          db.verification_jobs
    → Canceled id db db'
cancel_lem now id db db' v c r = record {
  validations =
      updated-none (λ (j : RemediationValidationJob). is_ended id j.job) (end_validation now)
        db.validation_jobs db'.validation_jobs v (λ j. ground arith);
  checkpoints =
      updated-none (λ (j : RemediationCheckpointJob). is_ended id j.job) (end_checkpoint now)
        db.checkpoint_jobs db'.checkpoint_jobs c (λ j. ground arith);
  verifications =
      updated-none (λ (j : RemediationRecoveryVerificationJob). is_ended id j.job)
        (end_verification now) db.verification_jobs db'.verification_jobs r (λ j. ground arith);
  other_validations =
      updated-select (λ (j : RemediationValidationJob). is_ended id j.job)
        (λ (j : RemediationValidationJob). is_other id j.job) (end_validation now)
        db.validation_jobs db'.validation_jobs v (λ j h. ground arith) (λ j h. ground arith);
  other_checkpoints =
      updated-select (λ (j : RemediationCheckpointJob). is_ended id j.job)
        (λ (j : RemediationCheckpointJob). is_other id j.job) (end_checkpoint now)
        db.checkpoint_jobs db'.checkpoint_jobs c (λ j h. ground arith) (λ j h. ground arith);
  other_verifications =
      updated-select (λ (j : RemediationRecoveryVerificationJob). is_ended id j.job)
        (λ (j : RemediationRecoveryVerificationJob). is_other id j.job) (end_verification now)
        db.verification_jobs db'.verification_jobs r (λ j h. ground arith) (λ j h. ground arith);
}

-- A change set that is canceled has been found, and was not canceled before; none of its jobs is
-- queued or delivered afterwards, and the jobs of all other change sets are as they were.
pub cancel-Canceled :
    (L : Library) (now : ℕ) (user : User) (id reason : String) (db : Db) {db' : Db}
    → cancel_change_set L now user id reason db ≡ ok db'
    → (cs : RemediationChangeSet) × (find (is_set_of user id) db.change_sets ≡ some cs)
      × (is_canceled cs.status ≡ false)
      × Canceled cs.id db db'
unfolding cancel_change_set
cancel-Canceled L now user id reason db {db'} e = after_check (require_admin user) _ e λ admin e.
    after (change_set_of db user id) _ e λ cs found e.
      after_check (raise_if (is_canceled cs.status) _) _ e λ open_set e. (
        cs,
        ground arith,
        ground arith,
        cancel_lem now cs.id db db' (ground arith) (ground arith) (ground arith),
      )
