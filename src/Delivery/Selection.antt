-- ===== src/Delivery/Selection.antt =====
-- Which job a poll delivers, and which jobs it expires.
use lsa.Base.{
  ◌+◌, ◌∙◌, ◌==◌, ◌&&◌, contains, update, if◌then◌else◌, ℕ, String, Bool, true, false, ◌≡◌, refl,
  ap, not, List, [], ◌∷◌, ◌++◌, Option, none, some, all, map, ◌⊎◌, inl, inr, Bool-cases, select,
  select_sound, All, order_by, order_by-All, order_by-IsSorted, IsSorted, arith, string_eq,
}
use lsa.Schema.Jobs.{Job, delivered, expired, in_flight, is_queued}
use lsa.Delivery.{pick, next_job, is_waiting, expire_all, deliver, delivered_job, expired_job}

some_injective : {A : Type 0} (a b : A) → some a ≡ some b → a ≡ b
some_injective a b e = ground arith

module _ {R : Type 0} (job_of : R → Job) (with_job : R → Job → R) (is_eligible : R → Bool) where
  -- The rows in order: those that are passed over, and the one that is picked, if there is one.
  pub record Picked (rows : List R) (ids : List String) (o : Option R) : Type 0 where
    pub skipped : List R
    pub ineligible : all (λ (r : R). not (is_eligible r)) skipped ≡ true
    pub expires : ids ≡ map (λ (r : R). (job_of r).id) skipped
    pub picks :
        ((o ≡ none) × (rows ≡ skipped))
        ⊎ ((row : R) × (rest : List R) × (o ≡ some row)
            × (is_eligible row ≡ true)
            × (rows ≡ skipped ++ (row ∷ rest)))

  pass :
      (row : R) (rows : List R) (ids : List String) (o : Option R)
      → is_eligible row ≡ false
      → Picked rows ids o
      → Picked (row ∷ rows) ((job_of row).id ∷ ids) o
  pass row rows ids o miss p = record {
    skipped = row ∷ p.skipped;
    ineligible = rw miss p.ineligible;
    expires = rw p.expires refl;
    picks = elim p.picks [
      | inl (nothing, here) ↦ inl (nothing, ap (λ rs. row ∷ rs) here)
      | inr (found, rest, picked, hit, here) ↦
          inr (found, rest, picked, hit, ap (λ rs. row ∷ rs) here)
    ];
  }

  pick-Picked :
      (rows : List R)
      → Picked rows
          (pick job_of with_job is_eligible rows).0
          (pick job_of with_job is_eligible rows).1
  unfolding pick
  pick-Picked [] = record {
    skipped = [];
    ineligible = refl;
    expires = refl;
    picks = inl (refl, refl);
  }
  pick-Picked (row ∷ rows) = elim (Bool-cases (is_eligible row)) [
    | inl hit ↦ rw hit (record {
      skipped = [];
      ineligible = refl;
      expires = refl;
      picks = inr (row, rows, refl, hit, refl);
    })
    | inr miss ↦ rw miss (pass row rows _ _ miss (pick-Picked rows))
  ]

  -- The rows that a poll looks at, oldest request first: the agent's, in its tenant, queued or delivered.
  abbrev pub waiting : String → String → List R → List R
  waiting agent_id tenant_id rows =
      order_by (λ (r : R). (job_of r).requested_at)
        (select
          (λ (r : R).
            (job_of r).agent_id == agent_id
            && (job_of r).tenant_id == tenant_id
            && in_flight (job_of r).status)
          rows)

  -- A row after the jobs with the identifiers have lapsed.
  abbrev pub lapsed : ℕ → String → List String → R → R
  lapsed now error ids row =
      if contains ids (job_of row).id
      then with_job row
          (record (job_of row) { status = expired; completed_at = some now; error = some error })
      else row

  -- A row after the chosen job has been handed out, for five minutes; one that was queued becomes delivered.
  abbrev pub handed : ℕ → Option R → R → R
  handed now none row = row
  handed now (some chosen) row =
      if (job_of row).id == (job_of chosen).id
      then with_job row (record (job_of row) {
        status = if is_queued (job_of row).status then delivered else (job_of row).status;
        delivered_at =
            if is_queued (job_of row).status then some now else (job_of row).delivered_at;
        lease_expires_at = some (now + 300_000_000);
      })
      else row

  -- What a poll chooses from a table, and the table after it.
  pub record Poll (now : ℕ) (error agent_id tenant_id : String) (rows : List R) (chosen : Option R)
      (table : List R) : Type 0 where
    pub ids : List String
    pub picked : Picked (waiting agent_id tenant_id rows) ids chosen
    pub sorted : IsSorted (λ (r : R). (job_of r).requested_at) (waiting agent_id tenant_id rows)
    pub written : table ≡ map (λ row. handed now chosen (lapsed now error ids row)) rows

  lease_lem :
      (now : ℕ) (j : Job)
      → delivered_job now j ≡ record j {
        status = if is_queued j.status then delivered else j.status;
        delivered_at = if is_queued j.status then some now else j.delivered_at;
        lease_expires_at = some (now + 300_000_000);
      }
  lease_lem now j = elim (Bool-cases (is_queued j.status)) [
    | inl new ↦ rw new refl
    | inr old ↦ rw old refl
  ]

  handed_lem :
      (now : ℕ) (chosen row : R)
      → (if (job_of row).id == (job_of chosen).id
          then with_job row (delivered_job now (job_of row))
          else row)
        ≡ handed now (some chosen) row
  handed_lem now chosen row = elim (Bool-cases ((job_of row).id == (job_of chosen).id)) [
    | inl same ↦ rw same (ap (with_job row) (lease_lem now (job_of row)))
    | inr other ↦ rw other refl
  ]

  update-map :
      (p : R → Bool) (f : R → R) (rows : List R)
      → update p f rows ≡ map (λ row. if p row then f row else row) rows
  update-map p f [] = refl
  update-map p f (row ∷ rows) = ap (λ rs. (if p row then f row else row) ∷ rs) (update-map p f rows)

  map_twice :
      (f g h : R → R) (rows : List R)
      → ((row : R) → f (g row) ≡ h row)
      → map f (map g rows) ≡ map h rows
  map_twice f g h [] same = refl
  map_twice f g h (row ∷ rows) same =
      ap (λ r. r ∷ map f (map g rows)) (same row)
      ∙ ap (λ rs. h row ∷ rs) (map_twice f g h rows same)

  map_same : (rows : List R) → rows ≡ map (λ row. row) rows
  map_same [] = refl
  map_same (row ∷ rows) = ap (λ rs. row ∷ rs) (map_same rows)

  expired_lem :
      (now : ℕ) (error : String) (ids : List String) (rows : List R)
      → expire_all job_of with_job is_eligible now error ids rows ≡ map (lapsed now error ids) rows
  expired_lem now error ids rows =
      update-map (λ row. contains ids (job_of row).id)
        (λ row. with_job row (expired_job now error (job_of row))) rows

  table_lem :
      (now : ℕ) (error : String) (ids : List String) (chosen : Option R) (rows : List R)
      → deliver job_of with_job is_eligible now chosen
          (expire_all job_of with_job is_eligible now error ids rows)
        ≡ map (λ row. handed now chosen (lapsed now error ids row)) rows
  table_lem now error ids none rows = expired_lem now error ids rows
  table_lem now error ids (some chosen) rows =
      update-map (λ row. (job_of row).id == (job_of chosen).id)
        (λ row. with_job row (delivered_job now (job_of row)))
        (expire_all job_of with_job is_eligible now error ids rows)
      ∙ ap
          (map (λ row.
            if (job_of row).id == (job_of chosen).id
            then with_job row (delivered_job now (job_of row))
            else row))
          (expired_lem now error ids rows)
      ∙ map_twice
          (λ row.
            if (job_of row).id == (job_of chosen).id
            then with_job row (delivered_job now (job_of row))
            else row)
          (lapsed now error ids) (λ row. handed now (some chosen) (lapsed now error ids row)) rows
          (λ row. handed_lem now chosen (lapsed now error ids row))

  -- A poll goes through the agent's queued and delivered jobs in the order of their requests up to the first
  -- that is eligible, and answers with that one, or with none only where no job of the agent is eligible. In
  -- the table after it, the jobs before that one are expired with the error and the time, that one is delivered
  -- with a lease of five minutes, and every row with another identifier is as
  -- it was.
  pub next_job-Picked :
      (now : ℕ) (error agent_id tenant_id : String) (rows : List R)
      → Poll now error agent_id tenant_id rows
          (next_job job_of with_job is_eligible now error agent_id tenant_id rows).0
          (next_job job_of with_job is_eligible now error agent_id tenant_id rows).1
  unfolding next_job
  next_job-Picked now error agent_id tenant_id rows =
      let found = pick job_of with_job is_eligible (waiting agent_id tenant_id rows) in
      record {
        ids = found.0;
        picked = pick-Picked (waiting agent_id tenant_id rows);
        sorted =
            order_by-IsSorted (λ (r : R). (job_of r).requested_at)
              (select
                (λ (r : R).
                  (job_of r).agent_id == agent_id
                  && (job_of r).tenant_id == tenant_id
                  && in_flight (job_of r).status)
                rows);
        written = table_lem now error found.0 found.1 rows;
      }

  pick_sound :
      (P : R → Type 0) (rows : List R) {row : R}
      → All P rows
      → (pick job_of with_job is_eligible rows).1 ≡ some row
      → (is_eligible row ≡ true) × P row
  unfolding pick
  pick_sound P [] h e = cc
  pick_sound P (r ∷ rows) {row} h e = elim (Bool-cases (is_eligible r)) [
    | inl hit ↦ let here : r ≡ row = some_injective r row (rw hit at e) in rw (← here) (hit, h.0)
    | inr miss ↦ pick_sound P rows h.1 (rw miss at e)
  ]

  -- The job that a poll selects was waiting for the agent and is eligible.
  pub next_job-due :
      (now : ℕ) (error agent_id tenant_id : String) (rows : List R) {row : R}
      → (next_job job_of with_job is_eligible now error agent_id tenant_id rows).0 ≡ some row
      → (is_eligible row ≡ true) × (is_waiting agent_id tenant_id (job_of row) ≡ true)
  unfolding next_job
  next_job-due now error agent_id tenant_id rows e =
      pick_sound (λ r. is_waiting agent_id tenant_id (job_of r) ≡ true)
        (waiting agent_id tenant_id rows)
        (order_by-All (λ (r : R). (job_of r).requested_at)
          (λ (r : R). is_waiting agent_id tenant_id (job_of r) ≡ true) _
          (select_sound (λ (r : R). is_waiting agent_id tenant_id (job_of r)) rows))
        e
