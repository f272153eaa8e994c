-- ===== src/Delivery/Answers.antt =====
-- What the three receipts of an agent have in common: when they are in time, what they close, and what an answer
-- changes besides.
use lsa.Base.{
  never_lem, ℕ, ◌+◌, ◌≤◌, String, Bool, true, false, ◌≡◌, refl, ◌&&◌, ◌||◌, not, List, [], ◌∷◌,
  Option, none, some, ◌==◌, string_eq, nat_eq, option_eq, any, All, map, contains, Distinct, update,
  raise_if, Fault, ok, arith, if◌then◌else◌,
}
use lsa.Json.{Fields, dict, get, text_is, as_text, py_eq, is_null, truthy}
use lsa.Library.{Library, digest_of, Moment, naive, aware, minutes}
use lsa.Schema.Fleet.{LinuxAgent}
use lsa.Schema.ChangeSets.{RemediationChangeSet}
use lsa.Schema.Jobs.{Job, ready, blocked}
use lsa.Schema.Database.{Db, get_change_set}
use lsa.Delivery.Control.{Response, signed_control_response}
use lsa.Delivery.Sequence.{signed_control_response-eq-ok}
use lsa.Delivery.CheckpointReceipt.{is_prepared_in_time}
use lsa.Delivery.Receipt.{is_timely, moment_of}

-- The database after an answer that does nothing else: the agent's sequence number has advanced by one.
abbrev pub only_numbered : LinuxAgent → Db → Db
only_numbered agent db = record db {
  agents =
      update (λ (row : LinuxAgent). row.id == agent.id)
        (λ row. record row { platform_envelope_sequence = agent.platform_envelope_sequence + 1 })
        db.agents;
}

-- A job with the verdict of a receipt.
abbrev pub closed_by : ℕ → Fields → String → Job → Job
closed_by now receipt signature job = record job {
  status = if text_is "ready" (get "status" receipt) then ready else blocked;
  receipt = some receipt;
  receipt_signature = some signature;
  error = as_text (get "error" receipt);
  completed_at = some now;
}

-- The job has this receipt already, with this signature.
abbrev pub IsStored : Job → Fields → String → Type 0
IsStored job receipt signature =
    (old : Fields) × (job.receipt ≡ some old)
    × (py_eq (dict old) (dict receipt) ≡ true)
    × (job.receipt_signature ≡ some signature)

pub stored_lem :
    (o : Option Fields) (stored : Option String) (receipt : Fields) (signature : String)
    → (elim o [
      | none ↦ false
      | some old ↦ py_eq (dict old) (dict receipt) && stored == some signature
    ])
      ≡ true
    → (old : Fields) × (o ≡ some old)
      × (py_eq (dict old) (dict receipt) ≡ true)
      × (stored ≡ some signature)
stored_lem none stored receipt signature h = cc
stored_lem (some old) stored receipt signature h = (old, refl, ground arith, ground arith)

-- The time of a receipt, within five minutes of the delivery and of the clock, and before the window ends.
pub record InTime (db : Db) (now : ℕ) (job : Job) (moment : Moment) : Type 0 where
  pub time : ℕ
  pub has_zone : moment ≡ aware time
  pub delivered_at : ℕ
  pub was_delivered : job.delivered_at ≡ some delivered_at
  pub cs : RemediationChangeSet
  pub of_set : get_change_set db job.change_set_id ≡ some cs
  pub not_early : delivered_at ≤ time + minutes 5
  pub not_ahead : time ≤ now + minutes 5
  pub in_window : time ≤ cs.maintenance_window_end

timely_lem :
    (now t : ℕ) (delivered : Option ℕ) (o : Option RemediationChangeSet)
    → is_timely now t delivered o ≡ true
    → (d : ℕ) × (cs : RemediationChangeSet) × (delivered ≡ some d)
      × (o ≡ some cs)
      × (d ≤ t + minutes 5)
      × (t ≤ now + minutes 5)
      × (t ≤ cs.maintenance_window_end)
timely_lem now t none o h = cc
timely_lem now t (some d) none h = cc
timely_lem now t (some d) (some cs) h =
    (d, cs, refl, refl, ground arith, ground arith, ground arith)

moment_lem : (m : Moment) {t : ℕ} → moment_of m ≡ some t → m ≡ aware t
moment_lem m e = ground arith

pub timely-InTime :
    (db : Db) (now : ℕ) (job : Job) (moment : Moment) {t : ℕ}
    → moment_of moment ≡ some t
    → is_timely now t job.delivered_at (get_change_set db job.change_set_id) ≡ true
    → InTime db now job moment
timely-InTime db now job moment {t} m h =
    let (d, cs, given, known, early, ahead, window) =
      timely_lem now t job.delivered_at (get_change_set db job.change_set_id) h in
    record {
      time = t;
      has_zone = moment_lem moment m;
      delivered_at = d;
      was_delivered = given;
      cs = cs;
      of_set = known;
      not_early = early;
      not_ahead = ahead;
      in_window = window;
    }

-- The receipt is about the contract of the job, which is as it was issued, for its agent and host.
pub record NamesJob (L : Library) (job : Job) (receipt : Fields) : Type 0 where
  pub same_contract : digest_of L (dict job.contract) ≡ job.contract_digest
  pub of_set : text_is job.change_set_id (get "change_set_id" receipt) ≡ true
  pub of_contract : text_is job.contract_digest (get "contract_digest" receipt) ≡ true
  pub of_agent : text_is job.agent_id (get "agent_id" receipt) ≡ true
  pub of_host : text_is job.host_id (get "host_id" receipt) ≡ true

-- The job is the agent's, in its tenant, and has the identifier.
pub record IsOwn (agent : LinuxAgent) (id : String) (job : Job) : Type 0 where
  pub named : job.id ≡ id
  pub own_agent : job.agent_id ≡ agent.id
  pub own_tenant : job.tenant_id ≡ agent.tenant_id

pub own_lem :
    (agent : LinuxAgent) (id : String) (job : Job)
    → (job.id == id && job.agent_id == agent.id && job.tenant_id == agent.tenant_id) ≡ true
    → IsOwn agent id job
own_lem agent id job h = record {
  named = ground arith;
  own_agent = ground arith;
  own_tenant = ground arith;
}

-- An answer writes no table but that of the agents.
pub answer-rest :
    (L : Library) (now : ℕ) (agent : LinuxAgent) (kind : String) (payload : Fields) (db : Db)
    {db' : Db} {response : Response}
    → signed_control_response L now agent kind payload db ≡ ok (response, db')
    → db' ≡ record db { agents = db'.agents; audit_events = db'.audit_events }
answer-rest L now agent kind payload db e =
    let answer = signed_control_response-eq-ok L now agent kind payload db e in
    rw answer.written refl

pub equal_lem : (s t : String) → (s == t) ≡ true → s ≡ t
equal_lem s t e = ground arith

pub raised_lem : (b : Bool) (f : Fault) → raise_if b f ≡ ok tt → b ≡ false
raised_lem false f e = refl
raised_lem true f e = cc

module _ {ℓ} {R : Type ℓ} (is_blocked : R → Bool) where
  -- The verdict fits the results: a ready one has the state that goes with it, no blocked result and no error; a
  -- blocked one has a blocked result and an error.
  pub record IsConsistent (key state : String) (receipt : Fields) (results : List R) : Type 0 where
    pub ready_state :
        text_is "ready" (get "status" receipt) ≡ true
        → (text_is state (get key receipt) ≡ true)
          × (any is_blocked results ≡ false)
          × (is_null (get "error" receipt) ≡ true)
    pub blocked_state :
        text_is "blocked" (get "status" receipt) ≡ true
        → (text_is "blocked" (get key receipt) ≡ true)
          × (truthy (get "error" receipt) ≡ true)
          × (any is_blocked results ≡ true)

  ready_lem :
      (a b c d : Bool)
      → (a && (not b || c || not d)) ≡ false
      → a ≡ true
      → (b ≡ true) × (c ≡ false) × (d ≡ true)
  ready_lem a b c d h k = (ground arith, ground arith, ground arith)

  blocked_lem :
      (a b c d : Bool)
      → (a && (not b || not c || not d)) ≡ false
      → a ≡ true
      → (b ≡ true) × (c ≡ true) × (d ≡ true)
  blocked_lem a b c d h k = (ground arith, ground arith, ground arith)

  pub consistent_lem :
      (key state : String) (receipt : Fields) (results : List R)
      → (text_is "ready" (get "status" receipt)
          && (not (text_is state (get key receipt))
              || any is_blocked results
              || not (is_null (get "error" receipt))))
        ≡ false
      → (text_is "blocked" (get "status" receipt)
          && (not (text_is "blocked" (get key receipt))
              || not (truthy (get "error" receipt))
              || not (any is_blocked results)))
        ≡ false
      → IsConsistent key state receipt results
  consistent_lem key state receipt results h k = record {
    ready_state = ready_lem _ _ _ _ h;
    blocked_state = blocked_lem _ _ _ _ k;
  }

module _ {ℓ} {R : Type ℓ} (id_of : R → String) where
  -- There is exactly one result for each of the entries of a plan, and none besides.
  pub record IsExact (results : List R) (entries : List Fields) : Type 0 where
    pub once : Distinct (map id_of results)
    pub known :
        All
          (λ r. any (λ entry. text_is (id_of r) (get "checkpoint_id" entry)) entries ≡ true)
          results
    pub answered :
        All
          (λ entry. any (λ r. text_is (id_of r) (get "checkpoint_id" entry)) results ≡ true)
          entries

  pub any-contains :
      (id : String) (rs : List R)
      → any (λ q. id_of q == id) rs ≡ false
      → contains (map id_of rs) id ≡ false
  any-contains id [] h = refl
  any-contains id (r ∷ rs) h = ground (arith, any-contains id rs)

-- A time that is checked together with its zone.
pub prepared-InTime :
    (db : Db) (now : ℕ) (job : Job) (moment : Moment)
    → is_prepared_in_time db now job moment ≡ true
    → InTime db now job moment
prepared-InTime db now job (aware t) h = timely-InTime db now job (aware t) refl h
prepared-InTime db now job (naive t) h = never_lem h
