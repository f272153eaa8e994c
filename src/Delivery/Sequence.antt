-- ===== src/Delivery/Sequence.antt =====
-- The sequence numbers of the envelopes that an agent is sent.
use lsa.Base.{
  ℕ, ◌+◌, String, ◌≡◌, refl, some, update, ok, after, or_raise, arith, ◌==◌, string_eq, pos, find,
  List, [], ◌∷◌,
}
use lsa.Json.{Json, Fields, int, get}
use lsa.Library.{Library}
use lsa.Schema.Fleet.{LinuxAgent, PlatformCommandSigningKey}
use lsa.Schema.Database.{Db, get_command_key, get_agent}
use lsa.Signing.{sign_platform_envelope}
use lsa.Delivery.Control.{
  Response, envelope_of, numbered, trusted, rotation_block, signed_control_response,
}

-- What an answer is made of.
pub record Answer (L : Library) (now : ℕ) (agent : LinuxAgent) (kind : String) (payload : Fields)
    (db : Db) (response : Response) (db' : Db) : Type 0 where
  pub key_id : String
  pub key : PlatformCommandSigningKey
  pub pinned : agent.platform_command_key_id ≡ some key_id
  pub stored_key : trusted agent (get_command_key db key_id) ≡ some key
  pub rotation : Json
  pub rotates : rotation_block L db agent key ≡ ok rotation
  pub envelope :
      response.envelope
      ≡ envelope_of L agent key kind (agent.platform_envelope_sequence + 1) now rotation payload
  pub signed : sign_platform_envelope L key response.envelope ≡ ok response.signature
  pub written : db' ≡ record db {
    agents =
        update
          (λ (row : LinuxAgent). row.id == agent.id)
          (numbered (agent.platform_envelope_sequence + 1))
          db.agents;
  }

pub signed_control_response-eq-ok :
    (L : Library) (now : ℕ) (agent : LinuxAgent) (kind : String) (payload : Fields) (db : Db)
    {response : Response} {db' : Db}
    → signed_control_response L now agent kind payload db ≡ ok (response, db')
    → Answer L now agent kind payload db response db'
unfolding signed_control_response
signed_control_response-eq-ok L now agent kind payload db {response} {db'} e =
    after (or_raise agent.platform_command_key_id _) _ e λ key_id pinned e.
      after (or_raise (trusted agent (get_command_key db key_id)) _) _ e λ key stored e.
        after (rotation_block L db agent key) _ e λ rotation rotates e.
          after
            (sign_platform_envelope L key (
              envelope_of L agent key kind (agent.platform_envelope_sequence + 1) now rotation
                payload))
            _ e
            λ signature signed e. record {
              key_id = key_id;
              key = key;
              pinned = ground arith;
              stored_key = ground arith;
              rotation = rotation;
              rotates = rotates;
              envelope = ground arith;
              signed = ground arith;
              written = ground arith;
            }

module _ (L : Library) (now : ℕ) (agent : LinuxAgent) where
  -- An answer leaves the validation jobs as they are.
  pub answer-jobs :
      (kind : String) (payload : Fields) (db : Db) {db' : Db} {response : Response}
      → signed_control_response L now agent kind payload db ≡ ok (response, db')
      → db'.validation_jobs ≡ db.validation_jobs
  answer-jobs kind payload db e =
      let answer = signed_control_response-eq-ok L now agent kind payload db e in
      rw answer.written refl

find-update_key :
    (key : String) (f : LinuxAgent → LinuxAgent) (rows : List LinuxAgent) {agent : LinuxAgent}
    → ((r : LinuxAgent) → (f r).id ≡ r.id)
    → find (λ (row : LinuxAgent). row.id == key) rows ≡ some agent
    → find
        (λ (row : LinuxAgent). row.id == key)
        (update (λ (row : LinuxAgent). row.id == key) f rows)
      ≡ some (f agent)
find-update_key key f [] same e = cc
find-update_key key f (r ∷ rows) {agent} same e =
    ground (arith, same r, find-update_key key f rows {agent = agent} same)

envelope-sequence :
    (L : Library) (agent : LinuxAgent) (key : PlatformCommandSigningKey) (kind : String) (n now : ℕ)
    (rotation : Json) (payload : Fields)
    → get "sequence" (envelope_of L agent key kind n now rotation payload) ≡ int (pos n)
unfolding string_eq
envelope-sequence L agent key kind n now rotation payload = refl

-- Two answers to an agent, each to the row that the database holds: the second envelope carries a
-- greater sequence number than the first, by one.
pub answers-sequence :
    (L : Library) (now now' : ℕ) (agent agent' : LinuxAgent) (kind kind' : String)
    (payload payload' : Fields) (db db' db'' : Db) (first second : Response)
    → get_agent db agent.id ≡ some agent
    → signed_control_response L now agent kind payload db ≡ ok (first, db')
    → get_agent db' agent.id ≡ some agent'
    → signed_control_response L now' agent' kind' payload' db' ≡ ok (second, db'')
    → (n : ℕ) × (get "sequence" first.envelope ≡ int (pos n))
      × (get "sequence" second.envelope ≡ int (pos (n + 1)))
answers-sequence L now now' agent agent' kind kind' payload payload' db db' db'' first second held e
      held' e' =
    let a = signed_control_response-eq-ok L now agent kind payload db e in
    let b = signed_control_response-eq-ok L now' agent' kind' payload' db' e' in
    let kept : get_agent db' agent.id
        ≡ some (numbered (agent.platform_envelope_sequence + 1) agent) =
      rw a.written (
        find-update_key agent.id (numbered (agent.platform_envelope_sequence + 1)) db.agents
          (λ r. refl) held) in
    let next : agent'.platform_envelope_sequence ≡ agent.platform_envelope_sequence + 1 =
      ground arith in
    (
      agent.platform_envelope_sequence + 1,
      rw a.envelope (
          envelope-sequence L agent a.key kind (agent.platform_envelope_sequence + 1) now a.rotation
            payload),
      rw b.envelope (
          rw next (
            envelope-sequence L agent' b.key kind' (agent.platform_envelope_sequence + 1 + 1) now'
              b.rotation payload')),
    )
