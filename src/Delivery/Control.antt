-- ===== src/Delivery/Control.antt =====
-- `_signed_control_response` (apps/api/lsa/api/agents.py): every answer to an agent is an envelope with
-- the next sequence number, signed by the agent's platform key, and carries the state of a rotation of that
-- key (apps/api/lsa/services/platform_command_trust.py).
use lsa.Base.{
  ℕ, ◌+◌, String, false, ◌&&◌, not, Option, none, some, ◌==◌, string_eq, option_eq, update, Result,
  ok, http, ◌>>=◌, or_raise, if◌then◌else◌, pos,
}
use lsa.Json.{Json, Fields, end, field, null, str, int, bool, dict, join, is_some}
use lsa.Library.{Library, minutes}
use lsa.Schema.Fleet.{LinuxAgent, PlatformCommandSigningKey}
use lsa.Schema.Database.{Db, get_command_key}
use lsa.Signing.{sign_platform_envelope}

-- `PlatformControlResponse`
pub record Response : Type 0 where
  pub trust : Fields
  pub envelope : Fields
  pub signature : String

-- `platform_trust_descriptor`
abbrev pub platform_trust_descriptor : PlatformCommandSigningKey → Fields
platform_trust_descriptor key = field "key_id" (str key.id) (
    field "key_version" (int (pos key.key_version)) (
      field "algorithm" (str "Ed25519")
        (field "public_key" (str key.public_key) (field "fingerprint" (str key.fingerprint) end))))

abbrev proposal_of : Library → PlatformCommandSigningKey → PlatformCommandSigningKey → Fields
proposal_of L active_key staged_key = field "schema_version" (str "1.0") (
    field "kind" (str "platform-key-rotation") (
      field "previous_key_id" (str active_key.id) (
        field "next_key" (dict (platform_trust_descriptor staged_key))
          (field "created_at" (str (L.iso_format staged_key.created_at)) end))))

abbrev pub trusted :
    LinuxAgent → Option PlatformCommandSigningKey → Option PlatformCommandSigningKey
trusted agent none = none
trusted agent (some key) =
    if key.tenant_id == agent.tenant_id
      && not (is_some key.revoked_at)
      && some key.fingerprint == agent.platform_command_key_fingerprint
    then some key
    else none

abbrev pub envelope_of :
    Library → LinuxAgent → PlatformCommandSigningKey → String → ℕ → ℕ → Json → Fields → Fields
envelope_of L agent key kind sequence issued_at rotation payload =
    field "schema_version" (str "1.0") (
      field "kind" (str kind) (
        field "key_id" (str key.id) (
          field "sequence" (int (pos sequence)) (
            field "issued_at" (str (L.iso_format issued_at)) (
              field "expires_at" (str (L.iso_format (issued_at + minutes 5))) (
                field "agent_id" (str agent.id) (
                  field "payload"
                    (dict (
                      join payload (
                        field "agent_id" (str agent.id) (
                          field "agent_identity_fingerprint" (str agent.fingerprint) (
                            field "execution_enabled" (bool false)
                              (field "platform_key_rotation" rotation end))))))
                    end)))))))

-- `platform_key_rotation_proof`
unfoldable pub rotation_proof :
    Library → PlatformCommandSigningKey → PlatformCommandSigningKey → Result Json
rotation_proof L active_key staged_key = do
  let proposal = proposal_of L active_key staged_key
  previous ← sign_platform_envelope L active_key proposal
  next ← sign_platform_envelope L staged_key proposal
  ok (
      dict (
        field "phase" (str "staged") (
          field "proposal" (dict proposal) (
            field "previous_key_signature" (str previous)
              (field "next_key_signature" (str next) end)))))

-- A staged key that the agent still waits for.
abbrev staged : LinuxAgent → Option PlatformCommandSigningKey → Option PlatformCommandSigningKey
staged agent none = none
staged agent (some key) =
    if key.status == "staged"
      && not (is_some key.revoked_at)
      && some key.fingerprint == agent.pending_platform_command_key_fingerprint
    then some key
    else none

abbrev proof_for :
    Library → PlatformCommandSigningKey → Option PlatformCommandSigningKey → Result Json
proof_for L key none = ok null
proof_for L key (some staged_key) = rotation_proof L key staged_key

abbrev activated : PlatformCommandSigningKey → Json
activated key =
    if key.status == "active" && is_some key.supersedes_key_id
    then dict (
        field "phase" (str "activated")
          (field "next_key" (dict (platform_trust_descriptor key)) end))
    else null

-- The `rotation` of an answer.
unfoldable pub rotation_block : Library → Db → LinuxAgent → PlatformCommandSigningKey → Result Json
rotation_block L db agent key = elim agent.pending_platform_command_key_id [
  | some id ↦ proof_for L key (staged agent (get_command_key db id))
  | none ↦ ok (activated key)
]

-- `agent.platform_envelope_sequence += 1`
abbrev pub numbered : ℕ → LinuxAgent → LinuxAgent
numbered sequence row = record row { platform_envelope_sequence = sequence }

-- `principal.agent.last_seen_at = now`
abbrev pub touched : ℕ → LinuxAgent → Db → Db
touched now agent db = record db {
  agents =
      update (λ (row : LinuxAgent). row.id == agent.id)
        (λ row. record row { last_seen_at = some now }) db.agents;
}

unfoldable pub signed_control_response :
    Library → ℕ → LinuxAgent → String → Fields → Db → Result (Response × Db)
signed_control_response L now agent kind payload db = do
  key_id ←
      or_raise agent.platform_command_key_id
        (http 409 "Agent platform trust is not pinned; re-enroll the agent")
  key ←
      or_raise (trusted agent (get_command_key db key_id))
        (http 409 "Agent platform trust is unavailable")
  let sequence = agent.platform_envelope_sequence + 1
  rotation ← rotation_block L db agent key
  let envelope = envelope_of L agent key kind sequence now rotation payload
  signature ← sign_platform_envelope L key envelope
  ok (
    record { trust = platform_trust_descriptor key; envelope = envelope; signature = signature },
    record db {
      agents = update (λ (row : LinuxAgent). row.id == agent.id) (numbered sequence) db.agents;
    },
  )
