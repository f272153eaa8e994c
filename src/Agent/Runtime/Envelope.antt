-- ===== src/Agent/Runtime/Envelope.antt =====
-- `verify_platform_envelope`: the checks of a signed answer.
use lsa.Base.{
  concat, ℕ, ◌+◌, String, Bool, true, false, ◌&&◌, not, ltb, leb, length, ◌==◌, nat_eq, string_eq,
  Result, ok, err, runtime_error, attribute_error, ◌>>=◌, ◌>>◌, raise_if, require, or_raise, pos,
  leb_ℤ,
}
use lsa.Json.{
  Json, Fields, end, int, str, get, get_or, at_key, put, as_dict, as_text, text_is, is_false, py_eq,
  int_value,
}
use lsa.Library.{same_bytes, Library, Bytes, naive, aware, minutes}
use lsa.Agent.Runtime.{at_least}

-- `bool(state)`
abbrev is_filled : Fields → Bool
is_filled end = false
is_filled _ = true

module _ (L : Library) where
  -- `_envelope_time`
  unfoldable pub envelope_time : Json → String → Result ℕ
  envelope_time value label = do
    let invalid = runtime_error (concat "platform envelope " (concat label " is invalid"))
    text ← or_raise (as_text value) invalid
    parsed ← or_raise (L.parse_iso text) invalid
    elim parsed [
      | naive t ↦
          err
            (runtime_error (concat "platform envelope " (concat label " must include a timezone")))
      | aware t ↦ ok t
    ]

  -- The key and the signature: both are those that the agent has pinned.
  unfoldable pub check_signature : Json → Json → Fields → Bytes → Result (Unit {0})
  check_signature envelope signature trust pinned = do
    let invalid = runtime_error "platform envelope signature is invalid"
    require (text_is "Ed25519" (get "algorithm" trust))
        (runtime_error "platform trust algorithm is unsupported")
    require (text_is (L.sha256 pinned) (get "fingerprint" trust))
        (runtime_error "platform identity does not match the pinned key")
    advertised ← or_raise (L.b64decode (L.py_str (get_or "public_key" (str "") trust))) invalid
    text ← or_raise (as_text signature) invalid
    signature_raw ← or_raise (L.b64decode text) invalid
    require
        (same_bytes advertised pinned
          && length signature_raw == 64
          && L.ed25519_verify pinned (L.canonical envelope) signature_raw)
        invalid

  -- The sequence number, which is above the last one that was accepted.
  unfoldable pub check_sequence : Fields → Fields → Result ℕ
  check_sequence envelope state = do
    sequence ←
        or_raise (at_least 1 (get "sequence" envelope))
          (runtime_error "platform envelope sequence is invalid")
    let replayed = runtime_error "platform envelope replay or rollback rejected"
    prior ← or_raise (int_value (get_or "platform_envelope_sequence" (int (pos 0)) state)) replayed
    raise_if (leb_ℤ (pos sequence) prior) replayed
    ok sequence

  unfoldable pub check_times : ℕ → Fields → Result (Unit {0})
  unfolding envelope_time
  check_times now envelope = do
    issued ← envelope_time (get "issued_at" envelope) "issued_at"
    expires ← envelope_time (get "expires_at" envelope) "expires_at"
    require (leb issued (now + minutes 5))
        (runtime_error "platform envelope was issued too far in the future")
    require (ltb now expires && ltb issued expires) (runtime_error "platform envelope is expired")
    require (leb expires (issued + minutes 10))
        (runtime_error "platform envelope validity window is too long")

  -- The payload is for this agent, and keeps the lock on execution.
  unfoldable pub bound_payload : Fields → Fields → String → Result Fields
  bound_payload envelope state identity = do
    payload ←
        or_raise (as_dict (get "payload" envelope))
          (runtime_error "platform envelope payload is invalid")
    require (py_eq (get "agent_id" envelope) (get "agent_id" payload))
        (runtime_error "platform envelope agent binding is invalid")
    raise_if (is_filled state && not (py_eq (get "agent_id" envelope) (get "agent_id" state)))
        (runtime_error "platform envelope belongs to another agent")
    require (text_is identity (get "agent_identity_fingerprint" payload))
        (runtime_error "platform envelope belongs to another agent identity")
    require (is_false (get "execution_enabled" payload))
        (runtime_error "platform envelope does not preserve the audit-only safety lock")
    ok payload

  -- The four entries that are added to the payload.
  abbrev pub with_trust : ℕ → Json → Json → String → Fields → Fields
  with_trust sequence key_id key_version fingerprint payload =
      put "platform_command_key_fingerprint" (str fingerprint) (
        put "platform_command_key_version" key_version (
          put "platform_command_key_id" key_id
            (put "platform_envelope_sequence" (int (pos sequence)) payload)))

  -- `expected_kind` and `identity` are what the caller expects; at the enrolment the state is empty.
  unfoldable pub verify_platform_envelope :
      ℕ → String → String → Fields → Json → Json → Fields → Bytes → Result Fields
  unfolding check_times
  verify_platform_envelope now expected_kind identity state document signature trust pinned = do
    check_signature document signature trust pinned
    envelope ← or_raise (as_dict document) attribute_error
    require
        (text_is "1.0" (get "schema_version" envelope)
          && text_is expected_kind (get "kind" envelope))
        (runtime_error "platform envelope type is invalid")
    require (py_eq (get "key_id" envelope) (get "key_id" trust))
        (runtime_error "platform envelope key binding is invalid")
    sequence ← check_sequence envelope state
    check_times now envelope
    payload ← bound_payload envelope state identity
    key_id ← at_key "key_id" trust
    key_version ← at_key "key_version" trust
    ok (with_trust sequence key_id key_version (L.sha256 pinned) payload)
