-- ===== src/Agent/Runtime/Control.antt =====
-- `verify_control_response`, and what `signed_control_get` and `signed_control_post` make of an answer.
use lsa.Base.{
  ℕ, String, [], ◌∷◌, length, ◌==◌, nat_eq, string_eq, Result, ok, runtime_error, type_error,
  attribute_error, ◌>>=◌, ◌>>◌, require, or_raise, on_error, concat, if◌then◌else◌,
}
use lsa.Json.{Json, Fields, get, at_key, put, without, as_dict, text_is, py_eq}
use lsa.Library.{Library, Bytes}
use lsa.Agent.Runtime.{AgentState, load_platform_command_key}
use lsa.Agent.Runtime.Envelope.{verify_platform_envelope}
use lsa.Agent.Runtime.Rotation.{on_shape_error, apply_platform_key_rotation}

module _ (L : Library) where
  -- The pinned key, or the staged key whose fingerprint the answer advertises.
  unfoldable pub verification_key : Fields → Fields → Bytes → Result Bytes
  verification_key state trust pinned =
      if text_is (L.sha256 pinned) (get "fingerprint" trust) then ok pinned else (do
        let unknown = runtime_error "platform identity does not match the pinned or staged key"
        let invalid = runtime_error "staged platform identity is invalid"
        pending ← or_raise (as_dict (get "pending_platform_trust" state)) unknown
        require (py_eq (get "fingerprint" pending) (get "fingerprint" trust)) unknown
        public_key ← on_error (λ e. invalid) (at_key "public_key" pending)
        raw ← or_raise (L.b64decode (L.py_str public_key)) invalid
        require (length raw == 32) invalid
        ok raw)

  -- The body of the `try`. The answer is whatever JSON document the server has sent.
  unfoldable pub verify_answer :
      ℕ → String → Json → Bytes → AgentState → Result (Fields × AgentState)
  unfolding verification_key
  verify_answer now kind answer pinned st = do
    result ← or_raise (as_dict answer) type_error
    trust_value ← at_key "platform_trust" result
    trust ← or_raise (as_dict trust_value) attribute_error
    key ← verification_key st.state trust pinned
    envelope ← at_key "platform_envelope" result
    signature ← at_key "platform_signature" result
    identity ← at_key "agent_identity_fingerprint" st.state
    payload ←
        verify_platform_envelope L now kind (L.py_str identity) st.state envelope signature trust
          key
    st' ← apply_platform_key_rotation L payload key st
    ok (payload, st')

  unfoldable pub verify_control_response :
      ℕ → String → Json → AgentState → Result (Fields × AgentState)
  unfolding verify_answer
  verify_control_response now kind answer st = do
    pinned ← load_platform_command_key L st.key_file
    on_error (on_shape_error (concat "platform did not return a signed " (concat kind " response")))
        (verify_answer now kind answer pinned st)

  -- The sequence number goes from the payload to the state, which is written.
  unfoldable pub signed_control : ℕ → String → Json → AgentState → Result (Fields × AgentState)
  signed_control now kind answer st = do
    (payload, st') ← verify_control_response now kind answer st
    sequence ← at_key "platform_envelope_sequence" payload
    ok (
      without ("platform_envelope_sequence" ∷ []) payload,
      record st' { state = put "platform_envelope_sequence" sequence st'.state },
    )
