-- ===== src/Agent/Runtime/Rotation.antt =====
-- `apply_platform_key_rotation`: the next platform key is staged under the pinned one, and pinned once
-- the platform signs with it.
use lsa.Base.{
  String, Bool, false, ◌&&◌, ◌||◌, not, [], ◌∷◌, none, some, length, ◌==◌, nat_eq, string_eq,
  concat, Fault, Result, ok, err, runtime_error, type_error, key_error, ◌>>=◌, ◌>>◌, require,
  or_raise, on_error, if◌then◌else◌, pos, leb_ℤ,
}
use lsa.Json.{
  Json, Fields, int, str, dict, get, get_or, at_key, put, without, as_dict, text_is, is_null, py_eq,
  int_value,
}
use lsa.Library.{Library, Bytes, same_bytes}
use lsa.Agent.Runtime.{AgentState}

-- `except (KeyError, TypeError)`, with what is raised in its place.
abbrev pub on_shape_error : String → Fault → Fault
on_shape_error message key_error = runtime_error message
on_shape_error message type_error = runtime_error message
on_shape_error message e = e

-- `state["pending_platform_trust"] = key`, and `state.pop("pending_platform_trust", None)`
abbrev pub staging : Fields → AgentState → AgentState
staging key st = record st { state = put "pending_platform_trust" (dict key) st.state }

abbrev pub unstaged : AgentState → AgentState
unstaged st = record st { state = without ("pending_platform_trust" ∷ []) st.state }

-- `isinstance(v, int)`, and `v <= state.get("platform_command_key_version", 0)`
abbrev pub is_later : Json → Json → Result Bool
is_later version known = elim (int_value version) [
  | none ↦ ok false
  | some next ↦ elim (int_value known) [
    | none ↦ err type_error
    | some last ↦ ok (not (leb_ℤ next last))
  ]
]

module _ (L : Library) where
  -- The conditions on a proposal, up to the comparison of versions.
  abbrev pub is_proposal : Fields → Fields → Fields → Bool
  is_proposal state proposal next_key =
      text_is "1.0" (get "schema_version" proposal)
      && text_is "platform-key-rotation" (get "kind" proposal)
      && py_eq (get "previous_key_id" proposal) (get "platform_command_key_id" state)
      && text_is "Ed25519" (get "algorithm" next_key)
      && not (py_eq (get "key_id" next_key) (get "platform_command_key_id" state))

  -- `base64.b64decode(str(d[key]), validate=True)`
  abbrev pub decoded : String → Fields → Fault → Result Bytes
  decoded key fs invalid = do
    value ← on_error (λ e. invalid) (at_key key fs)
    or_raise (L.b64decode (L.py_str value)) invalid

  -- Both keys have signed the proposal. A raw signature of another length does not verify.
  unfoldable pub stage_key : Fields → Bytes → AgentState → Result AgentState
  stage_key rotation signer st = do
    let refused = runtime_error "platform key rotation proposal is invalid"
    let unproved = runtime_error "platform key rotation proof is invalid"
    proposal ← or_raise (as_dict (get "proposal" rotation)) refused
    next_key ← or_raise (as_dict (get "next_key" proposal)) refused
    require (is_proposal st.state proposal next_key) refused
    later ←
        is_later (get "key_version" next_key)
          (get_or "platform_command_key_version" (int (pos 0)) st.state)
    require later refused
    next_raw ← decoded "public_key" next_key unproved
    previous_signature ← decoded "previous_key_signature" rotation unproved
    next_signature ← decoded "next_key_signature" rotation unproved
    require
        (length next_raw == 32
          && text_is (L.sha256 next_raw) (get "fingerprint" next_key)
          && text_is (L.sha256 signer) (get "platform_command_key_fingerprint" st.state))
        unproved
    require
        (L.ed25519_verify signer (L.canonical (dict proposal)) previous_signature
          && L.ed25519_verify next_raw (L.canonical (dict proposal)) next_signature)
        unproved
    ok (staging next_key st)

  -- The signer is the pinned key or the staged one.
  abbrev pub is_acknowledged : Fields → Bytes → Bool
  is_acknowledged state signer =
      text_is (L.sha256 signer) (get "platform_command_key_fingerprint" state)
      || (elim (as_dict (get "pending_platform_trust" state)) [
        | none ↦ false
        | some pending ↦ text_is (L.sha256 signer) (get "fingerprint" pending)
      ])

  abbrev pub is_activation : Fields → Fields → Fields → Bytes → Bytes → Bool
  is_activation state payload next_key next_raw signer =
      text_is "Ed25519" (get "algorithm" next_key)
      && same_bytes next_raw signer
      && text_is (L.sha256 signer) (get "fingerprint" next_key)
      && py_eq (get "key_id" next_key) (get "platform_command_key_id" payload)
      && py_eq (get "key_version" next_key) (get "platform_command_key_version" payload)
      && is_acknowledged state signer

  abbrev pub pinned_state : Bytes → Json → Json → Fields → Fields
  pinned_state signer key_id key_version state =
      put "platform_command_key_fingerprint" (str (L.sha256 signer)) (
        put "platform_command_key_version" key_version (put "platform_command_key_id" key_id state))

  -- A descriptor without an identifier is refused here; the source has written the key's file by then.
  unfoldable pub activate_key : Fields → Fields → Bytes → AgentState → Result AgentState
  activate_key payload rotation signer st = do
    let unknown = runtime_error "platform key activation descriptor is invalid"
    next_key ← or_raise (as_dict (get "next_key" rotation)) unknown
    next_raw ← decoded "public_key" next_key unknown
    require (is_activation st.state payload next_key next_raw signer)
        (runtime_error "platform key activation is not acknowledged locally")
    key_id ← at_key "key_id" next_key
    key_version ← at_key "key_version" next_key
    ok (
        unstaged (record {
          state = pinned_state signer key_id key_version st.state;
          key_file = concat (L.strip (L.py_str (get "public_key" next_key))) "\n";
        }))

  unfoldable pub apply_platform_key_rotation : Fields → Bytes → AgentState → Result AgentState
  unfolding stage_key activate_key
  apply_platform_key_rotation payload signer st =
      if is_null (get "platform_key_rotation" payload) then ok (unstaged st) else (do
        rotation ←
            or_raise (as_dict (get "platform_key_rotation" payload))
              (runtime_error "platform key rotation metadata is invalid")
        if text_is "staged" (get "phase" rotation)
            then stage_key rotation signer st
            else if text_is "activated" (get "phase" rotation)
            then activate_key payload rotation signer st
            else err (runtime_error "platform key rotation phase is invalid"))
