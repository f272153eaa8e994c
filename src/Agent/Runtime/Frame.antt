-- ===== src/Agent/Runtime/Frame.antt =====
-- An answer of the platform leaves the policy versions in the agent's state as they are.
use lsa.Base.{
  length, ◌&&◌, nat_eq, ℕ, String, false, ◌≡◌, refl, sym, ap, ◌∙◌, [], ◌∷◌, ◌==◌, string_eq, pos,
  Result, ok, err, after, after_check, require, or_raise, on_error-eq-ok, Bool-cases, inl, inr,
  ok_lem, Fault, arith,
}
use lsa.Json.{
  Json, Fields, end, field, int, str, dict, get, has, get_or, at_key, put, without, as_dict,
  is_null, text_is,
}
use lsa.Library.{Library, Bytes}
use lsa.Agent.Runtime.{AgentState, load_platform_command_key}
use lsa.Agent.Runtime.Envelope.{verify_platform_envelope}
use lsa.Agent.Runtime.Rotation.{
  stage_key, activate_key, decoded, is_proposal, is_later, is_activation,
  apply_platform_key_rotation, unstaged, pinned_state,
}
use lsa.Agent.Runtime.Control.{
  signed_control, verify_control_response, verify_answer, verification_key,
}
use lsa.Agent.Runtime.Policies.{highest_in}

get-without :
    (k j : String) (fs : Fields) → (k == j) ≡ false → get k (without (j ∷ []) fs) ≡ get k fs
get-without k j end h = refl
get-without k j (field i v fs) h = ground (arith, get-without k j fs h)

has-without :
    (k j : String) (fs : Fields) → (k == j) ≡ false → has k (without (j ∷ []) fs) ≡ has k fs
has-without k j end h = refl
has-without k j (field i v fs) h = ground (arith, has-without k j fs h)

get_or-without :
    (k j : String) (d : Json) (fs : Fields)
    → (k == j) ≡ false
    → get_or k d (without (j ∷ []) fs) ≡ get_or k d fs
get_or-without k j d fs h = rw (has-without k j fs h, get-without k j fs h) refl

get_or-put :
    (k j : String) (d v : Json) (fs : Fields)
    → (k == j) ≡ false
    → get_or k d (put j v fs) ≡ get_or k d fs
get_or-put k j d v fs h = rw h (get_or-without k j d fs h)

-- A key that is none of the two that hold policy versions.
abbrev IsOther : String → Type 0
IsOther j = (("highest_policy_version" == j) ≡ false) × (("policy_version" == j) ≡ false)

highest-put :
    (j : String) (v : Json) (fs : Fields) → IsOther j → highest_in (put j v fs) ≡ highest_in fs
highest-put j v fs h =
    rw (get_or-put "policy_version" j (int (pos 0)) v fs h.1)
      (get_or-put "highest_policy_version" j (get_or "policy_version" (int (pos 0)) fs) v fs h.0)

highest-without :
    (j : String) (fs : Fields) → IsOther j → highest_in (without (j ∷ []) fs) ≡ highest_in fs
highest-without j fs h =
    rw (get_or-without "policy_version" j (int (pos 0)) fs h.1)
      (get_or-without "highest_policy_version" j (get_or "policy_version" (int (pos 0)) fs) fs h.0)

pending-IsOther : IsOther "pending_platform_trust"
unfolding string_eq
pending-IsOther = (refl, refl)

sequence-IsOther : IsOther "platform_envelope_sequence"
unfolding string_eq
sequence-IsOther = (refl, refl)

fingerprint-IsOther : IsOther "platform_command_key_fingerprint"
unfolding string_eq
fingerprint-IsOther = (refl, refl)

version-IsOther : IsOther "platform_command_key_version"
unfolding string_eq
version-IsOther = (refl, refl)

id-IsOther : IsOther "platform_command_key_id"
unfolding string_eq
id-IsOther = (refl, refl)

unstaged_lem : (st : AgentState) → highest_in (unstaged st).state ≡ highest_in st.state
unstaged_lem st = highest-without "pending_platform_trust" st.state pending-IsOther

pinned_lem :
    (L : Library) (signer : Bytes) (key_id key_version : Json) (state : Fields)
    → highest_in (pinned_state L signer key_id key_version state) ≡ highest_in state
pinned_lem L signer key_id key_version state =
    let named = put "platform_command_key_id" key_id state in
    highest-put "platform_command_key_fingerprint" (str (L.sha256 signer))
      (put "platform_command_key_version" key_version named) fingerprint-IsOther
    ∙ highest-put "platform_command_key_version" key_version named version-IsOther
    ∙ highest-put "platform_command_key_id" key_id state id-IsOther

-- Where a step returns a state, its versions are those of another one.
moved_lem :
    (v : Json) {a b : AgentState} → ok a ≡ ok b → highest_in a.state ≡ v → highest_in b.state ≡ v
moved_lem v {a} {b} e h =
    let same : a ≡ b = ok_lem e in ap (λ (s : AgentState). highest_in s.state) (sym same) ∙ h

module _ (L : Library) where
  stage_lem :
      (rotation : Fields) (signer : Bytes) (st : AgentState) {st' : AgentState}
      → stage_key L rotation signer st ≡ ok st'
      → highest_in st'.state ≡ highest_in st.state
  unfolding stage_key
  stage_lem rotation signer st e =
      after (or_raise (as_dict (get "proposal" rotation)) _) _ e λ proposal p e.
        after (or_raise (as_dict (get "next_key" proposal)) _) _ e λ next_key n e.
          after_check (require (is_proposal L st.state proposal next_key) _) _ e λ proposed e.
            after
              (is_later (get "key_version" next_key)
                (get_or "platform_command_key_version" (int (pos 0)) st.state))
              _ e
              λ later l e. after_check (require later _) _ e λ above e.
                after (decoded L "public_key" next_key _) _ e λ next_raw r e.
                  after (decoded L "previous_key_signature" rotation _) _ e λ previous s e.
                    after (decoded L "next_key_signature" rotation _) _ e λ next t e.
                      after_check
                        (require
                          (length next_raw == 32
                            && text_is (L.sha256 next_raw) (get "fingerprint" next_key)
                            && text_is (L.sha256 signer)
                                (get "platform_command_key_fingerprint" st.state))
                          _)
                        _ e
                        λ printed e.
                          after_check
                            (require
                              (L.ed25519_verify signer (L.canonical (dict proposal)) previous
                                && L.ed25519_verify next_raw (L.canonical (dict proposal)) next)
                              _)
                            _ e
                            λ proved e. moved_lem (highest_in st.state) e (
                              highest-put "pending_platform_trust" (dict next_key) st.state
                                pending-IsOther)

  activate_lem :
      (payload rotation : Fields) (signer : Bytes) (st : AgentState) {st' : AgentState}
      → activate_key L payload rotation signer st ≡ ok st'
      → highest_in st'.state ≡ highest_in st.state
  unfolding activate_key
  activate_lem payload rotation signer st e =
      after (or_raise (as_dict (get "next_key" rotation)) _) _ e λ next_key n e.
        after (decoded L "public_key" next_key _) _ e λ next_raw r e.
          after_check (require (is_activation L st.state payload next_key next_raw signer) _) _ e
            λ acknowledged e. after (at_key "key_id" next_key) _ e λ key_id i e.
              after (at_key "key_version" next_key) _ e λ key_version v e.
                moved_lem (highest_in st.state) e (
                  highest-without "pending_platform_trust"
                    (pinned_state L signer key_id key_version st.state) pending-IsOther
                  ∙ pinned_lem L signer key_id key_version st.state)

  rotation_lem :
      (payload : Fields) (signer : Bytes) (st : AgentState) {st' : AgentState}
      → apply_platform_key_rotation L payload signer st ≡ ok st'
      → highest_in st'.state ≡ highest_in st.state
  unfolding apply_platform_key_rotation
  rotation_lem payload signer st e =
      elim (Bool-cases (is_null (get "platform_key_rotation" payload))) [
        | inl none_given ↦ moved_lem (highest_in st.state) (rw none_given at e) (unstaged_lem st)
        | inr given ↦
            after (or_raise (as_dict (get "platform_key_rotation" payload)) _) _ (rw given at e)
              λ rotation r e. elim (Bool-cases (text_is "staged" (get "phase" rotation))) [
                | inl staged ↦ stage_lem rotation signer st (rw staged at e)
                | inr other ↦ elim (Bool-cases (text_is "activated" (get "phase" rotation))) [
                  | inl active ↦ activate_lem payload rotation signer st (rw (other, active) at e)
                  | inr unknown ↦ refused (rw (other, unknown) at e)
                ]
              ]
      ]
    where
      refused : {f : Fault} {a : AgentState} {v w : Json} → err f ≡ ok a → v ≡ w
      refused e = cc

  pub control_lem :
      (now : ℕ) (kind : String) (answer : Json) (st : AgentState) {payload : Fields}
      {st' : AgentState}
      → signed_control L now kind answer st ≡ ok (payload, st')
      → highest_in st'.state ≡ highest_in st.state
  unfolding signed_control verify_control_response verify_answer
  control_lem now kind answer st {st' = st'} e =
      after (verify_control_response L now kind answer st) _ e λ taken verified e.
        after (at_key "platform_envelope_sequence" taken.0) _ e λ sequence known e.
          after (load_platform_command_key L st.key_file) _ verified λ pinned loaded verified.
            after (or_raise (as_dict answer) _) _ (on_error-eq-ok _ _ verified)
              λ result shaped body.
                after (at_key "platform_trust" result) _ body λ trust_value t body.
                  after (or_raise (as_dict trust_value) _) _ body λ trust tt' body.
                    after (verification_key L st.state trust pinned) _ body λ key chosen body.
                      after (at_key "platform_envelope" result) _ body λ envelope v body.
                        after (at_key "platform_signature" result) _ body λ signature s body.
                          after (at_key "agent_identity_fingerprint" st.state) _ body
                            λ identity i body.
                              after
                                (verify_platform_envelope L now kind (L.py_str identity) st.state
                                  envelope signature trust key)
                                _ body
                                λ checked c body.
                                  after (apply_platform_key_rotation L checked key st) _ body
                                    λ rotated applied body.
                                      state_lem sequence taken rotated
                                        (pair_lem (ok (checked, rotated)) refl body)
                                        (pair_lem _ refl e) (rotation_lem checked key st applied)
    where
      pair_lem :
          (r : Result (Fields × AgentState)) {a b : Fields} {s t : AgentState}
          → r ≡ ok (a, s)
          → r ≡ ok (b, t)
          → s ≡ t
      pair_lem r h e = ground arith

      state_lem :
          (v : Json) (taken : Fields × AgentState) (rotated : AgentState)
          → rotated ≡ taken.1
          → record taken.1 { state = put "platform_envelope_sequence" v taken.1.state } ≡ st'
          → highest_in rotated.state ≡ highest_in st.state
          → highest_in st'.state ≡ highest_in st.state
      state_lem v taken rotated same written h =
          ap (λ (a : AgentState). highest_in a.state) (sym written)
          ∙ highest-put "platform_envelope_sequence" v taken.1.state sequence-IsOther
          ∙ ap (λ (a : AgentState). highest_in a.state) (sym same)
          ∙ h
