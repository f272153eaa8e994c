-- ===== src/Agent/Runtime/Tests.antt =====
-- An answer that the agent takes up and that is sent again, and three cycles.
use lsa.Base.{ℕ, String, some, true, false, ◌≡◌, ◌≢◌, ◌≤◌, refl, [], ◌∷◌, string_eq, pos, ok}
use lsa.Json.{Json, Fields, end, field, null, bool, int, str, list, dict}
use lsa.Library.{minutes}
use lsa.Agent.Runtime.{AgentState, accept_policy_version}
use lsa.Agent.Runtime.Control.{signed_control}
use lsa.Agent.Runtime.Replay.{run, run-no_replay}
use lsa.Agent.Runtime.Cycle as Cycle
use lsa.Agent.Runtime.Cycle.{Exchange, agent_cycle}
use lsa.Agent.Runtime.Rollback.{run-no_rollback}
use lsa.Scenario.{toy, returns, returned, returns-eq-ok}

abbrev policy_payload : ℕ → Fields
policy_payload version = field "agent_id" (str "a1") (
    field "agent_identity_fingerprint" (str "print")
      (field "execution_enabled" (bool false) (field "policy_version" (int (pos version)) end)))

abbrev trust : Fields
trust = field "key_id" (str "k1") (
    field "key_version" (int (pos 1)) (
      field "algorithm" (str "Ed25519")
        (field "public_key" (str "key") (field "fingerprint" (str "digest") end))))

-- A signed answer of a kind, with its sequence number and a policy version.
abbrev answer_of : String → ℕ → ℕ → Json
answer_of kind sequence version =
    let envelope = field "schema_version" (str "1.0") (
      field "kind" (str kind) (
        field "key_id" (str "k1") (
          field "sequence" (int (pos sequence)) (
            field "issued_at" (str "start") (
              field "expires_at" (str "soon") (
                field "agent_id" (str "a1")
                  (field "payload" (dict (policy_payload version)) end))))))) in
    dict (
      field "platform_trust" (dict trust) (
        field "platform_envelope" (dict envelope)
          (field "platform_signature" (str "signature") end)))

abbrev answer : Json
answer = answer_of "agent-policy" 8 3

abbrev at_work : AgentState
at_work = record {
  state = field "agent_id" (str "a1") (
      field "agent_identity_fingerprint" (str "print")
        (field "platform_envelope_sequence" (int (pos 7)) end));
  key_file = "key";
}

abbrev nothing : Fields × AgentState
nothing = (end, at_work)

answer_taken : returns (signed_control toy (minutes 61) "agent-policy" answer at_work) ≡ true
unfolding signed_control string_eq lsa.Agent.Runtime.Control.verify_control_response
    lsa.Agent.Runtime.load_platform_command_key native.Mathlib.Decide.ℕ_discrete
    lsa.Agent.Runtime.Envelope.verify_platform_envelope lsa.Agent.Runtime.Envelope.check_signature
    lsa.Json.py_eq lsa.Agent.Runtime.Envelope.check_sequence
    lsa.Agent.Runtime.Envelope.bound_payload lsa.Agent.Runtime.Rotation.apply_platform_key_rotation
answer_taken = refl

run-no_replay_example :
    signed_control toy (minutes 62) "agent-policy" answer (
      run toy
        ((minutes 61, "agent-policy", answer) ∷ [])
        (returned nothing (signed_control toy (minutes 61) "agent-policy" answer at_work)).1)
    ≢ ok (end, at_work)
run-no_replay_example =
    run-no_replay toy (minutes 61) (minutes 62) "agent-policy" "agent-policy" answer answer at_work
      ((minutes 61, "agent-policy", answer) ∷ []) end at_work
      (returns-eq-ok nothing (signed_control toy (minutes 61) "agent-policy" answer at_work)
        answer_taken)
      refl

abbrev reported_third : Exchange
reported_third = record {
  asked_at = minutes 61;
  policy = answer;
  reported_at = minutes 61;
  heartbeat = answer_of "agent-heartbeat" 9 3;
  others = [];
}

abbrev lost_sixth : Exchange
lost_sixth = record {
  asked_at = minutes 61;
  policy = answer_of "agent-policy" 10 6;
  reported_at = minutes 61;
  heartbeat = null;
  others = [];
}

abbrev fourth : Exchange
fourth = record {
  asked_at = minutes 61;
  policy = answer_of "agent-policy" 11 4;
  reported_at = minutes 61;
  heartbeat = null;
  others = [];
}

third_accepted : (agent_cycle toy reported_third at_work).accepted ≡ some 3
unfolding agent_cycle string_eq signed_control lsa.Agent.Runtime.Control.verify_control_response
    lsa.Agent.Runtime.load_platform_command_key native.Mathlib.Decide.ℕ_discrete
    lsa.Agent.Runtime.Envelope.verify_platform_envelope lsa.Agent.Runtime.Envelope.check_signature
    lsa.Json.py_eq lsa.Agent.Runtime.Envelope.check_sequence
    lsa.Agent.Runtime.Envelope.bound_payload lsa.Agent.Runtime.Rotation.apply_platform_key_rotation
    accept_policy_version
third_accepted = refl

third_reported : (agent_cycle toy reported_third at_work).reported ≡ true
unfolding agent_cycle string_eq signed_control lsa.Agent.Runtime.Control.verify_control_response
    lsa.Agent.Runtime.load_platform_command_key native.Mathlib.Decide.ℕ_discrete
    lsa.Agent.Runtime.Envelope.verify_platform_envelope lsa.Agent.Runtime.Envelope.check_signature
    lsa.Json.py_eq lsa.Agent.Runtime.Envelope.check_sequence
    lsa.Agent.Runtime.Envelope.bound_payload lsa.Agent.Runtime.Rotation.apply_platform_key_rotation
    accept_policy_version
third_reported = refl

-- The sixth version is accepted in between, but its heartbeat is lost, and the fourth is accepted after it.
sixth_accepted :
    (agent_cycle toy lost_sixth (agent_cycle toy reported_third at_work).file).accepted ≡ some 6
unfolding agent_cycle string_eq signed_control lsa.Agent.Runtime.Control.verify_control_response
    lsa.Agent.Runtime.load_platform_command_key native.Mathlib.Decide.ℕ_discrete
    lsa.Agent.Runtime.Envelope.verify_platform_envelope lsa.Agent.Runtime.Envelope.check_signature
    lsa.Json.py_eq lsa.Agent.Runtime.Envelope.check_sequence
    lsa.Agent.Runtime.Envelope.bound_payload lsa.Agent.Runtime.Rotation.apply_platform_key_rotation
    accept_policy_version run
sixth_accepted = refl

fourth_accepted :
    (agent_cycle toy fourth
      (Cycle.run toy (lost_sixth ∷ []) (agent_cycle toy reported_third at_work).file)).accepted
    ≡ some 4
unfolding agent_cycle string_eq Cycle.run signed_control
    lsa.Agent.Runtime.Control.verify_control_response lsa.Agent.Runtime.load_platform_command_key
    native.Mathlib.Decide.ℕ_discrete lsa.Agent.Runtime.Envelope.verify_platform_envelope
    lsa.Agent.Runtime.Envelope.check_signature lsa.Json.py_eq
    lsa.Agent.Runtime.Envelope.check_sequence lsa.Agent.Runtime.Envelope.bound_payload
    lsa.Agent.Runtime.Rotation.apply_platform_key_rotation accept_policy_version run
fourth_accepted = refl

run-no_rollback_example : 3 ≤ 4
run-no_rollback_example =
    run-no_rollback toy reported_third fourth (lost_sixth ∷ []) at_work third_accepted
      third_reported fourth_accepted
