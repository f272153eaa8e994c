-- ===== src/Agent/Runtime/Cycle.antt =====
-- The part of `agent_cycle` (agent/lsa_agent.py) that concerns policies: the state is read from its file, the
-- policy is asked for and accepted in memory, and the heartbeat's answer brings the state to the file. The other
-- requests of the cycle come after it: each answer that is taken up brings the state to the file again. What
-- else they and the scan record in it are keys of their own, which are left out.
use lsa.Base.{ℕ, Bool, true, false, List, [], ◌∷◌, Option, none, some, Result, ok, err}
use lsa.Json.{Json, Fields}
use lsa.Library.{Library}
use lsa.Agent.Runtime.{AgentState, accept_policy_version}
use lsa.Agent.Runtime.Control.{signed_control}
use lsa.Agent.Runtime.Replay as Replay
use lsa.Agent.Runtime.Replay.{Answer}

-- The answers to the two requests, at their times, and those to the requests after them. A request that fails gives a document that is refused.
pub record Exchange : Type 0 where
  pub asked_at : ℕ
  pub policy : Json
  pub reported_at : ℕ
  pub heartbeat : Json
  pub others : List Answer

-- The file after the cycle, the policy version that was accepted, and whether the heartbeat went through.
pub record Outcome : Type 0 where
  pub file : AgentState
  pub accepted : Option ℕ
  pub reported : Bool

module _ (L : Library) (x : Exchange) where
  abbrev pub after_heartbeat : AgentState → ℕ → Result (Fields × AgentState) → Outcome
  after_heartbeat file version (ok (answer, st)) = record {
    file = Replay.run L x.others st;
    accepted = some version;
    reported = true;
  }
  after_heartbeat file version (err e) = record {
    file = file;
    accepted = some version;
    reported = false;
  }

  abbrev pub after_accept : AgentState → Result (ℕ × Fields) → Outcome
  after_accept file (ok (version, state)) =
      after_heartbeat file version (
        signed_control L x.reported_at "agent-heartbeat" x.heartbeat
          (record file { state = state }))
  after_accept file (err e) = record { file = file; accepted = none; reported = false }

  abbrev pub after_policy : AgentState → Result (Fields × AgentState) → Outcome
  after_policy file (ok (policy, st)) = after_accept st (accept_policy_version st.state policy)
  after_policy file (err e) = record { file = file; accepted = none; reported = false }

  unfoldable pub agent_cycle : AgentState → Outcome
  agent_cycle file = after_policy file (signed_control L x.asked_at "agent-policy" x.policy file)

-- Any sequence of cycles, each of which starts from the file.
unfoldable pub run : Library → List Exchange → AgentState → AgentState
unfolding agent_cycle
run L [] file = file
run L (x ∷ xs) file = run L xs (agent_cycle L x file).file
