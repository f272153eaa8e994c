-- ===== src/Agent/Runtime.antt =====
-- agent/lsa_agent.py: the answers of the platform that the agent takes up, and the policy versions. What
-- the agent keeps is its state file, a document, and the file of the pinned platform key.
pub mod Envelope
pub mod Rotation
pub mod Control
pub mod Replay
pub mod Policies
pub mod Cycle
pub mod Frame
pub mod Rollback
pub mod Tests
use lsa.Base.{
  ℕ, String, Bool, true, false, List, [], ◌∷◌, Option, none, some, ltb, leb, length, ◌==◌, nat_eq,
  string_eq, Result, ok, err, runtime_error, ◌>>=◌, ◌>>◌, raise_if, require, or_raise,
  if◌then◌else◌, pos, ◌&&◌,
}
use lsa.Json.{Json, Fields, int, get, get_or, put}
use lsa.Library.{Library, Bytes}

pub record AgentState : Type 0 where
  pub state : Fields
  pub key_file : String

-- `load_platform_command_key`, of the file's text
unfoldable pub load_platform_command_key : Library → String → Result Bytes
load_platform_command_key L text = do
  let invalid = runtime_error "pinned platform identity is invalid"
  raw ← or_raise (L.b64decode (L.strip text)) invalid
  require (length raw == 32) invalid
  ok raw

-- `isinstance(v, int) and not isinstance(v, bool) and v >= low`
abbrev pub at_least : ℕ → Json → Option ℕ
at_least low (int (pos n)) = if leb low n then some n else none
at_least low _ = none

abbrev pub max : ℕ → ℕ → ℕ
max a b = if ltb a b then b else a

-- `accept_policy_version`
unfoldable pub accept_policy_version : Fields → Fields → Result (ℕ × Fields)
accept_policy_version state policy = do
  value ←
      or_raise (at_least 1 (get "policy_version" policy))
        (runtime_error "server returned an invalid policy version")
  highest ←
      or_raise
        (at_least 0
          (get_or "highest_policy_version" (get_or "policy_version" (int (pos 0)) state) state))
        (runtime_error "local policy rollback state is invalid")
  raise_if (ltb value highest) (runtime_error "policy rollback rejected")
  ok (
    value,
    put "highest_policy_version" (int (pos (max value highest)))
        (put "policy_version" (int (pos value)) state),
  )
