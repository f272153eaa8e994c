-- ===== src/Schema/Fleet.antt =====
-- Users, hosts, agents, groups, policies and signing keys (apps/api/lsa/models.py).
use lsa.Base.{ℕ, String, Option, List}
use lsa.Json.{Fields}

-- The columns of `User` that the handlers read.
pub record User : Type 0 where
  pub id : String
  pub tenant_id : String
  pub role : String
  pub display_name : String

pub record Host : Type 0 where
  pub id : String
  pub tenant_id : String
  pub hostname : String
  pub machine_id_hash : String
  pub operating_system : String
  pub os_family : String
  pub os_version : String
  pub last_scan_at : Option ℕ
  pub deleted_at : Option ℕ

pub data PolicyMode : Type 0 where
  disabled audit manual remediate : PolicyMode

abbrev pub mode_value : PolicyMode → String
mode_value disabled = "disabled"
mode_value audit = "audit"
mode_value manual = "manual"
mode_value remediate = "remediate"

pub record AgentPolicy : Type 0 where
  pub id : String
  pub tenant_id : String
  pub name : String

pub record AgentPolicyVersion : Type 0 where
  pub id : String
  pub tenant_id : String
  pub policy_id : String
  pub version : ℕ
  pub default_mode : PolicyMode
  pub control_modes : Fields
  pub settings : Fields

pub record AgentGroup : Type 0 where
  pub id : String
  pub tenant_id : String
  pub policy_id : String
  pub name : String

pub record LinuxAgent : Type 0 where
  pub id : String
  pub tenant_id : String
  pub host_id : String
  pub group_id : String
  pub name : String
  pub public_key : String
  pub fingerprint : String
  pub agent_version : String
  pub capabilities : List String
  pub capabilities_attested_at : Option ℕ
  pub platform_command_key_id : Option String
  pub platform_command_key_fingerprint : Option String
  pub pending_platform_command_key_id : Option String
  pub pending_platform_command_key_fingerprint : Option String
  pub platform_envelope_sequence : ℕ
  pub last_seen_at : Option ℕ
  pub revoked_at : Option ℕ

pub record PlatformCommandSigningKey : Type 0 where
  pub id : String
  pub tenant_id : String
  pub key_version : ℕ
  pub public_key : String
  pub private_key_ciphertext : String
  pub fingerprint : String
  pub status : String
  pub supersedes_key_id : Option String
  pub created_at : ℕ
  pub revoked_at : Option ℕ

pub record PlatformChangeSigningKey : Type 0 where
  pub id : String
  pub tenant_id : String
  pub name : String
  pub public_key : String
  pub private_key_ciphertext : String
  pub fingerprint : String
  pub revoked_at : Option ℕ
  pub created_at : ℕ
