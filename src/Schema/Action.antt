-- ===== src/Schema/Action.antt =====
-- `RemediationActionResponse` and its parts (apps/api/lsa/schemas.py): a reviewed catalog action.
-- Parameters, preconditions, validation and impact are read by no modelled code on the platform and
-- are kept as documents.
use lsa.Base.{ℕ, String, Bool, Option, List}
use lsa.Json.{Json}

pub data OperationKind : Type 0 where
  config_setting restore_backup service_reload sysctl_reload sysctl_setting : OperationKind

pub record Operation : Type 0 where
  pub kind : OperationKind
  pub resource : String
  pub path : Option String
  pub format : Option String
  pub key : Option String
  pub value_from : Option String
  pub backup_required : Bool

pub record SystemSupport : Type 0 where
  pub family : String
  pub versions : List String

pub record Action : Type 0 where
  pub action_id : String
  pub version : ℕ
  pub digest : String
  pub control_ids : List String
  pub title : String
  pub description : String
  pub supported_systems : List SystemSupport
  pub risk : String
  pub parameters : List Json
  pub preconditions : List Json
  pub operations : List Operation
  pub validation : List Json
  pub rollback : List Operation
  pub impact : Json
