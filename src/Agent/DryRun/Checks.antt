-- ===== src/Agent/DryRun/Checks.antt =====
-- agent/remediation_contract.py: the checks of dry_run_remediation_contract on one item. What the host shows
-- is a parameter.
use lsa.Base.{
  concat, ℕ, String, Bool, true, false, ◌&&◌, not, List, [], ◌∷◌, string_eq, any, contains,
  if◌then◌else◌, pos, Result, ok, err, type_error, attribute_error, ◌>>=◌, ◌>>◌, or_raise,
}
use lsa.Json.{
  Json, Fields, bool, int, str, list, dict, elems, at_key, is_null, is_text, text_is, truthy,
  in_set, text_in, mem_eq, as_dict, as_text,
}
use lsa.Library.{Library}
use lsa.Agent.Contract.Preview.{hashable}

-- What pathlib answers about a reviewed path.
pub record Probe : Type 0 where
  pub resolves_inside : Bool
  pub parent : String
  pub parent_is_dir : Bool
  pub exists : Bool
  pub is_file : Bool

-- The host: the answers of its readers, of `command_lookup` and of its file system.
pub record Host : Type 0 where
  pub family : String
  pub version : String
  pub packages : List String
  pub lookup : String → Bool
  pub probe : String → Probe
  -- `str(_mapped_path(root, "/proc/sys/" + key.replace(".", "/")))`
  pub kernel_path : String → String
  pub is_readable : String → Bool

-- A check that `_append_check` records.
pub record Check : Type 0 where
  pub code : String
  pub passed : Bool
  pub detail : String

pub record ActionResult : Type 0 where
  pub plan_id : Json
  pub action_digest : Json
  pub checks : List Check

abbrev is_word : Bool → String
is_word b = if b then "is" else "is not"

-- `v in values` of two documents
abbrev json_in : Json → Json → Result Bool
json_in (str s) values = text_in s values
json_in v (list xs) = ok (mem_eq v (elems xs))
json_in v (dict fs) = hashable v >> ok false
json_in v values = err type_error

abbrev pub path_preflight : String → Probe → Bool × String
path_preflight path p =
    if not p.resolves_inside
    then (false, concat path " resolves outside the reviewed /etc boundary")
    else if not p.parent_is_dir
    then (false, concat "Parent directory " (concat p.parent " is unavailable"))
    else if p.exists && not p.is_file
    then (false, concat path " is not a regular configuration file")
    else (true, concat path " and its parent remain inside the reviewed /etc boundary")

abbrev package_names : Json → List String
package_names resource = if text_is "openssh_server" resource then "openssh-server" ∷ [] else []

module _ (L : Library) (host : Host) where
  abbrev numbered_code : String → ℕ → String
  numbered_code prefix i = concat prefix (L.py_str (int (pos i)))

  abbrev is_version : Json → Fields → Result Bool
  is_version family fs =
      if text_is host.family family
      then (do versions ← at_key "versions" fs; text_in host.version versions)
      else ok false

  unfoldable pub is_supported : List Json → Result Bool
  is_supported [] = ok false
  is_supported (item ∷ rest) =
      let later = is_supported rest in
      do
        fs ← or_raise (as_dict item) type_error
        family ← at_key "family" fs
        here ← is_version family fs
        if here then ok true else later

  abbrev pub support_check : Bool → Check
  support_check supported = record {
    code = "supported_system";
    passed = supported;
    detail = concat "Detected " (
        concat host.family (
          concat " " (
            concat host.version
              (concat "; action support " (if supported then "matches" else "does not match")))));
  }

  abbrev is_typed : Json → Json → Result Bool
  is_typed kind (bool b) =
      if text_is "boolean" kind
      then ok true
      else (do among ← in_set kind ("enum" ∷ "string" ∷ []); ok false)
  is_typed kind (int n) =
      if text_is "integer" kind
      then ok true
      else (do among ← in_set kind ("enum" ∷ "string" ∷ []); ok false)
  is_typed kind default = do
    among ← in_set kind ("enum" ∷ "string" ∷ [])
    ok (among && is_text default)

  abbrev pub parameter_check : ℕ → Fields → Result Check
  parameter_check i parameter = do
    default ← at_key "default" parameter
    kind ← at_key "type" parameter
    typed ← is_typed kind default
    values ← at_key "allowed_values" parameter
    allowed ← (if truthy values then json_in default values else ok true)
    given ←
        (if typed && allowed && is_null default
          then (do required ← at_key "required" parameter; ok (not (truthy required)))
          else ok true)
    name ← at_key "name" parameter
    ok (record {
      code = numbered_code "parameter_" i;
      passed = typed && allowed && given;
      detail = concat "Parameter " (concat (L.py_str name) " uses its reviewed typed default");
    })

  abbrev is_installed : Json → Bool
  is_installed resource = any (contains host.packages) (package_names resource)

  -- Whether a precondition holds, and the detail of its check.
  abbrev pub precondition_verdict : Fields → Json → Json → Result (Bool × String)
  precondition_verdict precondition kind resource =
      if text_is "command_available" kind
      then (do
        program ← or_raise (as_text resource) type_error
        ok (
          host.lookup program,
          concat "Required program "
              (concat program (concat " " (concat (is_word (host.lookup program)) " available"))),
        ))
      else if text_is "package_present" kind
      then (do
        hashed ← hashable resource
        ok (
          is_installed resource,
          concat "Required package resource " (
              concat (L.py_str resource)
                (concat " " (concat (is_word (is_installed resource)) " installed"))),
        ))
      else if text_is "manual_confirmation" kind
      then (do
        description ← at_key "description" precondition
        ok (false, concat "Manual confirmation is still required: " (L.py_str description)))
      else ok
          (false, concat "Host-role exclusion requires operator confirmation: " (L.py_str resource))

  abbrev pub precondition_check : ℕ → Fields → Result Check
  precondition_check i precondition = do
    kind ← at_key "kind" precondition
    resource ← at_key "resource" precondition
    verdict ← precondition_verdict precondition kind resource
    ok (record { code = numbered_code "precondition_" i; passed = verdict.0; detail = verdict.1 })

  abbrev reload_program : Json → String
  reload_program kind = if text_is "service_reload" kind then "systemctl" else "sysctl"

  abbrev pub reload_verdict : Json → Bool → Bool × String
  reload_verdict kind true = (
    host.lookup (reload_program kind),
    concat "Required reload interface " (
        concat (reload_program kind)
          (concat " " (concat (is_word (host.lookup (reload_program kind))) " available"))),
  )
  reload_verdict kind false =
      (false, concat "Operation " (concat (L.py_str kind) " has no reviewed local resource"))

  abbrev pub operation_verdict : Json → Json → Result (Bool × String)
  operation_verdict kind path =
      if is_null path
      then (do
        reloads ← in_set kind ("service_reload" ∷ "sysctl_reload" ∷ [])
        ok (reload_verdict kind reloads))
      else (do
        file ← or_raise (as_text path) attribute_error
        ok (path_preflight file (host.probe file)))

  abbrev pub operation_check : ℕ → Fields → Result Check
  operation_check i operation = do
    kind ← at_key "kind" operation
    path ← at_key "path" operation
    verdict ← operation_verdict kind path
    ok (record { code = numbered_code "operation_" i; passed = verdict.0; detail = verdict.1 })

  abbrev interface_of : Json → Result String
  interface_of resource =
      if text_is "openssh_server" resource
      then ok "sshd"
      else or_raise (as_text resource) type_error

  abbrev validation_verdict : Fields → Json → Result (Bool × String)
  validation_verdict validation kind =
      if text_is "effective_setting" kind
      then (do
        resource ← at_key "resource" validation
        program ← interface_of resource
        ok (
          host.lookup program,
          concat "Validation interface "
              (concat program (concat " " (concat (is_word (host.lookup program)) " available"))),
        ))
      else (do
        key ← at_key "key" validation
        name ← or_raise (as_text key) attribute_error
        let file = host.kernel_path name
        ok (
          host.is_readable file,
          concat "Kernel validation path "
              (concat file (concat " " (concat (is_word (host.is_readable file)) " readable"))),
        ))

  abbrev pub validation_check : ℕ → Fields → Result Check
  validation_check i validation = do
    kind ← at_key "kind" validation
    verdict ← validation_verdict validation kind
    ok (record { code = numbered_code "validation_" i; passed = verdict.0; detail = verdict.1 })
