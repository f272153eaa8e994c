-- ===== src/Catalog.antt =====
-- The reviewed action catalog (apps/api/lsa/services/remediation_catalog.py): digests of stored
-- snapshots, and the action that fits a control on a system. The catalog that
-- `load_remediation_catalog` reads from its data file is an argument.
use lsa.Base.{
  concat, String, Bool, ◌&&◌, ◌||◌, List, [], ◌∷◌, Option, none, some, ltb, if◌then◌else◌, ◌==◌,
  ◌!=◌, string_eq, nat_eq, contains, any, select, length, Result, ok, err, catalog_error, ◌>>=◌,
  ◌>>◌, raise_if, or_raise,
}
use lsa.Json.{Json, dict, without}
use lsa.Library.{Library}
use lsa.Schema.Action.{Action}

unfoldable pub action_digest : Library → Action → String
action_digest L a = L.sha256 (
    L.canonical
      (dict (without ("digest" ∷ "execution_enabled" ∷ "execution_status" ∷ []) (L.dump_action a))))

unfoldable pub validate_action_snapshot : Library → Json → String → Result Action
validate_action_snapshot L snapshot expected = do
  a ← or_raise (L.load_action snapshot) (catalog_error "Invalid stored remediation action snapshot")
  raise_if (a.digest != expected || action_digest L a != expected)
      (catalog_error "Stored remediation action snapshot digest does not match")
  ok a

-- The dict `latest`, by action id in the order of first insertion.
abbrev insert_latest : Action → List Action → List Action
insert_latest a [] = a ∷ []
insert_latest a (b ∷ latest) =
    let rest = insert_latest a latest in
    if a.action_id == b.action_id
    then (if ltb b.version a.version then a ∷ latest else b ∷ latest)
    else b ∷ rest

abbrev insert_all : List Action → List Action → List Action
insert_all [] latest = latest
insert_all (a ∷ actions) latest = insert_all actions (insert_latest a latest)

-- Only membership and the number of fitting actions are read, so the final sort is left out.
unfoldable pub latest_remediation_actions : List Action → List Action
latest_remediation_actions catalog = insert_all catalog []

unfoldable pub action_supports : Library → Action → String → String → Bool
action_supports L a os_family os_version =
    let family = L.lower (L.strip os_family) in
    let version = L.strip os_version in
    any (λ support. L.lower support.family == family && contains support.versions version)
      a.supported_systems

abbrev single : String → List Action → Result (String × Option Action)
single detail (a ∷ []) = ok ("matched", some a)
single detail _ = err (catalog_error detail)

abbrev ambiguity : String → String → String → String
ambiguity control_id os_family os_version =
    concat "Multiple current actions match "
      (concat control_id (concat " on " (concat os_family (concat " " os_version))))

unfoldable pub match_remediation_action :
    Library → List Action → String → String → String → Result (String × Option Action)
match_remediation_action L catalog control_id os_family os_version =
    let candidates =
      select (λ (a : Action). contains a.control_ids control_id)
        (latest_remediation_actions catalog) in
    let supported = select (λ (a : Action). action_supports L a os_family os_version) candidates in
    if length candidates == 0
    then ok ("not_cataloged", none)
    else if length supported == 0
    then ok ("unsupported_system", none)
    else single (ambiguity control_id os_family os_version) supported
