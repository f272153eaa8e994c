-- ===== src/ChangeSets/Binding.antt =====
-- What the integrity check of a change set establishes.
use lsa.Base.{true, ◌≡◌, List, some, All, string_eq, nat_eq, ok}
use lsa.Json.{Fields, dict, last_by}
use lsa.Library.{Library, digest_of}
use lsa.Schema.Plans.{RemediationPlan}
use lsa.Schema.ChangeSets.{RemediationChangeSet, RemediationChangeSetPlan}
use lsa.Schema.Database.{Db, get_plan}
use lsa.ChangeSets.Integrity.{
  Operational, plan_links, same_plan, safeguards_of, safeguards_hold, identity_holds,
  envelope_records, operational_values,
}

-- The plan of a link is still the one that the envelope records.
abbrev pub IsRecorded : Db → List Fields → RemediationChangeSetPlan → Type 0
IsRecorded db records link =
    (plan : RemediationPlan) × (item : Fields) × (get_plan db link.plan_id ≡ some plan)
    × (last_by "plan_id" link.plan_id records ≡ some item)
    × (same_plan item plan ≡ true)

pub record Bound (L : Library) (db : Db) (cs : RemediationChangeSet) : Type 0 where
  pub digest : digest_of L (dict cs.payload) ≡ cs.digest
  pub safeguards : Fields
  pub has_safeguards : safeguards_of cs.payload ≡ some safeguards
  pub identity : identity_holds cs ≡ true
  pub safe : safeguards_hold safeguards ≡ true
  pub values : Operational
  pub signed_values : operational_values L cs ≡ ok values
  pub starts : values.start ≡ cs.maintenance_window_start
  pub ends : values.finish ≡ cs.maintenance_window_end
  pub batch_size : values.batch_size ≡ cs.batch_size
  pub batch_interval : values.batch_interval ≡ cs.batch_interval_minutes
  pub records : List Fields
  pub has_records : envelope_records cs "plans" ≡ ok records
  pub plans : All (IsRecorded db records) (plan_links db cs)
