-- ===== src/Scenario/Creation.antt =====
-- The fleet before there is a change set, and the request for one.
use lsa.Base.{[], ◌∷◌, string_eq}
use lsa.Library.{minutes, aware}
use lsa.Schema.Database.{Db}
use lsa.ChangeSets.Creation.Scope.{ChangeSetRequest}
use lsa.ChangeSets.Creation.{Generated}
use lsa.Scenario.Envelope.{fleet}

abbrev pub idle_fleet : Db
idle_fleet = record fleet { change_sets = []; plan_links = []; target_links = [] }

abbrev pub made : Generated
made = record {
  change_set_id = "cs1";
  plan_link_id = λ id. "l1";
  target_link_id = λ id. "l2";
  linked_at = λ id. 2002;
}

abbrev pub asked_for : ChangeSetRequest
asked_for = record {
  plan_ids = "pl1" ∷ [];
  canary_host_ids = "h1" ∷ [];
  maintenance_window_start = record { moment = aware (minutes 60); isoformat = "start" };
  maintenance_window_end = record { moment = aware (minutes 120); isoformat = "end" };
  batch_size = 1;
  batch_interval_minutes = 15;
}
