-- ===== src/Plans/Requests.antt =====
-- Any sequence of plan requests, by any users at any times. A request that raises changes nothing.
use lsa.Base.{ℕ, String, List, [], ◌∷◌, Option, Result, ok, err}
use lsa.Library.{Library}
use lsa.Schema.Action.{Action}
use lsa.Schema.Fleet.{User}
use lsa.Schema.Database.{Db}
use lsa.Plans.{
  create_remediation_plan, approve_remediation_plan, reject_remediation_plan,
  cancel_remediation_plan,
}

pub data Request : Type 0 where
  create : String → String → Option String → Request
  approve : String → Request
  reject : String → String → Request
  cancel : String → String → Request

abbrev pub committed : Db → Result Db → Db
committed db (ok db') = db'
committed db (err e) = db

module _ (L : Library) (catalog : List Action) where
  unfoldable pub handle : ℕ → User → Request → Db → Result Db
  handle now user (create id finding_id rationale) db =
      create_remediation_plan L catalog id now user finding_id rationale db
  handle now user (approve plan_id) db = approve_remediation_plan L now user plan_id db
  handle now user (reject plan_id reason) db = reject_remediation_plan now user plan_id reason db
  handle now user (cancel plan_id reason) db = cancel_remediation_plan now user plan_id reason db

  unfoldable pub serve : List (ℕ × User × Request) → Db → Db
  serve [] db = db
  serve ((now, user, request) ∷ rest) db = serve rest (committed db (handle now user request db))
