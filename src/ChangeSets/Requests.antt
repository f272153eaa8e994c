-- ===== src/ChangeSets/Requests.antt =====
-- Any sequence of change-set requests, by any users at any times. A request that raises changes nothing.
use lsa.Base.{ℕ, String, List, [], ◌∷◌, Result}
use lsa.Library.{Library}
use lsa.Schema.Fleet.{User, PlatformChangeSigningKey}
use lsa.Schema.Database.{Db}
use lsa.Plans.Requests.{committed}
use lsa.ChangeSets.Creation.Scope.{ChangeSetRequest}
use lsa.ChangeSets.Creation.{Generated, create_change_set}
use lsa.ChangeSets.Decisions.{authorize_change_set, cancel_change_set}

-- The time with `create` and `authorize` is that of a later reading of the clock.
pub data Request : Type 0 where
  create : Generated → ℕ → ChangeSetRequest → Request
  authorize : PlatformChangeSigningKey → ℕ → String → Request
  cancel : String → String → Request

module _ (L : Library) where
  unfoldable pub handle : ℕ → User → Request → Db → Result Db
  handle now user (create made later request) db =
      create_change_set L made now later user request db
  handle now user (authorize generated later id) db =
      authorize_change_set L generated now later user id db
  handle now user (cancel id reason) db = cancel_change_set L now user id reason db

  unfoldable pub serve : List (ℕ × User × Request) → Db → Db
  serve [] db = db
  serve ((now, user, request) ∷ rest) db = serve rest (committed db (handle now user request db))
