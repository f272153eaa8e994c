-- ===== src/ChangeSets/Fresh.antt =====
-- A change set as it was created, under the integrity check that its authorization makes.
use lsa.Base.{
  ℕ, String, ◌≡◌, refl, List, some, string_eq, pos, true, ◌!=◌, ◌||◌, raise_if, Fault, ◌++◌, [],
  ◌∷◌, nat_eq, ok, arith,
}
use lsa.Json.{Json, Fields, str, int, dict, text_is, get, as_dict}
use lsa.Library.{Library, aware, instant, digest_of}
use lsa.Schema.Fleet.{User}
use lsa.Schema.ChangeSets.{RemediationChangeSet}
use lsa.ChangeSets.Integrity.{
  identity_holds, safeguards_of, safeguards_hold, operational_values, check_identity, check_columns,
}
use lsa.ChangeSets.Creation.Scope.{ChangeSetRequest}
use lsa.ChangeSets.Creation.Envelope.{payload_with, safeguards, window_of, rollout_of}
use lsa.Schema.Database.{Db}
use lsa.ChangeSets.Admission.{create-eq-ok}
use lsa.ChangeSets.Creation.{create_change_set, Generated, new_change_set}

-- `str` of a text is the text, `int` of a number is the number, and `fromisoformat` reads what
-- `isoformat` has printed.
pub record Prints (L : Library) (request : ChangeSetRequest) : Type 0 where
  pub text : (s : String) → L.py_str (str s) ≡ s
  pub number : (n : ℕ) → L.py_int (int (pos n)) ≡ some n
  pub start :
      L.parse_iso request.maintenance_window_start.isoformat
      ≡ some (aware (instant request.maintenance_window_start.moment))
  pub end :
      L.parse_iso request.maintenance_window_end.isoformat
      ≡ some (aware (instant request.maintenance_window_end.moment))

identified :
    (L : Library) (cs : RemediationChangeSet) (signed : Fields)
    → safeguards_of cs.payload ≡ some signed
    → identity_holds cs ≡ true
    → safeguards_hold signed ≡ true
    → check_identity L cs ≡ ok tt
unfolding check_identity
identified L cs signed found holds safe = rw (found, holds, safe) refl

text_is-same : (s : String) → text_is s (str s) ≡ true
text_is-same s = ground arith

identified_by :
    (cs : RemediationChangeSet)
    → cs.payload_schema_version ≡ "1.0"
    → get "schema_version" cs.payload ≡ str "1.0"
    → get "change_set_id" cs.payload ≡ str cs.id
    → get "tenant_id" cs.payload ≡ str cs.tenant_id
    → identity_holds cs ≡ true
identified_by cs version schema id tenant = rw (version, schema, id, tenant) (ground arith)

unchanged : (a b c d : ℕ) (f : Fault) → raise_if (a != a || b != b || c != c || d != d) f ≡ ok tt
unchanged a b c d f = ground arith

-- What the two documents of the payload give, where they are as they were printed.
columns_hold :
    (L : Library) (request : ChangeSetRequest) (cs : RemediationChangeSet)
    → Prints L request
    → as_dict (get "maintenance_window" cs.payload) ≡ some (window_of request)
    → as_dict (get "rollout" cs.payload) ≡ some (rollout_of request)
    → cs.maintenance_window_start ≡ instant request.maintenance_window_start.moment
    → cs.maintenance_window_end ≡ instant request.maintenance_window_end.moment
    → cs.batch_size ≡ request.batch_size
    → cs.batch_interval_minutes ≡ request.batch_interval_minutes
    → check_columns L cs ≡ ok tt
unfolding check_columns operational_values string_eq
columns_hold L request cs prints window rollout starts ends size interval =
    rw
      (
        window, rollout, prints.text, prints.text, prints.start, prints.end, prints.number,
        prints.number, starts, ends, size, interval,
      )
      (unchanged _ _ _ _ _)

module _ (L : Library) (made : Generated) (at : ℕ) (user : User) (request : ChangeSetRequest)
    (plans targets : List Json) where
  abbrev fresh : RemediationChangeSet
  fresh =
      new_change_set L made at user request
        (payload_with L made.change_set_id at user request plans targets)

  fresh_identity : check_identity L fresh ≡ ok tt
  unfolding string_eq
  fresh_identity = identified L fresh safeguards refl (identified_by fresh refl refl refl refl) refl

  fresh_columns : Prints L request → check_columns L fresh ≡ ok tt
  unfolding string_eq
  fresh_columns prints = columns_hold L request fresh prints refl refl refl refl refl refl

-- The row that a creation adds has the digest of its payload, and the integrity check's tests of its
-- identity, its safeguards and its columns return on it, provided that dates and numbers are read back as they
-- were printed.
pub create-fresh :
    (L : Library) (made : Generated) (now at : ℕ) (user : User) (request : ChangeSetRequest)
    (db : Db) {db' : Db}
    → Prints L request
    → create_change_set L made now at user request db ≡ ok db'
    → (cs : RemediationChangeSet) × (db'.change_sets ≡ db.change_sets ++ (cs ∷ []))
      × (cs.id ≡ made.change_set_id)
      × (digest_of L (dict cs.payload) ≡ cs.digest)
      × (check_identity L cs ≡ ok tt)
      × (check_columns L cs ≡ ok tt)
create-fresh L made now at user request db prints e =
    let created = create-eq-ok L made now at user request db e in
    (
      fresh L made at user request created.plan_records created.target_records,
      created.written,
      refl,
      refl,
      fresh_identity L made at user request created.plan_records created.target_records,
      fresh_columns L made at user request created.plan_records created.target_records prints,
    )
