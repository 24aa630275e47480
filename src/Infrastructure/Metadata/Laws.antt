-- ===== src/Infrastructure/Metadata/Laws.antt =====
-- What the metadata store relies on of SQLAlchemy and of the database.
use dms_core.Prelude.{
  Text, text_eq, Bool, true, false, not, ◌&&◌, ◌||◌, ltb, ◌==◌, Option, none, some, List, [], ◌∷◌,
  put, remove, any, all, filter, map, take, drop, ◌≡◌, ◌≢◌, if◌then◌else◌, ℕ,
}
use dms_core.Domain.Models.{ReadDateTime, DocumentMetadata}
use dms_core.Domain.Errors.{is_lookup_error, is_integrity_error, is_conflict_error}
use dms_core.Domain.Exec.{Outcome, ok, raised}
use dms_core.Domain.Laws.{Table}
use dms_core.Domain.Order.{IsTextOrder, IsDescending}
use dms_core.Infrastructure.Metadata.{
  Row, Condition, Statement, Sessions, from_domain, map_option, selecting,
}

-- A condition on a row.
unfoldable pub holds : (Text → Text → Bool) → Condition → Row → Bool
holds before (Condition.document_id_is s) r = text_eq r.document_id s
holds before (Condition.partition_type_is s) r = text_eq r.partition_type s
holds before (Condition.partition_id_is s) r = text_eq r.partition_id s
holds before (Condition.status_is s) r = text_eq r.status s
holds before (Condition.document_id_before s) r = before r.document_id s
holds before (Condition.created_before t) r = ltb r.created_at.ticks t.ticks
holds before (Condition.created_at_is t) r = r.created_at.ticks == t.ticks
holds before (Condition.status_not_in l) r = not (any (text_eq r.status) l)
holds before (Condition.both c d) r = holds before c r && holds before d r
holds before (Condition.either c d) r = holds before c r || holds before d r

-- A time stamp as the database gives it back, with a time zone or without one.
abbrev pub again : Bool → ReadDateTime → ReadDateTime
again aware v = record { aware = aware; ticks = v.ticks }

unfoldable pub read_back : Bool → Row → Row
read_back aware r = record r {
  created_at = again aware r.created_at;
  updated_at = again aware r.updated_at;
  deleted_at = map_option (again aware) r.deleted_at;
}

-- The document with an identifier.
unfoldable pub by_id : List DocumentMetadata → Table
by_id [] id = none
by_id (m ∷ l) id = if text_eq m.document_id id then some m else by_id l id

unfoldable pub selects : (Text → Text → Bool) → List Condition → DocumentMetadata → Bool
selects before conditions m = all (λ c. holds before c (from_domain m)) conditions

abbrev pub limited : Option ℕ → List DocumentMetadata → List DocumentMetadata
limited none l = l
limited (some n) l = take n l

module _ {D : Type 0} (documents : D → List DocumentMetadata) where
  abbrev pub Kept : D → D → Type 0
  Kept d d' = documents d' ≡ documents d

  abbrev pub Scalar :
      (Text → Text → Bool) → Bool → List Condition → D → Outcome (Option Row) × D → Type 0
  Scalar before aware conditions d (ok none, d') =
      ((id : Text) (m : DocumentMetadata)
        → by_id (documents d) id ≡ some m
        → selects before conditions m ≡ false)
      × Kept d d'
  Scalar before aware conditions d (ok (some r), d') =
      (m : DocumentMetadata) × (r ≡ read_back aware (from_domain m))
      × (by_id (documents d) m.document_id ≡ some m)
      × (selects before conditions m ≡ true)
      × Kept d d'
  Scalar before aware conditions d (raised e, d') = (is_lookup_error e ≡ false) × Kept d d'

  abbrev pub Scalars : (Text → Text → Bool) → Bool → Statement → D → Outcome (List Row) × D → Type 0
  Scalars before aware q d (ok rows, d') =
      (rows
        ≡ map (λ m. read_back aware (from_domain m))
            (limited q.limit (drop q.offset (filter (selects before q.conditions) (documents d)))))
      × Kept d d'
  Scalars before aware q d (raised e, d') = Kept d d'

  abbrev pub Adds : DocumentMetadata → D → Outcome (Unit {0}) × D → Type 0
  Adds m d (ok _, d') =
      (by_id (documents d) m.document_id ≡ none)
      × (by_id (documents d') ≡ put (by_id (documents d)) m.document_id m)
  Adds m d (raised e, d') =
      (is_conflict_error e ≡ false)
      × (is_integrity_error e ≡ true → by_id (documents d) m.document_id ≢ none)

  abbrev pub Merges : DocumentMetadata → D → Outcome (Unit {0}) × D → Type 0
  Merges m d (ok _, d') = by_id (documents d') ≡ put (by_id (documents d)) m.document_id m
  Merges m d (raised e, d') = Unit

  abbrev pub Deletes : Row → D → Outcome (Unit {0}) × D → Type 0
  Deletes r d (ok _, d') = by_id (documents d') ≡ remove (by_id (documents d)) r.document_id
  Deletes r d (raised e, d') = Unit

  abbrev pub GetsRow : Text → D → Outcome (Option Row) × D → Type 0
  GetsRow id d (ok none, d') = (by_id (documents d) id ≡ none) × Kept d d'
  GetsRow id d (ok (some r), d') = (by_id (documents d) id ≢ none) × Kept d d'
  GetsRow id d (raised e, d') = Kept d d'

-- The database holds rows that the store has written: `documents` are those that they were made
-- from, newest first. An exception of the database is none that the store itself raises.
pub record SessionsLaws {D : Type 0} (sessions : Sessions D) : Type 0 where
  pub documents : D → List DocumentMetadata
  pub before : Text → Text → Bool
  pub order : IsTextOrder before
  pub descends : (d : D) → IsDescending before (documents d)
  pub aware : Bool
  pub scalar :
      (conditions : List Condition) (d : D)
      → Scalar documents before aware conditions d (sessions.scalar (selecting conditions) d)
  pub scalars :
      (q : Statement) (d : D)
      → q.newest_first ≡ true
      → Scalars documents before aware q d (sessions.scalars q d)
  pub get : (id : Text) (d : D) → GetsRow documents id d (sessions.get id d)
  pub adds : (m : DocumentMetadata) (d : D) → Adds documents m d (sessions.add (from_domain m) d)
  pub merges :
      (m : DocumentMetadata) (d : D) → Merges documents m d (sessions.merge (from_domain m) d)
  pub deletes : (r : Row) (d : D) → Deletes documents r d (sessions.delete r d)
  pub numbers : (d : D) → documents (sessions.next_id d).1 ≡ documents d
