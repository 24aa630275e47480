-- ===== src/Domain/Laws.antt =====
-- What the services rely on of a store: how each call, whether it returns or raises, relates the
-- table of documents or the bucket before and after it.
use dms_core.Prelude.{
  Text, Bool, true, Option, none, some, View, put, remove, is_some, ◌≡◌, ◌≢◌, if◌then◌else◌,
  Option-cases, inl, inr, arith, List, take, drop, filter, ◌&&◌, ◌++◌, concat,
}
use dms_core.Domain.Models.{
  DocumentMetadata, DocumentPartition, DocumentStatus, partition_eq, partition_eq_iff,
}
use dms_core.Domain.Errors.{is_lookup_error, is_conflict_error}
use dms_core.Domain.Exec.{Outcome, ok, raised}
use dms_core.Domain.Interfaces.{
  Bytes, PutObjectRequest, PutObjectStreamRequest, StreamedPut, StoredObject, StoredObjectStream,
  MetadataStore, ObjectStore, PageQuery, ListQuery,
}
use dms_core.Domain.Order.{Position, IsTextOrder, is_listed, is_after, IsDescending}

abbrev pub Table : Type 0
Table = View DocumentMetadata

abbrev pub Bucket : Type 0
Bucket = View StoredObject

-- The document under an identifier, if it is in the partition.
unfoldable pub found : Table → Text → DocumentPartition → Option DocumentMetadata
found t id p = elim (t id) [
  | none ↦ none
  | some m ↦ if partition_eq m.partition p then some m else none
]

pub found-partition :
    (t : Table) (id : Text) (p : DocumentPartition) (m : DocumentMetadata)
    → found t id p ≡ some m
    → m.partition ≡ p
unfolding found
found-partition t id p m h = elim (Option-cases (t id)) [
  | inl e ↦ cc (rw (e, found) at h)
  | inr (m', e) ↦ ground (arith, partition_eq_iff m'.partition p)
]

-- How the calls of a metadata store may end, from a table `t`. A call that raises has left the
-- table alone: its transaction is rolled back.
module _ {D : Type 0} (table : D → Table) (t : Table) where
  abbrev pub Saves : DocumentMetadata → Outcome DocumentMetadata × D → Type 0
  Saves m (ok saved, d) = (saved ≡ m) × (t m.document_id ≡ none) × (table d ≡ put t m.document_id m)
  Saves m (raised e, d) = (is_conflict_error e ≡ true → t m.document_id ≢ none) × (table d ≡ t)

  abbrev pub Updates : DocumentMetadata → Outcome DocumentMetadata × D → Type 0
  Updates m (ok updated, d) =
      (updated ≡ m) × (found t m.document_id m.partition ≢ none) × (table d ≡ put t m.document_id m)
  Updates m (raised e, d) = table d ≡ t

  abbrev pub Gets : Text → DocumentPartition → Outcome DocumentMetadata × D → Type 0
  Gets id p (ok m, d) = (found t id p ≡ some m) × (m.document_id ≡ id) × (table d ≡ t)
  Gets id p (raised e, d) = (is_lookup_error e ≡ true → found t id p ≡ none) × (table d ≡ t)

  abbrev pub MarksDeleted : Text → DocumentPartition → Outcome DocumentMetadata × D → Type 0
  MarksDeleted id p (ok m, d) =
      (m.status ≡ DocumentStatus.deleted)
      × (m.partition ≡ p)
      × (is_some m.deleted_at ≡ true)
      × (found t id p ≢ none)
      × (table d ≡ put t id m)
  MarksDeleted id p (raised e, d) = table d ≡ t

  abbrev pub HardDeletes : Text → DocumentPartition → Outcome (Unit {0}) × D → Type 0
  HardDeletes id p (ok _, d) = (found t id p ≢ none) × (table d ≡ remove t id)
  HardDeletes id p (raised e, d) = table d ≡ t

  abbrev pub Tests : Text → Outcome Bool × D → Type 0
  Tests id (ok b, d) = (b ≡ is_some (t id)) × (table d ≡ t)
  Tests id (raised e, d) = table d ≡ t

  abbrev pub Allocates : Outcome Text × D → Type 0
  Allocates (ok id, d) = (t id ≡ none) × (table d ≡ t)
  Allocates (raised e, d) = table d ≡ t

pub record MetadataStoreLaws {D : Type 0} (store : MetadataStore D) : Type 0 where
  pub table : D → Table
  pub saves : (m : DocumentMetadata) (d : D) → Saves table (table d) m (store.save_metadata m d)
  pub updates :
      (m : DocumentMetadata) (d : D) → Updates table (table d) m (store.update_metadata m d)
  pub gets :
      (id : Text) (p : DocumentPartition) (d : D)
      → Gets table (table d) id p (store.get_metadata id p d)
  pub marks_deleted :
      (id : Text) (p : DocumentPartition) (d : D)
      → MarksDeleted table (table d) id p (store.mark_deleted id p d)
  pub hard_deletes :
      (id : Text) (p : DocumentPartition) (d : D)
      → HardDeletes table (table d) id p (store.hard_delete id p d)
  pub tests : (id : Text) (d : D) → Tests table (table d) id (store.exists id d)
  pub allocates : (d : D) → Allocates table (table d) (store.allocate_document_id d)

-- A listing that returns gives `items`; it changes nothing, also where it raises.
abbrev pub Lists :
    {D : Type 0}
    → (D → List DocumentMetadata)
    → D
    → List DocumentMetadata
    → Outcome (List DocumentMetadata) × D
    → Type 0
Lists listing d items (ok l, d') = (l ≡ items) × (listing d' ≡ listing d)
Lists listing d items (raised e, d') = listing d' ≡ listing d

-- What a query for a page gives of a listing.
abbrev pub page_of :
    (Text → Text → Bool)
    → PageQuery
    → Option Position
    → List DocumentMetadata
    → List DocumentMetadata
page_of before q after l = take q.limit (
    filter (λ m. is_listed q.partition q.status q.excluded_statuses m && is_after before after m) l)

-- Where the query starts: with a time stamp and an identifier, or with neither.
abbrev pub StartsAt : PageQuery → Option Position → Type 0
StartsAt q none = (q.after_created_at ≡ none) × (q.after_document_id ≡ none)
StartsAt q (some p) =
    (q.after_created_at ≡ some p.created_at) × (q.after_document_id ≡ some p.document_id)

-- A store lists its documents, newest first, and a page is a part of that listing.
pub record ListingLaws {D : Type 0} (store : MetadataStore D) : Type 0 where
  pub before : Text → Text → Bool
  pub order : IsTextOrder before
  pub listing : D → List DocumentMetadata
  pub descends : (d : D) → IsDescending before (listing d)
  pub pages :
      (q : PageQuery) (after : Option Position) (d : D)
      → StartsAt q after
      → Lists listing d (page_of before q after (listing d)) (store.list_metadata_page q d)
  pub windows :
      (q : ListQuery) (d : D)
      → Lists listing d
          (take q.limit (
            drop q.offset
              (filter (is_listed q.partition q.status q.excluded_statuses) (listing d))))
          (store.list_metadata q d)

-- How the calls of an object store may end, from a bucket `b`. A call that writes under a key and
-- raises may or may not have written there; it has written nowhere else.
module _ {B : Type 0} (bucket : B → Bucket) (b : Bucket) where
  abbrev pub OnlyAt : Text → B → Type 0
  OnlyAt key s = (j : Text) → key ≢ j → bucket s j ≡ b j

  abbrev pub Puts : PutObjectRequest → Outcome Text × B → Type 0
  Puts r (ok key, s) =
      (key ≡ r.storage_key)
      × ((o : StoredObject) × (o.content ≡ r.content)
          × (o.checksum ≡ r.checksum)
          × (bucket s ≡ put b r.storage_key o))
  Puts r (raised e, s) = OnlyAt r.storage_key s

  -- The object has the bytes that were read, which are the first ones of the stream.
  abbrev pub PutsStream : PutObjectStreamRequest → Outcome StreamedPut × B → Type 0
  PutsStream r (ok p, s) =
      (p.storage_key ≡ r.storage_key)
      × ((rest : Bytes) × (r.stream ≡ concat p.reads ++ rest))
      × ((o : StoredObject) × (o.content ≡ concat p.reads) × (bucket s ≡ put b r.storage_key o))
  PutsStream r (raised e, s) = OnlyAt r.storage_key s

  -- What is read is told by the key: the identifier is the caller's.
  abbrev pub GetsObject : Text → Outcome StoredObject × B → Type 0
  GetsObject key (ok o, s) =
      ((stored : StoredObject) × (b key ≡ some stored)
        × (o.content ≡ stored.content)
        × (o.checksum ≡ stored.checksum))
      × (bucket s ≡ b)
  GetsObject key (raised e, s) = bucket s ≡ b

  abbrev pub GetsStream : Text → Outcome StoredObjectStream × B → Type 0
  GetsStream key (ok o, s) =
      ((stored : StoredObject) × (b key ≡ some stored)
        × (o.stream ≡ stored.content)
        × (o.checksum ≡ stored.checksum))
      × (bucket s ≡ b)
  GetsStream key (raised e, s) = bucket s ≡ b

  abbrev pub DeletesObject : Text → Outcome (Unit {0}) × B → Type 0
  DeletesObject key (ok _, s) = bucket s ≡ remove b key
  DeletesObject key (raised e, s) = OnlyAt key s

  abbrev pub TestsObject : Text → Outcome Bool × B → Type 0
  TestsObject key (ok t, s) = (t ≡ is_some (b key)) × (bucket s ≡ b)
  TestsObject key (raised e, s) = bucket s ≡ b

pub record ObjectStoreLaws {B : Type 0} (store : ObjectStore B) : Type 0 where
  pub bucket : B → Bucket
  pub puts : (r : PutObjectRequest) (b : B) → Puts bucket (bucket b) r (store.put_object r b)
  pub puts_stream :
      (r : PutObjectStreamRequest) (b : B)
      → PutsStream bucket (bucket b) r (store.put_object_stream r b)
  pub gets_stream :
      (id key : Text) (b : B) → GetsStream bucket (bucket b) key (store.get_object_stream id key b)
  pub gets : (id key : Text) (b : B) → GetsObject bucket (bucket b) key (store.get_object id key b)
  pub deletes :
      (id key : Text) (b : B) → DeletesObject bucket (bucket b) key (store.delete_object id key b)
  pub tests :
      (id key : Text) (b : B) → TestsObject bucket (bucket b) key (store.object_exists id key b)
