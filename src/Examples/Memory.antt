-- ===== src/Examples/Memory.antt =====
-- Stores in memory that meet the laws of the interfaces, so that the theorems can be run. A store
-- that is `down` raises from every call.
pub mod Laws
use dms_core.Prelude.{
  ℕ, suc, Text, codes, text_eq, text_eq_iff, text_eq_refl, Bool, true, false, Option, none, some,
  List, [], ◌∷◌, View, put, remove, is_some, ◌≡◌, fun_ext, arith, if◌then◌else◌, length, filter,
  take, not, refl,
}
use dms_core.Domain.Models.{
  DocumentMetadata, DocumentPartition, DocumentStatus, DateTime, partition_eq, partition_eq_iff,
}
use dms_core.Domain.Errors.{Exc, lookup_error, metadata_conflict_error, other_error}
use dms_core.Domain.Exec.{Outcome, ok, raised, Exec, pure, raise, gets, ◌>>=◌}
use dms_core.Domain.Interfaces.{
  MetadataStore, ObjectStore, PutObjectRequest, StoredObject, PutObjectStreamRequest, StreamedPut,
  StoredObjectStream,
}
use dms_core.Domain.Laws.{Table, found, MetadataStoreLaws, ObjectStoreLaws, Saves}

module _ {V : Type 0} where
  unfoldable pub lookup : List (Text × V) → Text → Option V
  lookup [] j = none
  lookup ((k, v) ∷ l) j = if text_eq k j then some v else lookup l j

  unfoldable pub without : Text → List (Text × V) → List (Text × V)
  without k [] = []
  without k ((i, v) ∷ l) = let rest = without k l in if text_eq i k then rest else (i, v) ∷ rest

  lookup-without_at :
      (k j : Text) (l : List (Text × V)) → lookup (without k l) j ≡ remove (lookup l) k j
  unfolding lookup without
  lookup-without_at k j [] = ground arith
  lookup-without_at k j ((i, v) ∷ l) =
      ground (arith, lookup-without_at k j l, text_eq_iff i k, text_eq_iff i j, text_eq_iff k j)

  pub lookup-without : (k : Text) (l : List (Text × V)) → lookup (without k l) ≡ remove (lookup l) k
  lookup-without k l = fun_ext (λ j. lookup-without_at k j l)

  -- Writing an entry over an old one.
  pub lookup-cons_without :
      (k : Text) (v : V) (l : List (Text × V)) → lookup ((k, v) ∷ without k l) ≡ put (lookup l) k v
  unfolding lookup
  lookup-cons_without k v l = fun_ext (λ j. ground (arith, lookup-without_at k j l))

-- The state of a store: its entries, and whether it can be reached.
pub record Cells (V : Type 0) : Type 0 where
  pub entries : List (Text × V)
  pub next : ℕ
  pub down : Bool

module _ {V : Type 0} where
  abbrev pub view : Cells V → View V
  view s = lookup s.entries

  abbrev pub write : Text → V → Cells V → Cells V
  write k v s = record s { entries = (k, v) ∷ without k s.entries }

  abbrev pub erase : Text → Cells V → Cells V
  erase k s = record s { entries = without k s.entries }

  -- A call that raises when the store is down.
  abbrev pub when_up {ℓ} : {A : Type ℓ} → Exec (Cells V) A → Exec (Cells V) A
  when_up m s = if s.down then (raised (other_error 0), s) else m s

abbrev pub Db : Type 0
Db = Cells DocumentMetadata

-- `datetime.now(UTC)`, frozen.
abbrev pub now : DateTime
now = record { ticks = 1000 }

-- What `get_metadata` gives from what is found.
abbrev checked : Text → Option DocumentMetadata → Exec Db DocumentMetadata
checked id none = raise lookup_error
checked id (some m) = if text_eq m.document_id id then pure m else raise (other_error 0)

abbrev save : DocumentMetadata → Exec Db DocumentMetadata
save m s =
    if is_some (view s m.document_id)
    then (raised metadata_conflict_error, s)
    else (ok m, write m.document_id m s)

abbrev update : DocumentMetadata → Exec Db DocumentMetadata
update m s =
    if is_some (found (view s) m.document_id m.partition)
    then (ok m, write m.document_id m s)
    else (raised lookup_error, s)

abbrev pub deleted_copy : DocumentMetadata → DocumentMetadata
deleted_copy m = record m {
  status = DocumentStatus.deleted;
  updated_at = now;
  deleted_at = some now;
}

abbrev mark : Text → Option DocumentMetadata → Exec Db DocumentMetadata
mark id none s = (raised lookup_error, s)
mark id (some m) s = (ok (deleted_copy m), write id (deleted_copy m) s)

abbrev drop_found : Text → Option DocumentMetadata → Exec Db (Unit {0})
drop_found id none s = (raised lookup_error, s)
drop_found id (some m) s = (ok tt, erase id s)

abbrev clear : {V : Type 0} → Exec (Cells V) ℕ
clear s = (ok (length s.entries), record s { entries = [] })

abbrev allocate : Exec Db Text
allocate s =
    let id : Text = s.next ∷ [] in
    if is_some (view s id)
    then (raised (other_error 0), s)
    else (ok id, record s { next = suc s.next })

abbrev pub metadata_store : MetadataStore Db
metadata_store = record {
  allocate_document_id = when_up allocate;
  save_metadata = λ m. when_up (save m);
  update_metadata = λ m. when_up (update m);
  get_metadata = λ id p. when_up (λ s. checked id (found (view s) id p) s);
  list_metadata = λ q. when_up (pure []);
  list_metadata_page = λ q. when_up (pure []);
  mark_deleted = λ id p. when_up (λ s. mark id (found (view s) id p) s);
  hard_delete = λ id p. when_up (λ s. drop_found id (found (view s) id p) s);
  clear_all = when_up clear;
  clear_partition = λ p. when_up (pure 0);
  exists = λ id. when_up (gets (λ s. is_some (view s id)));
}

abbrev pub Objects : Type 0
Objects = Cells StoredObject

abbrev pub stored : PutObjectRequest → StoredObject
stored r = record {
  document_id = r.document_id;
  storage_key = r.storage_key;
  content = r.content;
  content_type = r.content_type;
  filename = r.filename;
  size = length r.content;
  checksum = r.checksum;
}

abbrev get_stored : Option StoredObject → Exec Objects StoredObject
get_stored none = raise lookup_error
get_stored (some o) = pure o

abbrev pub stored_stream : PutObjectStreamRequest → StoredObject
stored_stream r = record {
  document_id = r.document_id;
  storage_key = r.storage_key;
  content = take r.size r.stream;
  content_type = r.content_type;
  filename = r.filename;
  size = length (take r.size r.stream);
  checksum = r.checksum;
}

abbrev as_stream : StoredObject → StoredObjectStream
as_stream o = record {
  document_id = o.document_id;
  storage_key = o.storage_key;
  stream = o.content;
  content_type = o.content_type;
  filename = o.filename;
  size = o.size;
  checksum = o.checksum;
}

abbrev open_stored : Option StoredObject → Exec Objects StoredObjectStream
open_stored none = raise lookup_error
open_stored (some o) = pure (as_stream o)

abbrev pub streamed : PutObjectStreamRequest → StreamedPut
streamed r = record { storage_key = r.storage_key; reads = take r.size r.stream ∷ [] }

abbrev pub object_store : ObjectStore Objects
object_store = record {
  put_object = λ r. when_up (λ s. (ok r.storage_key, write r.storage_key (stored r) s));
  put_object_stream =
      λ r. when_up (λ s. (ok (streamed r), write r.storage_key (stored_stream r) s));
  get_object_stream = λ id key. when_up (λ s. open_stored (view s key) s);
  get_object = λ id key. when_up (λ s. get_stored (view s key) s);
  delete_object = λ id key. when_up (λ s. (ok tt, erase key s));
  clear_all = when_up clear;
  clear_partition = λ p. when_up (pure 0);
  object_exists = λ id key. when_up (gets (λ s. is_some (view s key)));
}
