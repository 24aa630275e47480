-- ===== src/Examples/Memory/Laws.antt =====
-- The stores in memory meet the laws.
use dms_core.Prelude.{
  Text, Option-cases, Bool-cases, inl, inr, refl, text_eq_iff, arith, take, drop, take-drop,
  append_nil, sym, ap, ◌∙◌, ◌++◌,
}
use dms_core.Domain.Models.{DocumentMetadata, DocumentPartition}
use dms_core.Domain.Interfaces.{PutObjectRequest, PutObjectStreamRequest}
use dms_core.Domain.Laws.{
  found, found-partition, Saves, Updates, Gets, MarksDeleted, HardDeletes, Tests, Allocates,
  MetadataStoreLaws, Puts, GetsObject, PutsStream, GetsStream, DeletesObject, TestsObject,
  ObjectStoreLaws,
}
use dms_core.Examples.Memory.{
  Db, Objects, view, lookup-without, lookup-cons_without, deleted_copy, stored, stored_stream,
  metadata_store, object_store,
}

pub saves :
    (m : DocumentMetadata) (d : Db) → Saves view (view d) m (metadata_store.save_metadata m d)
saves m d = ground (arith, lookup-cons_without m.document_id m d.entries)

pub updates :
    (m : DocumentMetadata) (d : Db) → Updates view (view d) m (metadata_store.update_metadata m d)
updates m d = ground (arith, lookup-cons_without m.document_id m d.entries)

pub gets :
    (id : Text) (p : DocumentPartition) (d : Db)
    → Gets view (view d) id p (metadata_store.get_metadata id p d)
gets id p d = elim (Option-cases (found (view d) id p)) [
  | inl e ↦ ground arith
  | inr (m, e) ↦ ground (arith, text_eq_iff m.document_id id)
]

pub hard_deletes :
    (id : Text) (p : DocumentPartition) (d : Db)
    → HardDeletes view (view d) id p (metadata_store.hard_delete id p d)
hard_deletes id p d = ground (arith, lookup-without id d.entries)

pub tests : (id : Text) (d : Db) → Tests view (view d) id (metadata_store.exists id d)
tests id d = ground arith

pub allocates : (d : Db) → Allocates view (view d) (metadata_store.allocate_document_id d)
allocates d = ground arith

pub marks_deleted :
    (id : Text) (p : DocumentPartition) (d : Db)
    → MarksDeleted view (view d) id p (metadata_store.mark_deleted id p d)
marks_deleted id p d = elim (Option-cases (found (view d) id p)) [
  | inl e ↦ ground arith
  | inr (m, e) ↦
      ground (
        arith,
        found-partition (view d) id p m e,
        lookup-cons_without id (deleted_copy m) d.entries,
      )
]

unfoldable pub db_laws : MetadataStoreLaws metadata_store
db_laws = record {
  table = view;
  saves = saves;
  updates = updates;
  gets = gets;
  marks_deleted = marks_deleted;
  hard_deletes = hard_deletes;
  tests = tests;
  allocates = allocates;
}

pub puts : (r : PutObjectRequest) (b : Objects) → Puts view (view b) r (object_store.put_object r b)
puts r b = elim (Bool-cases b.down) [
  | inl e ↦ rw e (λ j n. refl)
  | inr e ↦
      rw e (refl, (stored r, refl, refl, lookup-cons_without r.storage_key (stored r) b.entries))
]

pub gets_object :
    (id key : Text) (b : Objects) → GetsObject view (view b) key (object_store.get_object id key b)
gets_object id key b = elim (Bool-cases b.down) [
  | inl e ↦ rw e refl
  | inr e ↦ elim (Option-cases (view b key)) [
    | inl f ↦ rw (e, f) refl
    | inr (o, f) ↦ rw (e, f) ((o, f, refl, refl), refl)
  ]
]

pub puts_stream :
    (r : PutObjectStreamRequest) (b : Objects)
    → PutsStream view (view b) r (object_store.put_object_stream r b)
puts_stream r b = elim (Bool-cases b.down) [
  | inl e ↦ rw e (λ j n. refl)
  | inr e ↦ rw e (
    refl,
    (
      drop r.size r.stream,
      sym (
          ap (λ t. t ++ drop r.size r.stream) (append_nil (take r.size r.stream))
          ∙ take-drop r.size r.stream),
    ),
    (
      stored_stream r,
      sym (append_nil (take r.size r.stream)),
      lookup-cons_without r.storage_key (stored_stream r) b.entries,
    ),
  )
]

pub gets_stream :
    (id key : Text) (b : Objects)
    → GetsStream view (view b) key (object_store.get_object_stream id key b)
gets_stream id key b = elim (Bool-cases b.down) [
  | inl e ↦ rw e refl
  | inr e ↦ elim (Option-cases (view b key)) [
    | inl f ↦ rw (e, f) refl
    | inr (o, f) ↦ rw (e, f) ((o, f, refl, refl), refl)
  ]
]

pub deletes_object :
    (id key : Text) (b : Objects)
    → DeletesObject view (view b) key (object_store.delete_object id key b)
deletes_object id key b = elim (Bool-cases b.down) [
  | inl e ↦ rw e (λ j n. refl)
  | inr e ↦ rw e (lookup-without key b.entries)
]

pub tests_object :
    (id key : Text) (b : Objects)
    → TestsObject view (view b) key (object_store.object_exists id key b)
tests_object id key b = ground arith

unfoldable pub objects_laws : ObjectStoreLaws object_store
objects_laws = record {
  bucket = view;
  puts = puts;
  puts_stream = puts_stream;
  gets_stream = gets_stream;
  gets = gets_object;
  deletes = deletes_object;
  tests = tests_object;
}
