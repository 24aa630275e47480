-- ===== src/Sdk/Documents/DeletionSteps.antt =====
-- How the two last steps of `DocumentService.delete` end: removing the content, and the record.
use dms_core.Prelude.{
  Text, Bool, true, false, Option, none, some, put, remove, text_eq_iff, text_eq_refl, ◌≡◌, ◌≢◌,
  ◌⊎◌, Or-map, ◌∙◌, refl, arith,
}
use dms_core.Domain.Models.{DateTime, DocumentStatus, DocumentPartition, DocumentMetadata}
use dms_core.Domain.Errors.{storage_error}
use dms_core.Domain.Exec.{Outcome, ok, raised, pure, raise}
use dms_core.Domain.Exec.Rules.{bind-ensures, catch-ensures}
use dms_core.Domain.Laws.{Table, OnlyAt, DeletesObject, HardDeletes, MarksDeleted}
use dms_core.Sdk.World.{World, Backend, BackendLaws, table_of, bucket_of, Same, on_bucket, on_db}
use dms_core.Sdk.Documents.{with_status, set_status_best_effort, delete_content, delete_record}
use dms_core.Sdk.Documents.Steps.{TriesStatus, set_status_best_effort-TriesStatus}

-- Every document but the one under `id` is as it was.
abbrev pub OthersKept : Text → Table → Table → Type 0
OthersKept id t t' = (j : Text) → id ≢ j → t' j ≡ t j

-- What a deletion leaves under the identifier: nothing, or a record that says so.
abbrev pub Gone : Bool → DocumentPartition → Option DocumentMetadata → Type 0
Gone true p o = o ≡ none
Gone false p o =
    (m : DocumentMetadata) × (o ≡ some m) × (m.status ≡ DocumentStatus.deleted) × (m.partition ≡ p)

-- The record of `m` stands there, but for its status and times.
abbrev pub Holds : DocumentMetadata → DocumentStatus → Option DocumentMetadata → Type 0
Holds m status o =
    (m' : DocumentMetadata) × (o ≡ some m')
    × (m'.status ≡ status)
    × (m'.storage_key ≡ m.storage_key)
    × (m'.partition ≡ m.partition)

-- The record of `m` was written with another status, at some time.
abbrev pub SetTo : DocumentMetadata → DocumentStatus → Table → Table → Type 0
SetTo m status t t' = (now : DateTime) × (t' ≡ put t m.document_id (with_status m status now))

pub put-Holds :
    (m : DocumentMetadata) (status : DocumentStatus) (now : DateTime) (t : Table)
    → Holds m status (put t m.document_id (with_status m status now) m.document_id)
unfolding with_status
put-Holds m status now t = (with_status m status now, rw text_eq_refl, refl, refl, refl)

pub put-OthersKept : (id : Text) (m : DocumentMetadata) (t : Table) → OthersKept id t (put t id m)
put-OthersKept id m t j n = ground (arith, text_eq_iff id j)

pub remove-OthersKept : (id : Text) (t : Table) → OthersKept id t (remove t id)
remove-OthersKept id t j n = ground (arith, text_eq_iff id j)

module _ {D B O : Type 0} (env : Backend D B O) (laws : BackendLaws env) where
  abbrev pub DeletesContent :
      Text → DocumentMetadata → World D B O → Outcome (Unit {0}) × World D B O → Type 0
  DeletesContent key m w (ok _, w') =
      (table_of laws w' ≡ table_of laws w) × (bucket_of laws w' ≡ remove (bucket_of laws w) key)
  DeletesContent key m w (raised storage_error, w') =
      ((table_of laws w' ≡ table_of laws w)
        ⊎ SetTo m DocumentStatus.failed (table_of laws w) (table_of laws w'))
      × OnlyAt laws.objects.bucket (bucket_of laws w) key w'.bucket
  DeletesContent key m w (raised _, w') = ⊥

  pub delete_content-DeletesContent :
      (id key : Text) (m : DocumentMetadata) (w : World D B O)
      → DeletesContent key m w (delete_content env id key m w)
  unfolding delete_content
  delete_content-DeletesContent id key m w =
      catch-ensures
        (λ x.
          (table_of laws x.1 ≡ table_of laws w)
          × DeletesObject laws.objects.bucket (bucket_of laws w) key (x.0, x.1.bucket))
        (DeletesContent key m w) (on_bucket (env.object_store.delete_object id key)) _ w
        (refl, laws.objects.deletes id key w.bucket) (λ a t h. h)
        (λ e t h.
          bind-ensures (TriesStatus env laws m DocumentStatus.failed t) (DeletesContent key m w)
            (set_status_best_effort env m DocumentStatus.failed) (λ _. raise storage_error) t
            (set_status_best_effort-TriesStatus env laws m DocumentStatus.failed t)
            (λ _ u g. (
              Or-map (λ k. k ∙ h.0) (λ k. (env.utcnow t, rw (← h.0) k)) g.1,
              λ j n. rw g.0 (h.1 j n),
            ))
            (λ e u g. absurd g))

  abbrev pub DeletesRecord :
      Text → Bool → DocumentPartition → World D B O → Outcome DocumentStatus × World D B O → Type 0
  DeletesRecord id hard p w (ok status, w') =
      (status ≡ DocumentStatus.deleted)
      × (bucket_of laws w' ≡ bucket_of laws w)
      × Gone hard p (table_of laws w' id)
      × OthersKept id (table_of laws w) (table_of laws w')
  DeletesRecord id hard p w (raised _, w') = Same laws w w'

  pub delete_record-DeletesRecord :
      (id : Text) (hard : Bool) (p : DocumentPartition) (w : World D B O)
      → DeletesRecord id hard p w (delete_record env id hard p w)
  unfolding delete_record
  delete_record-DeletesRecord id true p w =
      bind-ensures
        (λ x.
          (bucket_of laws x.1 ≡ bucket_of laws w)
          × HardDeletes laws.db.table (table_of laws w) id p (x.0, x.1.db))
        (DeletesRecord id true p w) (on_db (env.metadata_store.hard_delete id p))
        (λ _. pure DocumentStatus.deleted) w (refl, laws.db.hard_deletes id p w.db)
        (λ _ t h. (
          refl,
          h.0,
          rw h.1.1 (rw text_eq_refl),
          λ j n. rw h.1.1 (remove-OthersKept id (table_of laws w) j n),
        ))
        (λ e t h. (h.1, h.0))
  delete_record-DeletesRecord id false p w =
      bind-ensures
        (λ x.
          (bucket_of laws x.1 ≡ bucket_of laws w)
          × MarksDeleted laws.db.table (table_of laws w) id p (x.0, x.1.db))
        (DeletesRecord id false p w) (on_db (env.metadata_store.mark_deleted id p))
        (λ m. pure m.status) w (refl, laws.db.marks_deleted id p w.db)
        (λ m t h. (
          h.1.0,
          h.0,
          (m, rw h.1.4 (rw text_eq_refl), h.1.0, h.1.1),
          λ j n. rw h.1.4 (put-OthersKept id m (table_of laws w) j n),
        ))
        (λ e t h. (h.1, h.0))
