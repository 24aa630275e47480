-- ===== src/Sdk/Documents/Deletion.antt =====
-- What `DocumentService.delete` leaves in the table and in the bucket, however it ends.
use dms_core.Prelude.{Text, Bool, true, some, none, remove, ◌≡◌, ◌⊎◌, Or-map, ◌∙◌, ap, refl}
use dms_core.Domain.Models.{DocumentStatus, DocumentPartition, DocumentMetadata}
use dms_core.Domain.Errors.{
  Exc, document_not_found_error, metadata_store_error, storage_error, consistency_error,
}
use dms_core.Domain.Exec.{Outcome, Exec, ok, raised, catch, pure, raise, ◌>>=◌}
use dms_core.Domain.Exec.Rules.{bind-ensures, catch-ensures}
use dms_core.Domain.Laws.{found, OnlyAt}
use dms_core.Sdk.Types.{DeleteDocumentResult}
use dms_core.Sdk.World.{World, Backend, BackendLaws, table_of, bucket_of, Same}
use dms_core.Sdk.Documents.{
  get_internal_metadata, set_status, delete_content, delete_record, delete,
}
use dms_core.Sdk.Documents.Steps.{
  GetsInternal, get_internal_metadata-GetsInternal, SetsStatus, set_status-SetsStatus,
}
use dms_core.Sdk.Documents.DeletionSteps.{
  OthersKept, Gone, Holds, DeletesContent, delete_content-DeletesContent, DeletesRecord,
  delete_record-DeletesRecord,
}
use dms_core.Sdk.Documents.Deleting.{
  IsDeleting, SetTo-Holds, SetTo-OthersKept, IsDeleting-set_status,
}

module _ {D B O : Type 0} (env : Backend D B O) (laws : BackendLaws env) where
  abbrev pub Deletes :
      Text
      → Bool
      → DocumentPartition
      → World D B O
      → Outcome DeleteDocumentResult × World D B O
      → Type 0
  Deletes id hard p w (ok r, w') =
      (m : DocumentMetadata) × (found (table_of laws w) id p ≡ some m)
      × (r ≡ record {
        document_id = id;
        deleted = true;
        hard_deleted = hard;
        status = DocumentStatus.deleted;
      })
      × Gone hard p (table_of laws w' id)
      × OthersKept id (table_of laws w) (table_of laws w')
      × (bucket_of laws w' ≡ remove (bucket_of laws w) m.storage_key)
  Deletes id hard p w (raised document_not_found_error, w') =
      (found (table_of laws w) id p ≡ none) × Same laws w w'
  Deletes id hard p w (raised metadata_store_error, w') = Same laws w w'
  Deletes id hard p w (raised storage_error, w') =
      (m : DocumentMetadata) × (found (table_of laws w) id p ≡ some m)
      × (Holds m DocumentStatus.deleting (table_of laws w' id)
          ⊎ Holds m DocumentStatus.failed (table_of laws w' id))
      × OthersKept id (table_of laws w) (table_of laws w')
      × OnlyAt laws.objects.bucket (bucket_of laws w) m.storage_key w'.bucket
  Deletes id hard p w (raised consistency_error, w') =
      (m : DocumentMetadata) × (found (table_of laws w) id p ≡ some m)
      × Holds m DocumentStatus.deleting (table_of laws w' id)
      × OthersKept id (table_of laws w) (table_of laws w')
      × (bucket_of laws w' ≡ remove (bucket_of laws w) m.storage_key)
  Deletes id hard p w (raised _, w') = ⊥

  module _ (id : Text) (hard : Bool) (p : DocumentPartition) (w : World D B O) where
    -- The rest of `delete` after each of its steps.
    abbrev Rest : Type 0
    Rest = Exec (World D B O) DeleteDocumentResult

    abbrev after_record : DocumentStatus → Rest
    after_record status =
        pure (record { document_id = id; deleted = true; hard_deleted = hard; status = status })

    abbrev after_content : Unit {0} → Rest
    after_content _ =
        catch (delete_record env id hard p) (λ e. raise consistency_error) >>= after_record

    abbrev after_mark : DocumentMetadata → DocumentMetadata → Rest
    after_mark m m' = delete_content env id m.storage_key m' >>= after_content

    abbrev after_load : DocumentMetadata → Rest
    after_load m = set_status env m DocumentStatus.deleting >>= after_mark m

    -- The step that deletes the record, with its handler.
    abbrev Catches : World D B O → Outcome DocumentStatus × World D B O → Type 0
    Catches u (ok status, v) = DeletesRecord env laws id hard p u (ok status, v)
    Catches u (raised consistency_error, v) = Same laws u v
    Catches u (raised _, v) = ⊥

    record_step-Catches :
        (u : World D B O)
        → Catches u (catch (delete_record env id hard p) (λ e. raise consistency_error) u)
    record_step-Catches u =
        catch-ensures (DeletesRecord env laws id hard p u) (Catches u) (delete_record env id hard p)
          (λ e. raise consistency_error) u (delete_record-DeletesRecord env laws id hard p u)
          (λ _ v g. g) (λ e v g. g)

    record_failed-Deletes :
        (m m' : DocumentMetadata) (t u : World D B O)
        → IsDeleting env laws id p m m' w t
        → table_of laws u ≡ table_of laws t
        → bucket_of laws u ≡ remove (bucket_of laws t) m.storage_key
        → (e : Exc) (v : World D B O) → Catches u (raised e, v)
        → Deletes id hard p w (raised e, v)
    record_failed-Deletes m m' t u h st sb consistency_error v g = (
      m,
      h.is_found,
      rw (g.0 ∙ st) h.held,
      (λ j n. rw (g.0 ∙ st) (h.kept j n)),
      g.1 ∙ sb ∙ ap (λ b. remove b m.storage_key) h.bucket,
    )
    record_failed-Deletes m m' t u h st sb e v g = absurd g

    after_content-Deletes :
        (m m' : DocumentMetadata) (t u : World D B O)
        → IsDeleting env laws id p m m' w t
        → table_of laws u ≡ table_of laws t
        → bucket_of laws u ≡ remove (bucket_of laws t) m.storage_key
        → Deletes id hard p w (after_content tt u)
    after_content-Deletes m m' t u h st sb =
        bind-ensures (Catches u) (Deletes id hard p w)
          (catch (delete_record env id hard p) (λ e. raise consistency_error)) after_record u
          (record_step-Catches u)
          (λ _ v g. (
            m,
            h.is_found,
            rw g.0 refl,
            g.2,
            (λ j n. g.3 j n ∙ (ap (λ f. f j) st ∙ h.kept j n)),
            g.1 ∙ sb ∙ ap (λ b. remove b m.storage_key) h.bucket,
          ))
          (record_failed-Deletes m m' t u h st sb)

    after_content_failed :
        (m m' : DocumentMetadata) (t : World D B O)
        → IsDeleting env laws id p m m' w t
        → (e : Exc) (u : World D B O) → DeletesContent env laws m.storage_key m' t (raised e, u)
        → Deletes id hard p w (raised e, u)
    after_content_failed m m' t h storage_error u g = (
      m,
      h.is_found,
      Or-map (λ k. rw k h.held) (λ k. SetTo-Holds env laws id p w m m' k h) g.0,
      (λ j n. SetTo-OthersKept env laws id p w m' g.0 h j n),
      (λ j n. rw (← h.bucket) (g.1 j n)),
    )
    after_content_failed m m' t h e u g = absurd g

    after_mark-Deletes :
        (m m' : DocumentMetadata) (t : World D B O)
        → IsDeleting env laws id p m m' w t
        → Deletes id hard p w (after_mark m m' t)
    after_mark-Deletes m m' t h =
        bind-ensures (DeletesContent env laws m.storage_key m' t) (Deletes id hard p w)
          (delete_content env id m.storage_key m') after_content t
          (delete_content-DeletesContent env laws id m.storage_key m' t)
          (λ _ u g. after_content-Deletes m m' t u h g.0 g.1) (after_content_failed m m' t h)

    mark_failed-Deletes :
        (m : DocumentMetadata) (t : World D B O)
        → GetsInternal env laws id p w (ok m, t)
        → (e : Exc) (u : World D B O)
        → SetsStatus env laws m DocumentStatus.deleting t (raised e, u)
        → Deletes id hard p w (raised e, u)
    mark_failed-Deletes m t h metadata_store_error u g = (g.0 ∙ h.2.0, g.1 ∙ h.2.1)
    mark_failed-Deletes m t h e u g = absurd g

    load_failed-Deletes :
        (e : Exc) (u : World D B O)
        → GetsInternal env laws id p w (raised e, u)
        → Deletes id hard p w (raised e, u)
    load_failed-Deletes document_not_found_error u g = g
    load_failed-Deletes metadata_store_error u g = g
    load_failed-Deletes e u g = absurd g

    after_load-Deletes :
        (m : DocumentMetadata) (t : World D B O)
        → GetsInternal env laws id p w (ok m, t)
        → Deletes id hard p w (after_load m t)
    after_load-Deletes m t h =
        bind-ensures (SetsStatus env laws m DocumentStatus.deleting t) (Deletes id hard p w)
          (set_status env m DocumentStatus.deleting) (after_mark m) t
          (set_status-SetsStatus env laws m DocumentStatus.deleting t)
          (λ m' u g. after_mark-Deletes m m' u (IsDeleting-set_status env laws id p w m m' t u h g))
          (mark_failed-Deletes m t h)

    -- `delete` over stores that keep their laws ends in one of five ways. It returns a result that
    -- reports DELETED: the document was found, its object is gone from the bucket, its record is
    -- gone (hard) or says DELETED (soft). DocumentNotFoundError: it was not in the partition and
    -- nothing has changed. MetadataStoreError: nothing has changed. StorageError: the record stays,
    -- DELETING or FAILED, with its storage key, and no object but its own may be touched.
    -- ConsistencyError: the object is gone and the record says DELETING. In no case is the record of
    -- another document changed.
    pub delete-Deletes : Deletes id hard p w (delete env id hard p w)
    unfolding delete
    delete-Deletes =
        bind-ensures (GetsInternal env laws id p w) (Deletes id hard p w)
          (get_internal_metadata env id p) after_load w
          (get_internal_metadata-GetsInternal env laws id p w) after_load-Deletes
          load_failed-Deletes
