-- ===== src/Sdk/Documents.antt =====
-- `DocumentService` of dms/sdk/documents.py: reads, status transitions and deletion. Logging is
-- left out; a `DocumentPartition` is one by its type, so `_validate_partition` always passes.
pub mod Listing
pub mod Pages
pub mod Iterating
pub mod Steps
pub mod DeletionSteps
pub mod Deleting
pub mod Deletion
pub mod Readable
pub mod Contents
use dms_core.Prelude.{ℕ, zero, ◌==◌, Text, Bool, true, false, some, if◌then◌else◌}
use dms_core.Domain.Models.{
  DateTime, DocumentStatus, DocumentPartition, DocumentMetadata, status_eq,
}
use dms_core.Domain.Errors.{
  validation_error, document_not_found_error, document_deleted_error, metadata_store_error,
  storage_error, consistency_error, is_lookup_error, is_metadata_store_error,
}
use dms_core.Domain.Exec.{Exec, pure, raise, gets, catch, raise_if, ◌>>=◌, ◌>>◌}
use dms_core.Sdk.Types.{
  PublicDocumentMetadata, DocumentContent, DocumentContentStream, DeleteDocumentResult,
  public_metadata,
}
use dms_core.Sdk.World.{World, Backend, on_db, on_bucket}

-- `status in _PUBLIC_EXCLUDED_STATUSES`
abbrev pub is_excluded : DocumentStatus → Bool
is_excluded DocumentStatus.deleting = true
is_excluded DocumentStatus.deleted = true
is_excluded _ = false

-- `replace(metadata, status=…, updated_at=…, deleted_at=…)` in `set_status`
unfoldable pub with_status : DocumentMetadata → DocumentStatus → DateTime → DocumentMetadata
with_status metadata status now = record metadata {
  status = status;
  updated_at = now;
  deleted_at = if status_eq status DocumentStatus.deleted then some now else metadata.deleted_at;
}

module _ {D B O : Type 0} (env : Backend D B O) where
  abbrev Call : Type 0 → Type 0
  Call A = Exec (World D B O) A

  unfoldable pub get_internal_metadata : Text → DocumentPartition → Call DocumentMetadata
  get_internal_metadata document_id partition =
      catch (on_db (env.metadata_store.get_metadata document_id partition)) λ e.
        if is_lookup_error e then raise document_not_found_error else raise metadata_store_error

  unfoldable pub get_metadata : Text → DocumentPartition → Call PublicDocumentMetadata
  get_metadata document_id partition = do
    metadata ← get_internal_metadata document_id partition
    raise_if (is_excluded metadata.status) document_not_found_error
    pure (public_metadata metadata)

  unfoldable pub ensure_content_readable : DocumentMetadata → Call (Unit {0})
  ensure_content_readable metadata = raise_if (is_excluded metadata.status) document_deleted_error

  unfoldable pub get_content : Text → DocumentPartition → Call DocumentContent
  unfolding ensure_content_readable
  get_content document_id partition = do
    metadata ← get_internal_metadata document_id partition
    ensure_content_readable metadata
    stored ←
        catch (on_bucket (env.object_store.get_object document_id metadata.storage_key))
          λ e. raise consistency_error
    pure (record {
      document_id = document_id;
      content = stored.content;
      content_type = stored.content_type;
      filename = metadata.original_filename;
      size = stored.size;
      checksum = stored.checksum;
    })

  -- `chunk_size <= 0`; closing the stream is the callback of the result
  unfoldable pub get_content_stream : Text → ℕ → DocumentPartition → Call DocumentContentStream
  unfolding ensure_content_readable
  get_content_stream document_id chunk_size partition = do
    raise_if (chunk_size == 0) validation_error
    metadata ← get_internal_metadata document_id partition
    ensure_content_readable metadata
    stored_stream ←
        catch (on_bucket (env.object_store.get_object_stream document_id metadata.storage_key))
          λ e. raise consistency_error
    pure (record {
      document_id = document_id;
      stream = stored_stream.stream;
      content_type = stored_stream.content_type;
      filename = metadata.original_filename;
      size = stored_stream.size;
      checksum = stored_stream.checksum;
      chunk_size = chunk_size;
    })

  unfoldable pub set_status : DocumentMetadata → DocumentStatus → Call DocumentMetadata
  unfolding with_status
  set_status metadata status = do
    now ← gets env.utcnow
    catch (on_db (env.metadata_store.update_metadata (with_status metadata status now)))
        λ e. raise metadata_store_error

  unfoldable pub set_status_best_effort : DocumentMetadata → DocumentStatus → Call (Unit {0})
  set_status_best_effort metadata status =
      catch (set_status metadata status >>= λ _. pure tt)
        λ e. if is_metadata_store_error e then pure tt else raise e

  -- the last step of `delete`, which gives the status to report
  unfoldable pub delete_record : Text → Bool → DocumentPartition → Call DocumentStatus
  delete_record document_id true partition = do
    on_db (env.metadata_store.hard_delete document_id partition)
    pure DocumentStatus.deleted
  delete_record document_id false partition = do
    deleted ← on_db (env.metadata_store.mark_deleted document_id partition)
    pure deleted.status

  -- the step of `delete` that removes the content, with its handler
  unfoldable pub delete_content : Text → Text → DocumentMetadata → Call (Unit {0})
  delete_content document_id storage_key deleting_metadata =
      catch (on_bucket (env.object_store.delete_object document_id storage_key)) λ e.
        set_status_best_effort deleting_metadata DocumentStatus.failed >>= λ _. raise storage_error

  unfoldable pub delete : Text → Bool → DocumentPartition → Call DeleteDocumentResult
  delete document_id hard_delete partition = do
    metadata ← get_internal_metadata document_id partition
    deleting_metadata ← set_status metadata DocumentStatus.deleting
    delete_content document_id metadata.storage_key deleting_metadata
    status ← catch (delete_record document_id hard_delete partition) λ e. raise consistency_error
    pure (record {
      document_id = document_id;
      deleted = true;
      hard_deleted = hard_delete;
      status = status;
    })
