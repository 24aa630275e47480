-- ===== src/Sdk/Upload.antt =====
-- `UploadService` of dms/sdk/upload.py for content in memory: validation, storage keys, storing a
-- document and rolling back. Logging is left out. Arguments have their declared types, and caller
-- metadata is JSON by its type, so the `isinstance` and `json.dumps` checks always pass.
pub mod Keys
pub mod Keyed
pub mod Idempotence
pub mod Replaying
pub mod Claims
pub mod Retrying
pub mod Rest
pub mod Rollback
pub mod Streams
pub mod Streaming
pub mod StreamedUpload
pub mod ReadBack
pub mod Outcomes
pub mod Namespace
pub mod Race
pub mod Storing
pub mod Atomic
use dms_core.Prelude.{
  ℕ, Text, codes, is_blank, is_empty, text_eq, Bool, true, false, ◌||◌, Option, none, some, length,
  ltb, [], ◌∷◌, if◌then◌else◌,
}
use dms_core.Domain.Value.{Fields, end}
use dms_core.Domain.Models.{DocumentStatus, DocumentPartition, DocumentMetadata}
use dms_core.Domain.Errors.{
  Exc, validation_error, payload_too_large_error, duplicate_document_error, storage_error,
  metadata_store_error, consistency_error, is_conflict_error,
}
use dms_core.Domain.Exec.{Exec, pure, raise, gets, catch, raise_if, ◌>>=◌, ◌>>◌}
use dms_core.Domain.Interfaces.{Bytes, PutObjectRequest}
use dms_core.Sdk.Types.{
  UploadDocumentRequest, UploadDocumentResult, UploadFields, fields_of, public_metadata,
}
use dms_core.Sdk.World.{World, Backend, on_db, on_bucket}
use dms_core.Sdk.Upload.Keys.{sanitize_filename, build_storage_key}

-- `value is not None and not value.strip()`
abbrev pub given_blank : Option Text → Bool
given_blank none = false
given_blank (some value) = is_blank value

-- `request.metadata if request.metadata is not None else {}`
abbrev or_empty : Option Fields → Fields
or_empty none = end
or_empty (some fields) = fields

-- `size > max_file_size`, where there is a bound
abbrev pub too_large : Option ℕ → ℕ → Bool
too_large none size = false
too_large (some bound) size = ltb bound size

-- `text or other`, which takes an empty text for no text
abbrev pub text_or : Option Text → Text → Text
text_or none other = other
text_or (some []) other = other
text_or (some (c ∷ s)) other = c ∷ s

-- the `PutObjectRequest` of an upload
unfoldable pub put_request : UploadDocumentRequest → Text → Text → Text → PutObjectRequest
put_request request document_id storage_key checksum = record {
  document_id = document_id;
  storage_key = storage_key;
  content = request.content;
  content_type = request.content_type;
  filename = request.filename;
  checksum = some checksum;
  metadata = request.metadata;
}

module _ {D B O : Type 0} (env : Backend D B O) where
  abbrev Call : Type 0 → Type 0
  Call A = Exec (World D B O) A

  unfoldable pub validate_upload_fields : Text → Text → Call (Unit {0})
  validate_upload_fields filename content_type = do
    raise_if (is_blank filename) validation_error
    raise_if (is_blank content_type) validation_error
    raise_if
        (text_eq (sanitize_filename filename) (codes ".") || is_empty (sanitize_filename filename))
        validation_error

  unfoldable pub validate_common_upload_fields : UploadFields → Call (Unit {0})
  validate_common_upload_fields request = do
    validate_upload_fields request.filename request.content_type
    raise_if (given_blank request.document_id) validation_error
    raise_if (given_blank request.created_by) validation_error
    raise_if (given_blank request.idempotency_key) validation_error
    raise_if (given_blank request.idempotency_scope) validation_error

  unfoldable pub validate_upload_request : UploadDocumentRequest → Call (Unit {0})
  validate_upload_request request = do
    raise_if (is_empty request.content) validation_error
    validate_upload_fields request.filename request.content_type

  unfoldable pub validate_file_size : ℕ → Call (Unit {0})
  validate_file_size size = raise_if (too_large env.max_file_size size) payload_too_large_error

  unfoldable pub allocate_document_id : Call Text
  allocate_document_id = do
    document_id ←
        catch (on_db env.metadata_store.allocate_document_id) λ e. raise metadata_store_error
    raise_if (is_blank document_id) metadata_store_error
    pure document_id

  -- `request.document_id or self._allocate_document_id()`
  unfoldable pub resolve_document_id : Option Text → Call Text
  resolve_document_id none = allocate_document_id
  resolve_document_id (some []) = allocate_document_id
  resolve_document_id (some (c ∷ s)) = pure (c ∷ s)

  unfoldable pub uploaded_metadata :
      UploadFields → ℕ → Text → Text → Text → DocumentPartition → World D B O → DocumentMetadata
  uploaded_metadata request file_size document_id storage_key checksum partition w = record {
    document_id = document_id;
    original_filename = request.filename;
    content_type = request.content_type;
    file_size = file_size;
    storage_key = storage_key;
    status = DocumentStatus.available;
    created_at = env.utcnow w;
    updated_at = env.utcnow w;
    partition = partition;
    checksum = some checksum;
    deleted_at = none;
    created_by = request.created_by;
    extra_metadata = or_empty request.metadata;
  }

  unfoldable pub save_uploaded_metadata :
      UploadFields → ℕ → Text → Text → Text → DocumentPartition → Call DocumentMetadata
  unfolding uploaded_metadata
  save_uploaded_metadata request file_size document_id storage_key checksum partition = do
    metadata ← gets (uploaded_metadata request file_size document_id storage_key checksum partition)
    on_db (env.metadata_store.save_metadata metadata)

  -- the handler of a failed save: the object is removed again
  unfoldable pub roll_back : Text → Text → Exc → Call DocumentMetadata
  roll_back document_id stored_key exc = do
    catch (on_bucket (env.object_store.delete_object document_id stored_key))
        λ e. raise consistency_error
    raise (if is_conflict_error exc then duplicate_document_error else consistency_error)

  -- `_upload_document` from the test for a duplicate on
  unfoldable pub store_document :
      UploadDocumentRequest → Text → DocumentPartition → Call UploadDocumentResult
  unfolding put_request
  store_document request document_id partition =
      let checksum : Text = text_or request.checksum (env.sha256 request.content) in
      let storage_key : Text =
        build_storage_key env.sha256 document_id request.filename partition in
      do
        stored_key ←
            catch
              (on_bucket (
                env.object_store.put_object (put_request request document_id storage_key checksum)))
              λ e. raise storage_error
        saved ←
            catch
              (save_uploaded_metadata (fields_of request) (length request.content) document_id
                stored_key checksum partition)
              λ exc. roll_back document_id stored_key exc
        pure
            (record { document_id = document_id; metadata = public_metadata saved; created = true })

  -- `_upload_document`
  unfoldable pub upload_unkeyed :
      UploadDocumentRequest → DocumentPartition → Call UploadDocumentResult
  upload_unkeyed request partition = do
    document_id ← resolve_document_id request.document_id
    exists ← on_db (env.metadata_store.exists document_id)
    raise_if exists duplicate_document_error
    store_document request document_id partition
