-- ===== src/Sdk/Upload/Streams.antt =====
-- Uploads of streams: `_HashingReader`, `upload_document_stream` and `_upload_document_stream` of
-- dms/sdk/upload.py. A stream has a `read`, and its `read` gives bytes.
use dms_core.Prelude.{
  ℕ, ◌+◌, Text, true, not, none, List, [], ◌∷◌, ◌++◌, ◌==◌, length, if◌then◌else◌,
}
use dms_core.Domain.Models.{DocumentPartition, DocumentMetadata}
use dms_core.Domain.Errors.{
  Exc, validation_error, duplicate_document_error, storage_error, consistency_error,
  is_conflict_error, is_validation_error,
}
use dms_core.Domain.Exec.{Exec, pure, raise, catch, raise_if, ◌>>=◌, ◌>>◌}
use dms_core.Domain.Interfaces.{Bytes, PutObjectStreamRequest, StreamedPut}
use dms_core.Sdk.Types.{
  UploadDocumentStreamRequest, UploadDocumentResult, stream_fields, public_metadata,
}
use dms_core.Sdk.World.{World, Backend, on_db, on_bucket}
use dms_core.Sdk.Upload.{
  validate_upload_fields, validate_common_upload_fields, validate_file_size, resolve_document_id,
  save_uploaded_metadata,
}
use dms_core.Sdk.Upload.Keys.{build_storage_key}

-- What a reader has given to its hash, and the number of its bytes.
pub record HashingReader : Type 0 where
  pub hashed : Bytes
  pub bytes_read : ℕ

abbrev pub hashing_reader : HashingReader
hashing_reader = record { hashed = []; bytes_read = 0 }

-- One `read`, which gave `chunk`.
unfoldable pub read : HashingReader → Bytes → HashingReader
read tracked chunk = record {
  hashed = tracked.hashed ++ chunk;
  bytes_read = tracked.bytes_read + length chunk;
}

-- The reads of the store, one after the other.
unfoldable pub read_each : HashingReader → List Bytes → HashingReader
unfolding read
read_each tracked [] = tracked
read_each tracked (chunk ∷ chunks) = read_each (read tracked chunk) chunks

abbrev pub stream_chunk_size : ℕ
stream_chunk_size = 65536

unfoldable pub put_stream_request :
    UploadDocumentStreamRequest → Text → Text → PutObjectStreamRequest
put_stream_request request document_id storage_key = record {
  document_id = document_id;
  storage_key = storage_key;
  stream = request.stream;
  size = request.size;
  chunk_size = stream_chunk_size;
  content_type = request.content_type;
  filename = request.filename;
  checksum = none;
  metadata = request.metadata;
}

module _ {D B O : Type 0} (env : Backend D B O) where
  abbrev Call : Type 0 → Type 0
  Call A = Exec (World D B O) A

  unfoldable pub hexdigest : HashingReader → Text
  hexdigest tracked = env.sha256 tracked.hashed

  -- `request.size <= 0`
  unfoldable pub validate_stream_upload_request : UploadDocumentStreamRequest → Call (Unit {0})
  validate_stream_upload_request request = do
    raise_if (request.size == 0) validation_error
    validate_upload_fields env request.filename request.content_type

  unfoldable pub delete_uploaded_best_effort : Text → Text → Call (Unit {0})
  delete_uploaded_best_effort document_id storage_key =
      catch (on_bucket (env.object_store.delete_object document_id storage_key))
        λ exc. raise consistency_error

  -- The `except` branches where nothing was stored: `stored_key` is None.
  unfoldable pub not_stored : Exc → Call StreamedPut
  not_stored exc = raise (if is_validation_error exc then exc else storage_error)

  -- What follows a put: the test of the size, whose ValidationError removes the object again, or
  -- the checksum.
  unfoldable pub check_stored :
      UploadDocumentStreamRequest → Text → Text → HashingReader → Call Text
  unfolding hexdigest delete_uploaded_best_effort
  check_stored request document_id stored_key tracked =
      if not (tracked.bytes_read == request.size)
      then delete_uploaded_best_effort document_id stored_key >> raise validation_error
      else pure (hexdigest tracked)

  -- The handler of a failed save.
  unfoldable pub roll_back_stream : Text → Text → Exc → Call DocumentMetadata
  unfolding delete_uploaded_best_effort
  roll_back_stream document_id stored_key exc = do
    delete_uploaded_best_effort document_id stored_key
    raise (if is_conflict_error exc then duplicate_document_error else consistency_error)

  -- `_upload_document_stream` from the storage key on
  unfoldable pub store_stream :
      UploadDocumentStreamRequest → Text → DocumentPartition → Call UploadDocumentResult
  unfolding put_stream_request read_each check_stored not_stored roll_back_stream
  store_stream request document_id partition =
      let storage_key : Text =
        build_storage_key env.sha256 document_id request.filename partition in
      do
        put ←
            catch
              (on_bucket (
                env.object_store.put_object_stream
                  (put_stream_request request document_id storage_key)))
              not_stored
        checksum ←
            check_stored request document_id put.storage_key (read_each hashing_reader put.reads)
        saved ←
            catch
              (save_uploaded_metadata env (stream_fields request) request.size document_id
                put.storage_key checksum partition)
              λ exc. roll_back_stream document_id put.storage_key exc
        pure
            (record { document_id = document_id; metadata = public_metadata saved; created = true })

  -- `_upload_document_stream`
  unfoldable pub upload_stream :
      UploadDocumentStreamRequest → DocumentPartition → Call UploadDocumentResult
  upload_stream request partition = do
    document_id ← resolve_document_id env request.document_id
    exists ← on_db (env.metadata_store.exists document_id)
    raise_if exists duplicate_document_error
    store_stream request document_id partition

  unfoldable pub upload_document_stream :
      UploadDocumentStreamRequest → DocumentPartition → Call UploadDocumentResult
  unfolding upload_stream validate_stream_upload_request
  upload_document_stream request partition = do
    validate_common_upload_fields env (stream_fields request)
    validate_stream_upload_request request
    validate_file_size env request.size
    upload_stream request partition
