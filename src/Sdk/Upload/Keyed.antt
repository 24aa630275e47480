-- ===== src/Sdk/Upload/Keyed.antt =====
-- Uploads with an idempotency key: `upload_document`, `get_upload_operation`, `_idempotent_upload`
-- and `build_upload_fingerprint` of dms/sdk/upload.py.
use dms_core.Prelude.{
  Text, is_blank, Bool, true, false, ◌||◌, Option, none, some, length, if◌then◌else◌,
}
use dms_core.Domain.Models.{DocumentPartition, UploadOperation, UploadOperationState}
use dms_core.Domain.Errors.{
  Exc, validation_error, metadata_store_error, idempotency_in_progress_error,
  upload_operation_not_found_error, is_lookup_error,
}
use dms_core.Domain.Exec.{Exec, pure, raise, catch, raise_if, ◌>>=◌, ◌>>◌}
use dms_core.Domain.Interfaces.{UploadOperationStore}
use dms_core.Sdk.Types.{
  UploadDocumentRequest, UploadDocumentResult, UploadOperationResult, fields_of, public_metadata,
}
use dms_core.Sdk.Contracts.{partition_operation_scope}
use dms_core.Sdk.World.{World, Backend, on_ops}
use dms_core.Sdk.Documents.{get_internal_metadata}
use dms_core.Sdk.Upload.{
  validate_common_upload_fields, validate_upload_request, validate_file_size, resolve_document_id,
  upload_unkeyed,
}

-- `claim.operation.state is UploadOperationState.PENDING`
abbrev pub is_pending : UploadOperationState → Bool
is_pending UploadOperationState.pending = true
is_pending _ = false

module _ {D B O : Type 0} (env : Backend D B O) where
  abbrev Call : Type 0 → Type 0
  Call A = Exec (World D B O) A

  unfoldable pub build_upload_fingerprint : UploadDocumentRequest → Text → DocumentPartition → Text
  build_upload_fingerprint request checksum partition = env.sha256 (
      env.dumps (record {
        checksum = env.lower checksum;
        filename = request.filename;
        content_type = request.content_type;
        size = length request.content;
        document_id = request.document_id;
        partition = partition;
      }))

  -- a key that is claimed already
  unfoldable pub replay : UploadOperation → DocumentPartition → Call UploadDocumentResult
  replay operation partition = do
    raise_if (is_pending operation.state) idempotency_in_progress_error
    metadata ← get_internal_metadata env operation.document_id partition
    pure (record {
      document_id = metadata.document_id;
      metadata = public_metadata metadata;
      created = false;
    })

  -- the `except` branch: the state FAILED is persisted where possible
  unfoldable pub give_up : UploadOperationStore O → Text → Text → Exc → Call UploadDocumentResult
  give_up store scope key exc = do
    catch (on_ops (store.mark_failed scope key)) λ e. pure tt
    raise exc

  -- a key that this call has claimed
  unfoldable pub upload_claimed :
      UploadOperationStore O
      → UploadDocumentRequest
      → Text
      → Text
      → Text
      → DocumentPartition
      → Call UploadDocumentResult
  upload_claimed store request document_id scope key partition =
      catch
        (upload_unkeyed env (record request { document_id = some document_id }) partition
          >>= λ result. on_ops (store.mark_succeeded scope key) >> pure result)
        λ exc. give_up store scope key exc

  -- `_idempotent_upload` from the resolved scope on
  unfoldable pub upload_keyed :
      UploadOperationStore O
      → UploadDocumentRequest
      → Text
      → Text
      → Text
      → DocumentPartition
      → Call UploadDocumentResult
  upload_keyed store request checksum key scope partition =
      let resolved_scope : Text = partition_operation_scope env.sha256 partition scope in
      let fingerprint : Text = build_upload_fingerprint request checksum partition in
      resolve_document_id env request.document_id >>= λ generated_id.
      on_ops (store.claim resolved_scope key fingerprint generated_id) >>= λ claim.
      if claim.claimed
      then upload_claimed store request claim.operation.document_id resolved_scope key partition
      else replay claim.operation partition

  abbrev upload_scoped :
      Option (UploadOperationStore O)
      → Option Text
      → UploadDocumentRequest
      → Text
      → Text
      → DocumentPartition
      → Call UploadDocumentResult
  upload_scoped none scope request checksum key partition = raise validation_error
  upload_scoped (some store) none request checksum key partition = raise validation_error
  upload_scoped (some store) (some scope) request checksum key partition =
      raise_if (is_blank scope) validation_error
      >> upload_keyed store request checksum key scope partition

  abbrev upload_with_key :
      Option Text → UploadDocumentRequest → Text → DocumentPartition → Call UploadDocumentResult
  upload_with_key none request checksum partition = upload_unkeyed env request partition
  upload_with_key (some key) request checksum partition =
      raise_if (is_blank key) validation_error
      >> upload_scoped env.operation_store request.idempotency_scope request checksum key partition

  unfoldable pub idempotent_upload :
      UploadDocumentRequest → Text → DocumentPartition → Call UploadDocumentResult
  idempotent_upload request checksum partition =
      upload_with_key request.idempotency_key request checksum partition

  unfoldable pub upload_document :
      UploadDocumentRequest → DocumentPartition → Call UploadDocumentResult
  upload_document request partition = do
    validate_common_upload_fields env (fields_of request)
    validate_upload_request env request
    validate_file_size env (length request.content)
    idempotent_upload request (env.sha256 request.content) partition

  abbrev load_operation : Option (UploadOperationStore O) → Text → Text → Call UploadOperation
  load_operation none scope key = raise validation_error
  load_operation (some store) scope key = catch (on_ops (store.get scope key)) λ e.
      raise (if is_lookup_error e then upload_operation_not_found_error else metadata_store_error)

  unfoldable pub get_upload_operation : Text → Text → DocumentPartition → Call UploadOperationResult
  get_upload_operation scope idempotency_key partition = do
    raise_if (is_blank scope || is_blank idempotency_key) validation_error
    operation ←
        load_operation env.operation_store (partition_operation_scope env.sha256 partition scope)
          idempotency_key
    pure (record {
      scope = scope;
      idempotency_key = operation.idempotency_key;
      document_id = operation.document_id;
      state = operation.state;
      created_at = operation.created_at;
      updated_at = operation.updated_at;
    })
