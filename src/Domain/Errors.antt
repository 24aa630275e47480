-- ===== src/Domain/Errors.antt =====
-- dms/sdk/errors.py, and the other exceptions that the code tells apart. Messages and the
-- `document_id` attribute are left out.
use dms_core.Prelude.{ℕ, Text, codes, Bool, true, false, List}

-- `DataResetResult` of dms/sdk/types.py, which `DataResetError` carries.
pub record DataResetResult : Type 0 where
  pub metadata_deleted : ℕ
  pub objects_deleted : ℕ
  pub upload_operations_deleted : ℕ
  pub ready_for_data_load : Bool

pub data StoreName : Type 0 where
  objects metadata upload_operations : StoreName

pub data Exc : Type 0 where
  configuration_error validation_error access_denied_error payload_too_large_error : Exc
  document_not_found_error document_deleted_error duplicate_document_error storage_error : Exc
  metadata_store_error consistency_error idempotency_conflict_error : Exc
  idempotency_in_progress_error upload_operation_not_found_error : Exc
  data_reset_error : DataResetResult → List StoreName → Exc
  -- Python's own, and that of dms/domain/interfaces.py
  lookup_error value_error type_error metadata_conflict_error : Exc
  -- of SQLAlchemy
  integrity_error : Exc
  -- of the MinIO client, with its `code`
  s3_error : Text → Exc
  -- Any other exception, with the `dms_deleted_count` that it may carry.
  other_error : ℕ → Exc

-- `except LookupError`
abbrev pub is_lookup_error : Exc → Bool
is_lookup_error lookup_error = true
is_lookup_error _ = false

-- `except ValidationError`, which takes the subclass too
abbrev pub is_validation_error : Exc → Bool
is_validation_error validation_error = true
is_validation_error payload_too_large_error = true
is_validation_error _ = false

-- `except MetadataStoreError`
abbrev pub is_metadata_store_error : Exc → Bool
is_metadata_store_error metadata_store_error = true
is_metadata_store_error _ = false

-- `except DocumentNotFoundError`
abbrev pub is_not_found_error : Exc → Bool
is_not_found_error document_not_found_error = true
is_not_found_error _ = false

-- `except IntegrityError`
abbrev pub is_integrity_error : Exc → Bool
is_integrity_error integrity_error = true
is_integrity_error _ = false

-- `isinstance(exc, MetadataConflictError)`
abbrev pub is_conflict_error : Exc → Bool
is_conflict_error metadata_conflict_error = true
is_conflict_error _ = false

-- `exc.code if isinstance(exc, DmsError) else "unexpected_error"`
unfoldable pub error_code : Exc → Text
error_code configuration_error = codes "configuration_invalid"
error_code validation_error = codes "validation_invalid"
error_code access_denied_error = codes "access_denied"
error_code payload_too_large_error = codes "document_too_large"
error_code document_not_found_error = codes "document_not_found"
error_code document_deleted_error = codes "document_deleted"
error_code duplicate_document_error = codes "document_duplicate"
error_code storage_error = codes "object_storage_failed"
error_code metadata_store_error = codes "metadata_store_failed"
error_code consistency_error = codes "document_inconsistent"
error_code idempotency_conflict_error = codes "idempotency_conflict"
error_code idempotency_in_progress_error = codes "idempotency_in_progress"
error_code upload_operation_not_found_error = codes "upload_operation_not_found"
error_code (data_reset_error _ _) = codes "data_reset_failed"
error_code _ = codes "unexpected_error"

-- The class attribute `retryable`.
unfoldable pub retryable : Exc → Bool
retryable storage_error = true
retryable metadata_store_error = true
retryable idempotency_in_progress_error = true
retryable (data_reset_error _ _) = true
retryable _ = false
