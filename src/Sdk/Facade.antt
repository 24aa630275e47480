-- ===== src/Sdk/Facade.antt =====
-- The calls of `DefaultDocumentManagementSDK` of dms/sdk/implementation.py that ask the access
-- policy, beside those of Sdk/Access. Observers are left out, and the context that a recovery call
-- hands on is taken to be the one given.
pub mod Guarding
use dms_core.Prelude.{
  ℕ, zero, ◌==◌, ℤ, Text, codes, Bool, true, false, not, Option, none, some, List, if◌then◌else◌,
}
use dms_core.Domain.Models.{DocumentMetadata, DocumentPartition, DocumentStatus}
use dms_core.Domain.Errors.{Exc, access_denied_error, validation_error, is_not_found_error}
use dms_core.Domain.Exec.{Exec, pure, raise, raise_if, catch, ◌>>=◌, ◌>>◌}
use dms_core.Sdk.Types.{
  UploadDocumentRequest, UploadDocumentStreamRequest, UploadDocumentResult, UploadOperationResult,
  PublicDocumentMetadata, DocumentContent, DocumentContentStream, DocumentInspection,
  RecoveryAction, ReconciliationResult,
}
use dms_core.Sdk.World.{World, Backend}
use dms_core.Sdk.Access.{AccessContext, DocumentAccessPolicy, is_allowed, enforce_access}
use dms_core.Sdk.Documents
use dms_core.Sdk.Documents.{get_internal_metadata, get_metadata, get_content, get_content_stream}
use dms_core.Sdk.Upload.Keyed
use dms_core.Sdk.Upload.Streams
use dms_core.Sdk.Reconciliation
use dms_core.Sdk.Batches

-- `_enforce_access` on metadata that is public already
unfoldable pub passes_public :
    Option DocumentAccessPolicy → Text → Option AccessContext → PublicDocumentMetadata → Bool
passes_public none operation context metadata = true
passes_public (some policy) operation context metadata =
    is_allowed (policy.allows operation context (some metadata))

module _ {D B O : Type 0} (env : Backend D B O) (policy : Option DocumentAccessPolicy)
    (context : Option AccessContext) (partition : DocumentPartition) where
  abbrev Call : Type 0 → Type 0
  Call A = Exec (World D B O) A

  -- The metadata that an operation on one document is asked for.
  unfoldable pub require_document_access : Text → Text → Call DocumentMetadata
  require_document_access operation document_id = do
    metadata ← get_internal_metadata env document_id partition
    enforce_access env policy operation context (some metadata)
    pure metadata

  unfoldable pub get_internal_document_metadata : Text → Call DocumentMetadata
  unfolding require_document_access
  get_internal_document_metadata document_id =
      require_document_access (codes "metadata.internal") document_id

  unfoldable pub get_document_metadata : Text → Call PublicDocumentMetadata
  unfolding passes_public
  get_document_metadata document_id = do
    metadata ← get_metadata env document_id partition
    raise_if (not (passes_public policy (codes "metadata.get") context metadata))
        access_denied_error
    pure metadata

  unfoldable pub get_document_content : Text → Call DocumentContent
  unfolding require_document_access
  get_document_content document_id = do
    metadata ← require_document_access (codes "content.get") document_id
    get_content env document_id partition

  unfoldable pub get_document_content_stream : Text → ℕ → Call DocumentContentStream
  unfolding require_document_access
  get_document_content_stream document_id chunk_size = do
    raise_if (chunk_size == 0) validation_error
    metadata ← require_document_access (codes "content.stream") document_id
    get_content_stream env document_id chunk_size partition

  unfoldable pub upload_document : UploadDocumentRequest → Call UploadDocumentResult
  upload_document request =
      enforce_access env policy (codes "upload") context none
      >> Keyed.upload_document env request partition

  unfoldable pub upload_document_stream : UploadDocumentStreamRequest → Call UploadDocumentResult
  upload_document_stream request =
      enforce_access env policy (codes "upload") context none
      >> Streams.upload_document_stream env request partition

  unfoldable pub get_upload_operation : Text → Text → Call UploadOperationResult
  get_upload_operation scope idempotency_key =
      enforce_access env policy (codes "upload.operation.get") context none
      >> Keyed.get_upload_operation env scope idempotency_key partition

  unfoldable pub list_recovery_candidates : DocumentStatus → ℤ → ℤ → Call (List DocumentMetadata)
  list_recovery_candidates status offset limit =
      enforce_access env policy (codes "recovery.list") context none
      >> Batches.list_recovery_candidates env status offset limit partition

  -- the metadata of the document, if it has any
  unfoldable pub load_optional : Text → Call (Option DocumentMetadata)
  load_optional document_id =
      catch (get_internal_metadata env document_id partition >>= λ metadata. pure (some metadata))
        λ exc. if is_not_found_error exc then pure none else raise exc

  unfoldable pub load_if : Bool → Text → Call (Option DocumentMetadata)
  load_if false document_id = pure none
  load_if true document_id =
      get_internal_metadata env document_id partition >>= λ metadata. pure (some metadata)

  unfoldable pub inspect_document : Text → Call DocumentInspection
  unfolding load_if
  inspect_document document_id = do
    inspection ← Reconciliation.inspect_document env document_id partition
    metadata ← load_if inspection.metadata_exists document_id
    enforce_access env policy (codes "document.inspect") context metadata
    pure inspection

  -- Without a policy there is nothing to ask.
  unfoldable pub require_recovery_access : Option DocumentAccessPolicy → Text → Call (Unit {0})
  unfolding load_optional
  require_recovery_access none document_id = pure tt
  require_recovery_access (some _) document_id = do
    metadata ← load_optional document_id
    enforce_access env policy (codes "recovery.execute") context metadata

  unfoldable pub reconcile_document :
      Text → RecoveryAction → Option Text → Bool → Option Text → Call ReconciliationResult
  unfolding require_recovery_access
  reconcile_document document_id action storage_key dry_run actor =
      require_recovery_access policy document_id
      >> Reconciliation.reconcile_document env document_id action storage_key dry_run actor
          partition
