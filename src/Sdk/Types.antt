-- ===== src/Sdk/Types.antt =====
-- dms/sdk/types.py: requests, results, and the public projection of a document's metadata.
pub mod Views
use dms_core.Prelude.{ℕ, Text, Bool, Option, none, List}
use dms_core.Domain.Value.{Fields}
use dms_core.Domain.Models.{
  DateTime, DocumentMetadata, DocumentPartition, DocumentStatus, UploadOperationState,
}
use dms_core.Domain.Interfaces.{Bytes}

pub record UploadDocumentRequest : Type 0 where
  pub content : Bytes
  pub filename : Text
  pub content_type : Text
  pub document_id : Option Text
  pub metadata : Option Fields
  pub created_by : Option Text
  pub checksum : Option Text
  pub idempotency_key : Option Text
  pub idempotency_scope : Option Text

-- A stream is all that it gives until its end; its declared size is not negative.
pub record UploadDocumentStreamRequest : Type 0 where
  pub stream : Bytes
  pub size : ℕ
  pub filename : Text
  pub content_type : Text
  pub document_id : Option Text
  pub metadata : Option Fields
  pub created_by : Option Text

-- What the upload service reads of either request.
pub record UploadFields : Type 0 where
  pub filename : Text
  pub content_type : Text
  pub document_id : Option Text
  pub metadata : Option Fields
  pub created_by : Option Text
  pub idempotency_key : Option Text
  pub idempotency_scope : Option Text

abbrev pub fields_of : UploadDocumentRequest → UploadFields
fields_of request = record {
  filename = request.filename;
  content_type = request.content_type;
  document_id = request.document_id;
  metadata = request.metadata;
  created_by = request.created_by;
  idempotency_key = request.idempotency_key;
  idempotency_scope = request.idempotency_scope;
}

-- `getattr(request, "idempotency_key", None)` of a request that has none
abbrev pub stream_fields : UploadDocumentStreamRequest → UploadFields
stream_fields request = record {
  filename = request.filename;
  content_type = request.content_type;
  document_id = request.document_id;
  metadata = request.metadata;
  created_by = request.created_by;
  idempotency_key = none;
  idempotency_scope = none;
}

pub record PublicDocumentMetadata : Type 0 where
  pub document_id : Text
  pub original_filename : Text
  pub content_type : Text
  pub file_size : ℕ
  pub status : DocumentStatus
  pub created_at : DateTime
  pub updated_at : DateTime
  pub partition : DocumentPartition
  pub checksum : Option Text
  pub deleted_at : Option DateTime
  pub created_by : Option Text
  pub extra_metadata : Fields

unfoldable pub public_metadata : DocumentMetadata → PublicDocumentMetadata
public_metadata source = record {
  document_id = source.document_id;
  original_filename = source.original_filename;
  content_type = source.content_type;
  file_size = source.file_size;
  status = source.status;
  created_at = source.created_at;
  updated_at = source.updated_at;
  partition = source.partition;
  checksum = source.checksum;
  deleted_at = source.deleted_at;
  created_by = source.created_by;
  extra_metadata = source.extra_metadata;
}

pub record UploadDocumentResult : Type 0 where
  pub document_id : Text
  pub metadata : PublicDocumentMetadata
  pub created : Bool

pub record UploadOperationResult : Type 0 where
  pub scope : Text
  pub idempotency_key : Text
  pub document_id : Text
  pub state : UploadOperationState
  pub created_at : DateTime
  pub updated_at : DateTime

pub record DocumentContent : Type 0 where
  pub document_id : Text
  pub content : Bytes
  pub content_type : Text
  pub filename : Text
  pub size : ℕ
  pub checksum : Option Text

-- `DocumentContentStream` before the first read: a stream is all that it gives until its end.
pub record DocumentContentStream : Type 0 where
  pub document_id : Text
  pub stream : Bytes
  pub content_type : Text
  pub filename : Text
  pub size : ℕ
  pub checksum : Option Text
  pub chunk_size : ℕ

pub record DeleteDocumentResult : Type 0 where
  pub document_id : Text
  pub deleted : Bool
  pub hard_deleted : Bool
  pub status : DocumentStatus

pub record DocumentPage : Type 0 where
  pub items : List PublicDocumentMetadata
  pub next_cursor : Option Text
  pub has_more : Bool

pub data RecoveryIssue : Type 0 where
  clean metadata_missing object_missing deletion_incomplete failed_status : RecoveryIssue

pub data RecoveryAction : Type 0 where
  complete_deletion_soft complete_deletion_hard mark_failed purge_orphan_object : RecoveryAction

pub record DocumentInspection : Type 0 where
  pub document_id : Text
  pub metadata_exists : Bool
  pub object_exists : Option Bool
  pub status : Option DocumentStatus
  pub consistent : Bool
  pub issue : RecoveryIssue
  pub storage_key : Option Text

-- `error_type` is the exception's class name; the model keeps its stable code.
pub record ReconciliationResult : Type 0 where
  pub document_id : Text
  pub action : RecoveryAction
  pub applied : Bool
  pub inspection : Option DocumentInspection
  pub error_type : Option Text

-- `occurred_at` and the message are left out.
pub record RecoveryAuditEvent : Type 0 where
  pub document_id : Text
  pub action : RecoveryAction
  pub dry_run : Bool
  pub succeeded : Bool
  pub applied : Bool
  pub actor : Option Text
  pub error_type : Option Text
