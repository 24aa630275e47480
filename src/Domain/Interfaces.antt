-- ===== src/Domain/Interfaces.antt =====
-- dms/domain/interfaces.py: the requests and the `Protocol` classes of the stores. A store is a
-- record of its methods, each a call on the store's own state; the services take any such record.
use dms_core.Prelude.{ℕ, Text, Bool, Option, List}
use dms_core.Domain.Value.{Fields}
use dms_core.Domain.Models.{
  DateTime, DocumentMetadata, DocumentPartition, DocumentStatus, UploadOperation,
  UploadOperationClaim,
}
use dms_core.Domain.Exec.{Exec}

-- `bytes`
abbrev pub Bytes : Type 0
Bytes = List ℕ

pub record PutObjectRequest : Type 0 where
  pub document_id : Text
  pub storage_key : Text
  pub content : Bytes
  pub content_type : Text
  pub filename : Text
  pub checksum : Option Text
  pub metadata : Option Fields

pub record StoredObject : Type 0 where
  pub document_id : Text
  pub storage_key : Text
  pub content : Bytes
  pub content_type : Text
  pub filename : Text
  pub size : ℕ
  pub checksum : Option Text

-- A stream of a request is all that it gives until its end.
pub record PutObjectStreamRequest : Type 0 where
  pub document_id : Text
  pub storage_key : Text
  pub stream : Bytes
  pub size : ℕ
  pub chunk_size : ℕ
  pub content_type : Text
  pub filename : Text
  pub checksum : Option Text
  pub metadata : Option Fields

-- What `put_object_stream` returns, and what it has done to the stream: what each `read` gave.
pub record StreamedPut : Type 0 where
  pub storage_key : Text
  pub reads : List Bytes

pub record StoredObjectStream : Type 0 where
  pub document_id : Text
  pub storage_key : Text
  pub stream : Bytes
  pub content_type : Text
  pub filename : Text
  pub size : ℕ
  pub checksum : Option Text

-- The arguments of `list_metadata_page`.
pub record PageQuery : Type 0 where
  pub partition : DocumentPartition
  pub after_created_at : Option DateTime
  pub after_document_id : Option Text
  pub limit : ℕ
  pub status : Option DocumentStatus
  pub excluded_statuses : List DocumentStatus

-- The arguments of `list_metadata`.
pub record ListQuery : Type 0 where
  pub offset : ℕ
  pub limit : ℕ
  pub partition : DocumentPartition
  pub status : Option DocumentStatus
  pub excluded_statuses : List DocumentStatus

pub record MetadataStore (D : Type 0) : Type 0 where
  pub allocate_document_id : Exec D Text
  pub save_metadata : DocumentMetadata → Exec D DocumentMetadata
  pub update_metadata : DocumentMetadata → Exec D DocumentMetadata
  pub get_metadata : Text → DocumentPartition → Exec D DocumentMetadata
  pub list_metadata : ListQuery → Exec D (List DocumentMetadata)
  pub list_metadata_page : PageQuery → Exec D (List DocumentMetadata)
  pub mark_deleted : Text → DocumentPartition → Exec D DocumentMetadata
  pub hard_delete : Text → DocumentPartition → Exec D (Unit {0})
  pub clear_all : Exec D ℕ
  pub clear_partition : DocumentPartition → Exec D ℕ
  pub exists : Text → Exec D Bool

pub record ObjectStore (B : Type 0) : Type 0 where
  pub put_object : PutObjectRequest → Exec B Text
  pub put_object_stream : PutObjectStreamRequest → Exec B StreamedPut
  pub get_object : Text → Text → Exec B StoredObject
  pub get_object_stream : Text → Text → Exec B StoredObjectStream
  pub delete_object : Text → Text → Exec B (Unit {0})
  pub clear_all : Exec B ℕ
  pub clear_partition : DocumentPartition → Exec B ℕ
  pub object_exists : Text → Text → Exec B Bool

pub record UploadOperationStore (O : Type 0) : Type 0 where
  -- scope, idempotency_key, fingerprint, document_id
  pub claim : Text → Text → Text → Text → Exec O UploadOperationClaim
  pub get : Text → Text → Exec O UploadOperation
  pub mark_succeeded : Text → Text → Exec O (Unit {0})
  pub mark_failed : Text → Text → Exec O (Unit {0})
  -- scope_prefix
  pub clear_all : Option Text → Exec O ℕ
