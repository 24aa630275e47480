-- ===== src/Sdk/Types/Views.antt =====
-- The public view of a document, told apart from `public_metadata`.
use dms_core.Prelude.{◌≡◌, refl}
use dms_core.Domain.Models.{DocumentMetadata}
use dms_core.Sdk.Types.{PublicDocumentMetadata, public_metadata}

-- Every field of the record but its storage key.
abbrev pub public_view : DocumentMetadata → PublicDocumentMetadata
public_view m = record {
  document_id = m.document_id;
  original_filename = m.original_filename;
  content_type = m.content_type;
  file_size = m.file_size;
  status = m.status;
  created_at = m.created_at;
  updated_at = m.updated_at;
  partition = m.partition;
  checksum = m.checksum;
  deleted_at = m.deleted_at;
  created_by = m.created_by;
  extra_metadata = m.extra_metadata;
}

pub public_metadata-public_view : (m : DocumentMetadata) → public_metadata m ≡ public_view m
unfolding public_metadata
public_metadata-public_view m = refl
