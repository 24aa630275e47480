-- ===== src/Sdk/Access.antt =====
-- The access policy of a host: `AccessContext` and `_enforce_access` of dms/sdk/contracts.py, and
-- the calls of dms/sdk/implementation.py that ask it. Observers are left out, and the context that
-- a recovery call hands on is taken to be the one given.
pub mod Permits
pub mod Denial
use dms_core.Prelude.{Text, codes, Bool, true, false, not, Option, none, some, List, ℤ}
use dms_core.Domain.Models.{DocumentMetadata, DocumentPartition, DocumentStatus}
use dms_core.Domain.Errors.{access_denied_error}
use dms_core.Domain.Exec.{Exec, pure, raise_if, ◌>>=◌, ◌>>◌}
use dms_core.Sdk.Types.{PublicDocumentMetadata, public_metadata, DeleteDocumentResult, DocumentPage}
use dms_core.Sdk.World.{World, Backend}
use dms_core.Sdk.Documents.{get_internal_metadata, delete}
use dms_core.Sdk.Documents.Listing.{list_page}

pub record AccessContext : Type 0 where
  pub subject : Option Text
  pub user_id : Option Text
  pub tenant : Option Text
  pub groups : List Text
  pub roles : List Text

-- `DocumentAccessPolicy`: on an operation, a context and a public document; none is an exception.
pub record DocumentAccessPolicy : Type 0 where
  pub allows : Text → Option AccessContext → Option PublicDocumentMetadata → Option Bool

abbrev pub is_allowed : Option Bool → Bool
is_allowed none = false
is_allowed (some b) = b

-- `_project_access_metadata`
unfoldable pub project_access_metadata : Option DocumentMetadata → Option PublicDocumentMetadata
project_access_metadata none = none
project_access_metadata (some m) = some (public_metadata m)

-- whether `_enforce_access` lets an operation pass
unfoldable pub passes :
    Option DocumentAccessPolicy → Text → Option AccessContext → Option DocumentMetadata → Bool
passes none operation context metadata = true
passes (some policy) operation context metadata =
    is_allowed (policy.allows operation context (project_access_metadata metadata))

unfoldable pub delete_operation : Bool → Text
delete_operation true = codes "document.hard_delete"
delete_operation false = codes "document.delete"

module _ {D B O : Type 0} (env : Backend D B O) (policy : Option DocumentAccessPolicy) where
  abbrev Call : Type 0 → Type 0
  Call A = Exec (World D B O) A

  unfoldable pub enforce_access :
      Text → Option AccessContext → Option DocumentMetadata → Call (Unit {0})
  enforce_access operation context metadata =
      raise_if (not (passes policy operation context metadata)) access_denied_error

  unfoldable pub delete_document :
      Text → DocumentPartition → Bool → Option AccessContext → Call DeleteDocumentResult
  delete_document document_id partition hard_delete context =
      get_internal_metadata env document_id partition >>= λ metadata.
      enforce_access (delete_operation hard_delete) context (some metadata)
      >> delete env document_id hard_delete partition

  unfoldable pub list_documents :
      DocumentPartition
      → Option Text
      → ℤ
      → Option DocumentStatus
      → Option AccessContext
      → Call DocumentPage
  list_documents partition cursor limit status context =
      enforce_access (codes "documents.list") context none
      >> list_page env partition cursor limit status
