-- ===== src/Sdk/Upload/Rest.antt =====
-- An upload without a key writes neither the upload operations nor the audit trail.
use dms_core.Prelude.{ℕ, Text, Option, none, some, [], ◌∷◌}
use dms_core.Domain.Models.{DocumentPartition}
use dms_core.Domain.Errors.{Exc}
use dms_core.Sdk.Types.{UploadDocumentRequest, UploadFields}
use dms_core.Sdk.World.{Backend}
use dms_core.Sdk.Keeping.{keeps_rest, KeepsRest}
use dms_core.Sdk.Upload.{
  allocate_document_id, resolve_document_id, save_uploaded_metadata, roll_back, store_document,
  upload_unkeyed,
}

module _ {D B O : Type 0} (env : Backend D B O) where
  allocate-KeepsRest : KeepsRest (allocate_document_id env)
  unfolding allocate_document_id
  allocate-KeepsRest = search keeps_rest

  pub resolve-KeepsRest : (given : Option Text) → KeepsRest (resolve_document_id env given)
  unfolding resolve_document_id
  resolve-KeepsRest none = allocate-KeepsRest
  resolve-KeepsRest (some []) = allocate-KeepsRest
  resolve-KeepsRest (some (c ∷ s)) = search keeps_rest

  save-KeepsRest :
      (r : UploadFields) (size : ℕ) (id key sum : Text) (p : DocumentPartition)
      → KeepsRest (save_uploaded_metadata env r size id key sum p)
  unfolding save_uploaded_metadata
  save-KeepsRest r size id key sum p = search keeps_rest

  roll_back-KeepsRest : (id key : Text) (e : Exc) → KeepsRest (roll_back env id key e)
  unfolding roll_back
  roll_back-KeepsRest id key e = search keeps_rest

  store_document-KeepsRest :
      (r : UploadDocumentRequest) (id : Text) (p : DocumentPartition)
      → KeepsRest (store_document env r id p)
  unfolding store_document
  store_document-KeepsRest r id p = search (keeps_rest, save-KeepsRest, roll_back-KeepsRest) depth 9

  pub upload_unkeyed-KeepsRest :
      (r : UploadDocumentRequest) (p : DocumentPartition) → KeepsRest (upload_unkeyed env r p)
  unfolding upload_unkeyed
  upload_unkeyed-KeepsRest r p =
      search (keeps_rest, resolve-KeepsRest, store_document-KeepsRest) depth 9
