-- ===== src/Sdk/Upload/Race.antt =====
-- Two uploads under one identifier, the second between the first one's test for a duplicate and its
-- save.
use dms_core.Prelude.{Text, none, some, text_eq_refl, ◌≡◌, ap, ◌∙◌}
use dms_core.Domain.Models.{DocumentPartition, DocumentMetadata}
use dms_core.Domain.Errors.{duplicate_document_error}
use dms_core.Domain.Exec.{Outcome, ok, raised}
use dms_core.Sdk.Types.{UploadDocumentRequest, UploadDocumentResult}
use dms_core.Sdk.World.{World, Backend, BackendLaws, table_of, bucket_of}
use dms_core.Sdk.Upload.{store_document}
use dms_core.Sdk.Upload.Outcomes.{key_of, Stores}
use dms_core.Sdk.Upload.Storing.{store_document-Stores}

module _ {D B O : Type 0} (env : Backend D B O) (laws : BackendLaws env)
    (request : UploadDocumentRequest) (id : Text) (p : DocumentPartition) where
  lost :
      (w : World D B O) (x : Outcome UploadDocumentResult × World D B O)
      → Stores env laws request id p w x
      → x.0 ≡ raised duplicate_document_error
      → (table_of laws x.1 ≡ table_of laws w)
        × (bucket_of laws x.1 (key_of env laws request id p) ≡ none)
  lost w (ok r, u) h e = cc
  lost w (raised duplicate_document_error, u) h e =
      (h.0, ap (λ b. b (key_of env laws request id p)) h.2 ∙ rw text_eq_refl)
  lost w (raised other, u) h e = cc

  -- Where the identifier has been registered with this storage key after the test for a duplicate,
  -- an upload that then raises DuplicateDocumentError leaves the registered record as it is and has
  -- removed the content that the record names.
  pub store_document_race :
      (m : DocumentMetadata) (w : World D B O)
      → table_of laws w id ≡ some m
      → m.storage_key ≡ key_of env laws request id p
      → (store_document env request id p w).0 ≡ raised duplicate_document_error
      → (table_of laws (store_document env request id p w).1 id ≡ some m)
        × (bucket_of laws (store_document env request id p w).1 m.storage_key ≡ none)
  store_document_race m w e k r =
      let h =
        lost w (store_document env request id p w) (store_document-Stores env laws request id p w)
          r in
      (ap (λ t. t id) h.0 ∙ e, rw k h.1)
