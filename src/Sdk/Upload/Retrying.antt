-- ===== src/Sdk/Upload/Retrying.antt =====
-- A retry of an upload whose success was not marked.
use dms_core.Prelude.{ℕ, ◌∷◌, Text, some, ◌≡◌, ◌≢◌, inl, inr, sym, subst, ◌∙◌}
use dms_core.Domain.Models.{
  DocumentPartition, DocumentMetadata, UploadOperation, UploadOperationState,
}
use dms_core.Domain.Exec.{ok}
use dms_core.Domain.Interfaces.{UploadOperationStore}
use dms_core.Domain.OperationLaws.{OperationStoreLaws}
use dms_core.Sdk.Types.{UploadDocumentRequest, UploadDocumentResult}
use dms_core.Sdk.World.{World, Backend, BackendLaws, table_of}
use dms_core.Sdk.Upload.Atomic.{Names}
use dms_core.Sdk.Upload.Keyed.{upload_keyed}
use dms_core.Sdk.Upload.Claims.{Claimable}
use dms_core.Sdk.Upload.Idempotence.{operation_of}
use dms_core.Sdk.Upload.Replaying.{scope_of, UploadsOnce, upload_keyed-UploadsOnce}

module _ {D B O : Type 0} (env : Backend D B O) (laws : BackendLaws env)
    (store : UploadOperationStore O) (ops : OperationStoreLaws store)
    (request : UploadDocumentRequest) (checksum scope key : Text) (p : DocumentPartition) where
  taken :
      (w : World D B O) (o : UploadOperation) (m : DocumentMetadata) (c : ℕ) (i : Text)
      (r : UploadDocumentResult) (w' : World D B O)
      → operation_of env laws store ops request
          (scope_of env laws store ops request checksum scope key p)
          key
          p
          w
        ≡ some o
      → o.state ≡ UploadOperationState.failed
      → o.document_id ≡ c ∷ i
      → table_of laws w (c ∷ i) ≡ some m
      → UploadsOnce env laws store ops request checksum scope key p w (ok r, w')
      → ⊥
  taken w o m c i r w' e f d t (inl (id, free, ((n, reg), _))) =
      let g = subst (Claimable id) e free in
      let same : r.document_id ≡ c ∷ i =
        subst (λ z. Names (some z) r.document_id) (sym g.1 ∙ d) n in
      let fresh = reg.4 in cc
  taken w o m c i r w' e f d t (inr (_, (u, eu, su, _, _))) = cc

  -- Over stores that keep their laws: where the operation has failed although its document is
  -- registered under an identifier that is not empty, as after an upload whose
  -- mark was not persisted, a retry with the same key never returns a result: it raises.
  pub upload_keyed_stuck :
      (w : World D B O) (o : UploadOperation) (m : DocumentMetadata) (c : ℕ) (i : Text)
      → operation_of env laws store ops request
          (scope_of env laws store ops request checksum scope key p)
          key
          p
          w
        ≡ some o
      → o.state ≡ UploadOperationState.failed
      → o.document_id ≡ c ∷ i
      → table_of laws w (c ∷ i) ≡ some m
      → (r : UploadDocumentResult)
      → (upload_keyed env store request checksum key scope p w).0 ≢ ok r
  upload_keyed_stuck w o m c i e f d t r h =
      taken w o m c i r (upload_keyed env store request checksum key scope p w).1 e f d t (
        subst
          (λ x.
            UploadsOnce env laws store ops request checksum scope key p w
              (x, (upload_keyed env store request checksum key scope p w).1))
          h (upload_keyed-UploadsOnce env laws store ops request checksum scope key p w))
