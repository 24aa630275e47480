-- ===== src/Sdk/Access/Denial.antt =====
-- What a call that the policy denies leaves behind.
use dms_core.Prelude.{Text, Bool, false, not, Option, none, some, ◌≡◌, ◌≢◌}
use dms_core.Domain.Models.{DocumentMetadata, DocumentPartition}
use dms_core.Domain.Errors.{
  Exc, access_denied_error, document_not_found_error, metadata_store_error,
}
use dms_core.Domain.Exec.{Outcome, Exec, ok, raised, ◌>>◌}
use dms_core.Domain.Exec.Rules.{bind-ensures, guard-ensures}
use dms_core.Domain.Laws.{found}
use dms_core.Sdk.Types.{DeleteDocumentResult}
use dms_core.Sdk.World.{World, Backend, BackendLaws, table_of, Same}
use dms_core.Sdk.Documents.{get_internal_metadata, delete}
use dms_core.Sdk.Documents.Steps.{GetsInternal, get_internal_metadata-GetsInternal}
use dms_core.Sdk.Access.{
  AccessContext, DocumentAccessPolicy, passes, delete_operation, enforce_access, delete_document,
}
use dms_core.Sdk.Access.Permits.{Permits, deletion, delete_operation-deletion, denied_passes}

module _ {D B O : Type 0} (env : Backend D B O) (laws : BackendLaws env)
    (policy : Option DocumentAccessPolicy) (id : Text) (p : DocumentPartition) (hard : Bool)
    (context : Option AccessContext) (w : World D B O) where
  abbrev pub Refuses : Outcome DeleteDocumentResult × World D B O → Type 0
  Refuses (ok r, w') = ⊥
  Refuses (raised access_denied_error, w') = (found (table_of laws w) id p ≢ none) × Same laws w w'
  Refuses (raised document_not_found_error, w') =
      (found (table_of laws w) id p ≡ none) × Same laws w w'
  Refuses (raised metadata_store_error, w') = Same laws w w'
  Refuses (raised _, w') = ⊥

  abbrev after_check : DocumentMetadata → Exec (World D B O) DeleteDocumentResult
  after_check m =
      enforce_access env policy (delete_operation hard) context (some m) >> delete env id hard p

  -- Where the policy, shown the caller's context and the public view of the document that is there,
  -- if one is, does not answer yes, or raises, for "document.hard_delete" in a hard deletion and
  -- for "document.delete" otherwise: the call never deletes. It raises AccessDeniedError where there is a document, and otherwise
  -- DocumentNotFoundError, or MetadataStoreError where the read fails; the table and the bucket
  -- are as they were.
  pub delete_document-Refuses :
      ((m : DocumentMetadata)
        → found (table_of laws w) id p ≡ some m
        → ¬ Permits policy (deletion hard) context (some m))
      → Refuses (delete_document env policy id p hard context w)
  unfolding delete_document enforce_access
  delete_document-Refuses denied =
      bind-ensures (GetsInternal env laws id p w) Refuses (get_internal_metadata env id p)
        after_check w (get_internal_metadata-GetsInternal env laws id p w)
        (λ m t h.
          guard-ensures Refuses (not (passes policy (delete_operation hard) context (some m)))
            access_denied_error (delete env id hard p) t (λ _. ((λ z. cc (h.0, z)), h.2))
            (λ g. absurd (cc (g, not_passed m h.0))))
        fails
    where
      not_passed :
          (m : DocumentMetadata)
          → found (table_of laws w) id p ≡ some m
          → passes policy (delete_operation hard) context (some m) ≡ false
      not_passed m f =
          rw (delete_operation-deletion hard)
            (denied_passes policy (deletion hard) context (some m) (denied m f))

      fails :
          (e : Exc) (t : World D B O)
          → GetsInternal env laws id p w (raised e, t)
          → Refuses (raised e, t)
      fails document_not_found_error t h = h
      fails metadata_store_error t h = h
      fails _ t h = absurd h
