-- ===== src/Sdk/Upload/Claims.antt =====
-- What a claim tells of the operation before it.
use dms_core.Prelude.{
  Text, true, false, Option, none, some, ◌≡◌, ◌≢◌, ◌⊎◌, inl, inr, refl, ap, sym, subst,
}
use dms_core.Domain.Models.{UploadOperation, UploadOperationState, UploadOperationClaim}
use dms_core.Domain.OperationLaws.{ClaimedFrom}
use dms_core.Sdk.Upload.Keyed.{is_pending}

pub not_pending :
    (state : UploadOperationState)
    → is_pending state ≡ false
    → state ≢ UploadOperationState.failed
    → state ≡ UploadOperationState.succeeded
not_pending UploadOperationState.pending h n = cc
not_pending UploadOperationState.succeeded h n = refl
not_pending UploadOperationState.failed h n = absurd (n refl)

pub failed_cases :
    (s : UploadOperationState)
    → (s ≡ UploadOperationState.failed) ⊎ (s ≢ UploadOperationState.failed)
failed_cases UploadOperationState.failed = inl refl
failed_cases UploadOperationState.pending = inr (λ e. cc)
failed_cases UploadOperationState.succeeded = inr (λ e. cc)

pub claim_pending :
    (id : Text) (o : Option UploadOperation) (c : UploadOperationClaim)
    → ClaimedFrom id o c
    → c.claimed ≡ true
    → c.operation.state ≡ UploadOperationState.pending
claim_pending id none c h e = h.1
claim_pending id (some o) c h e = elim (failed_cases o.state) [
  | inl f ↦ (h.0 f).1
  | inr n ↦ let g = (h.1 n).0 in cc
]

-- An operation that a claim may take for a document: there is none, or it has failed for it.
abbrev pub Claimable : Text → Option UploadOperation → Type 0
Claimable id none = Unit
Claimable id (some o) = (o.state ≡ UploadOperationState.failed) × (o.document_id ≡ id)

pub claim_free :
    (id : Text) (o : Option UploadOperation) (c : UploadOperationClaim)
    → ClaimedFrom id o c
    → c.claimed ≡ true
    → Claimable c.operation.document_id o
claim_free id none c h e = tt
claim_free id (some o) c h e = elim (failed_cases o.state) [
  | inl f ↦ (f, sym (h.0 f).2)
  | inr n ↦ let g = (h.1 n).0 in cc
]

pub claim_taken :
    (id : Text) (o : Option UploadOperation) (c : UploadOperationClaim)
    → ClaimedFrom id o c
    → c.claimed ≡ false
    → (o ≡ some c.operation) × (c.operation.state ≢ UploadOperationState.failed)
claim_taken id none c h e = cc
claim_taken id (some o) c h e = elim (failed_cases o.state) [
  | inl f ↦ let g = (h.0 f).0 in cc
  | inr n ↦ (
    ap some (sym (h.1 n).1),
    subst (λ z. z.state ≢ UploadOperationState.failed) (sym (h.1 n).1) n,
  )
]
