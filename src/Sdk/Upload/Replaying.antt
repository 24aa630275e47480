-- ===== src/Sdk/Upload/Replaying.antt =====
-- A call of `_idempotent_upload` with a key, whole.
use dms_core.Prelude.{
  Text, Bool, true, false, some, ◌≡◌, ◌⊎◌, inl, inr, refl, ap, sym, subst, ◌∙◌, arith,
  if◌then◌else◌,
}
use dms_core.Domain.Models.{
  DocumentPartition, DocumentMetadata, UploadOperation, UploadOperationState, UploadOperationClaim,
}
use dms_core.Domain.Exec.{Outcome, Exec, ok, raised, ◌>>=◌}
use dms_core.Domain.Exec.Rules.{bind-ensures}
use dms_core.Domain.Interfaces.{UploadOperationStore}
use dms_core.Domain.Laws.{found}
use dms_core.Domain.OperationLaws.{ClaimedFrom, Claims, OperationStoreLaws}
use dms_core.Sdk.Types.{UploadDocumentRequest, UploadDocumentResult, public_metadata}
use dms_core.Sdk.Contracts.{partition_operation_scope}
use dms_core.Sdk.World.{World, Backend, BackendLaws, table_of, bucket_of, Same, on_ops}
use dms_core.Sdk.Documents.{get_internal_metadata}
use dms_core.Sdk.Upload.{resolve_document_id}
use dms_core.Sdk.Upload.Atomic.{Resolves, resolve-Resolves}
use dms_core.Sdk.Upload.Rest.{resolve-KeepsRest}
use dms_core.Sdk.Upload.Keyed.{
  is_pending, replay, upload_claimed, upload_keyed, build_upload_fingerprint,
}
use dms_core.Sdk.Upload.Claims.{Claimable, claim_free, claim_pending, claim_taken, not_pending}
use dms_core.Sdk.Upload.Idempotence.{operation_of, Marked, upload_claimed-Marked, Marked-Same}

module _ {D B O : Type 0} (env : Backend D B O) (laws : BackendLaws env) where
  -- The document of an operation is found, and shown as one that was not created now.
  abbrev pub Shows :
      UploadOperation → DocumentPartition → World D B O → UploadDocumentResult → Type 0
  Shows o p w r =
      (m : DocumentMetadata) × (found (table_of laws w) o.document_id p ≡ some m)
      × (r ≡ record { document_id = o.document_id; metadata = public_metadata m; created = false })

  abbrev Replays :
      UploadOperation
      → DocumentPartition
      → World D B O
      → Outcome UploadDocumentResult × World D B O
      → Type 0
  Replays o p w (ok r, w') = (is_pending o.state ≡ false) × Shows o p w r × Same laws w w'
  Replays o p w (raised e, w') = Same laws w w'

  replay-Replays :
      (o : UploadOperation) (p : DocumentPartition) (w : World D B O)
      → Replays o p w (replay env o p w)
  unfolding replay get_internal_metadata
  replay-Replays o p w = ground (arith, laws.db.gets o.document_id p w.db)

module _ {D B O : Type 0} (env : Backend D B O) (laws : BackendLaws env)
    (store : UploadOperationStore O) (ops : OperationStoreLaws store)
    (request : UploadDocumentRequest) (checksum scope key : Text) (p : DocumentPartition) where
  abbrev pub scope_of : Text
  scope_of = partition_operation_scope env.sha256 p scope

  abbrev pub fingerprint_of : Text
  fingerprint_of = build_upload_fingerprint env request checksum p

  abbrev pub UploadsOnce : World D B O → Outcome UploadDocumentResult × World D B O → Type 0
  UploadsOnce w (ok r, w') =
      ((id : Text) × Claimable id (operation_of env laws store ops request scope_of key p w)
        × Marked env laws store ops request scope_of key p fingerprint_of id w (ok r, w'))
      ⊎ (Same laws w w'
          × ((o : UploadOperation) × (operation_of env laws store ops request scope_of key p w
                ≡ some o)
              × (o.state ≡ UploadOperationState.succeeded)
              × (o.fingerprint ≡ fingerprint_of)
              × Shows env laws o p w r))
  UploadsOnce w (raised e, w') =
      Same laws w w'
      ⊎ ((id : Text) × Marked env laws store ops request scope_of key p fingerprint_of id w
            (raised e, w'))

  claimed-UploadsOnce :
      (w u : World D B O) (id : Text)
      → Same laws w u
      → Claimable id (operation_of env laws store ops request scope_of key p w)
      → (r : Outcome UploadDocumentResult) (v : World D B O)
      → Marked env laws store ops request scope_of key p fingerprint_of id u (r, v)
      → UploadsOnce w (r, v)
  claimed-UploadsOnce w u id s f (ok r) v h = inl (
    id,
    f,
    Marked-Same env laws store ops request scope_of key p fingerprint_of id w u s (ok r) v h,
  )
  claimed-UploadsOnce w u id s f (raised e) v h = inr (
    id,
    Marked-Same env laws store ops request scope_of key p fingerprint_of id w u s (raised e) v h,
  )

  abbrev after_claim : UploadOperationClaim → Exec (World D B O) UploadDocumentResult
  after_claim c =
      if c.claimed
      then upload_claimed env store request c.operation.document_id scope_of key p
      else replay env c.operation p

  -- Nothing but the operations differs from `w`, and the claim `c` was made there.
  abbrev ClaimedIn : World D B O → Text → UploadOperationClaim → World D B O → Type 0
  ClaimedIn w id c u =
      Same laws w u
      × (c.operation.fingerprint ≡ fingerprint_of)
      × ClaimedFrom id (operation_of env laws store ops request scope_of key p w) c
      × (operation_of env laws store ops request scope_of key p u ≡ some c.operation)

  after_claim-UploadsOnce :
      (w u : World D B O) (id : Text) (c : UploadOperationClaim)
      → ClaimedIn w id c u
      → (b : Bool) → c.claimed ≡ b
      → UploadsOnce w (
          (if b
              then upload_claimed env store request c.operation.document_id scope_of key p
              else replay env c.operation p)
            u)
  after_claim-UploadsOnce w u id c (s, fp, from, at) true e =
      claimed-UploadsOnce w u c.operation.document_id s (claim_free id _ c from e) _ _ (
        upload_claimed-Marked env laws store ops request scope_of key p fingerprint_of
          c.operation.document_id u (c.operation, at, claim_pending id _ c from e, refl, fp))
  after_claim-UploadsOnce w u id c (s, fp, from, at) false e =
      replayed (replay env c.operation p u) (replay-Replays env laws c.operation p u)
    where
      replayed :
          (x : Outcome UploadDocumentResult × World D B O)
          → Replays env laws c.operation p u x
          → UploadsOnce w x
      replayed (ok r, v) (np, (m, fm, er), same) = inr (
        (same.0 ∙ s.0, same.1 ∙ s.1),
        (
          c.operation,
          (claim_taken id _ c from e).0,
          not_pending c.operation.state np (claim_taken id _ c from e).1,
          fp,
          (m, ap (λ t. found t c.operation.document_id p) (sym s.0) ∙ fm, er),
        ),
      )
      replayed (raised x, v) same = inl (same.0 ∙ s.0, same.1 ∙ s.1)

  abbrev after_resolve : Text → Exec (World D B O) UploadDocumentResult
  after_resolve id = on_ops (store.claim scope_of key fingerprint_of id) >>= after_claim

  abbrev Unchanged : World D B O → World D B O → Type 0
  Unchanged w t = Same laws w t × (t.ops ≡ w.ops)

  after_resolve-UploadsOnce :
      (w t : World D B O) (id : Text) → Unchanged w t → UploadsOnce w (after_resolve id t)
  after_resolve-UploadsOnce w t id (s, k) =
      bind-ensures
        (λ x.
          (x.1 ≡ record t { ops = x.1.ops })
          × Claims ops.operations (ops.operations w.ops) scope_of key fingerprint_of id
              (x.0, x.1.ops))
        (UploadsOnce w) (on_ops (store.claim scope_of key fingerprint_of id)) after_claim t
        (
          refl,
          subst
              (λ o.
                Claims ops.operations (ops.operations o) scope_of key fingerprint_of id
                  (store.claim scope_of key fingerprint_of id t.ops))
              k (ops.claims scope_of key fingerprint_of id t.ops),
        )
        (λ c u h.
          after_claim-UploadsOnce w u id c
            (
              (ap (λ z. table_of laws z) h.0 ∙ s.0, ap (λ z. bucket_of laws z) h.0 ∙ s.1),
              h.1.0,
              h.1.1,
              h.1.2,
            )
            c.claimed refl)
        (λ e u h. inl (ap (λ z. table_of laws z) h.0 ∙ s.0, ap (λ z. bucket_of laws z) h.0 ∙ s.1))

  resolved :
      (w : World D B O) (x : Outcome Text × World D B O)
      → Resolves env laws request.document_id w x
      → Same laws w x.1
  resolved w (ok id, t) h = h.1
  resolved w (raised e, t) h = h

  -- A call of `_idempotent_upload` with a scope and a key, over stores that keep their laws. If it
  -- returns, either the key was free, or had failed for the same document, and the document is
  -- uploaded as without a key, under the identifier of the operation, which is SUCCEEDED with this
  -- fingerprint; or the
  -- operation was SUCCEEDED with this fingerprint before, nothing has changed in the table and
  -- the bucket, and the result shows the document of the operation. If it raises, the table and
  -- the bucket are unchanged, or are as a failed upload leaves them, or the document is
  -- registered and only the mark is missing.
  pub upload_keyed-UploadsOnce :
      (w : World D B O) → UploadsOnce w (upload_keyed env store request checksum key scope p w)
  unfolding upload_keyed
  upload_keyed-UploadsOnce w =
      bind-ensures (λ x. Unchanged w x.1) (UploadsOnce w)
        (resolve_document_id env request.document_id) after_resolve w
        (
          resolved w _ (resolve-Resolves env laws request.document_id w),
          ap (λ z. z.0) ((resolve-KeepsRest env request.document_id).at w),
        )
        (λ id t h. after_resolve-UploadsOnce w t id h) (λ e t h. inl h.0)
