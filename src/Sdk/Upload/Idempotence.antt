-- ===== src/Sdk/Upload/Idempotence.antt =====
-- How an upload with an idempotency key ends, over an operation store that keeps its laws.
use dms_core.Prelude.{Text, Option, some, ◌≡◌, ◌⊎◌, inl, inr, refl, ap, sym, subst, ◌∙◌, arith}
use dms_core.Domain.Models.{DocumentPartition, UploadOperation, UploadOperationState}
use dms_core.Domain.Errors.{Exc, duplicate_document_error}
use dms_core.Domain.Exec.{Outcome, ok, raised, pure, ◌>>=◌, ◌>>◌}
use dms_core.Domain.Exec.Rules.{bind-ensures, catch-ensures}
use dms_core.Domain.Interfaces.{UploadOperationStore}
use dms_core.Domain.OperationLaws.{mark_operation, Marks, OperationStoreLaws}
use dms_core.Sdk.Types.{UploadDocumentRequest, UploadDocumentResult}
use dms_core.Sdk.World.{World, Backend, BackendLaws, Same, on_ops}
use dms_core.Sdk.Keeping.{rest}
use dms_core.Sdk.Upload.{upload_unkeyed}
use dms_core.Sdk.Upload.Rest.{upload_unkeyed-KeepsRest}
use dms_core.Sdk.Upload.Atomic.{Uploads, upload_unkeyed-Uploads}
use dms_core.Sdk.Upload.Keyed.{give_up, upload_claimed}

module _ {D B O : Type 0} (env : Backend D B O) (laws : BackendLaws env)
    (store : UploadOperationStore O) (ops : OperationStoreLaws store)
    (request : UploadDocumentRequest) (scope key : Text) (p : DocumentPartition) where
  -- The operation under the scope and the key.
  abbrev pub operation_of : World D B O → Option UploadOperation
  operation_of w = ops.operations w.ops scope key

  -- The request that is uploaded under a claim.
  abbrev pub with_id : Text → UploadDocumentRequest
  with_id id = record request { document_id = some id }

  -- A pending operation, claimed for a document.
  abbrev pub Claimed : Text → Text → World D B O → Type 0
  Claimed fingerprint id w =
      (o : UploadOperation) × (operation_of w ≡ some o)
      × (o.state ≡ UploadOperationState.pending)
      × (o.document_id ≡ id)
      × (o.fingerprint ≡ fingerprint)

  abbrev pub Succeeded : Text → Text → World D B O → Type 0
  Succeeded fingerprint id w =
      (o : UploadOperation) × (operation_of w ≡ some o)
      × (o.state ≡ UploadOperationState.succeeded)
      × (o.document_id ≡ id)
      × (o.fingerprint ≡ fingerprint)

  -- How the upload under a claim ends: as an upload without a key does, and marked; or it raises
  -- after the document was registered, since the mark failed.
  abbrev pub Marked :
      Text → Text → World D B O → Outcome UploadDocumentResult × World D B O → Type 0
  Marked fingerprint id w (ok r, w') =
      Uploads env laws (with_id id) p w (ok r, w') × Succeeded fingerprint id w'
  Marked fingerprint id w (raised e, w') =
      Uploads env laws (with_id id) p w (raised e, w')
      ⊎ ((r : UploadDocumentResult) × Uploads env laws (with_id id) p w (ok r, w'))

  mark-Claimed :
      (fingerprint id : Text) (w v : World D B O) (t : Outcome (Unit {0}) × O)
      → Claimed fingerprint id w
      → v.ops ≡ w.ops
      → Marks ops.operations (ops.operations v.ops) UploadOperationState.succeeded scope key t
      → (r : UploadDocumentResult) → Uploads env laws (with_id id) p w (ok r, v)
      → Marked fingerprint id w (((λ (u : World D B O). (t.0, record u { ops = t.1 })) >> pure r) v)
  unfolding mark_operation
  mark-Claimed fingerprint id w v (ok _, o) (op, e, st, i, fp) k (now, m) r h = (
    h,
    (
      record op { state = UploadOperationState.succeeded; updated_at = now },
      m
          ∙ (ap
                (λ z.
                  mark_operation UploadOperationState.succeeded now (ops.operations z scope key))
                k
              ∙ rw (e, mark_operation, st) refl),
      refl,
      i,
      fp,
    ),
  )
  mark-Claimed fingerprint id w v (raised e, o) c k m r h = inr (r, h)

  -- Giving up writes the operation alone, and raises what it was given.
  give_up_lem :
      (e : Exc) (v : World D B O)
      → give_up env store scope key e v
        ≡ (raised e, record v { ops = (store.mark_failed scope key v.ops).1 })
  unfolding give_up
  give_up_lem e v = ground arith

  given_up :
      (fingerprint id : Text) (w v : World D B O) (e : Exc) (o : O)
      → Marked fingerprint id w (raised e, v)
      → Marked fingerprint id w (raised e, record v { ops = o })
  given_up fingerprint id w v e o (inr (r, h)) = inr (r, h)
  given_up fingerprint id w v duplicate_document_error o (inl h) = inl h
  given_up fingerprint id w v e o (inl h) = inl h

  pub upload_claimed-Marked :
      (fingerprint id : Text) (w : World D B O)
      → Claimed fingerprint id w
      → Marked fingerprint id w (upload_claimed env store request id scope key p w)
  unfolding upload_claimed
  upload_claimed-Marked fingerprint id w c =
      catch-ensures (Marked fingerprint id w) (Marked fingerprint id w)
        (upload_unkeyed env (with_id id) p >>= λ result.
          on_ops (store.mark_succeeded scope key) >> pure result)
        (give_up env store scope key) w
        (bind-ensures (λ x. (rest x.1 ≡ rest w) × Uploads env laws (with_id id) p w x)
          (Marked fingerprint id w) (upload_unkeyed env (with_id id) p)
          (λ result. on_ops (store.mark_succeeded scope key) >> pure result) w
          (
            (upload_unkeyed-KeepsRest env (with_id id) p).at w,
            upload_unkeyed-Uploads env laws (with_id id) p w,
          )
          (λ r v h.
            mark-Claimed fingerprint id w v _ c (ap (λ z. z.0) h.0)
              (ops.marks_succeeded scope key v.ops) r h.1)
          (λ e v h. inl h.1))
        (λ r v h. h)
        (λ e v h.
          subst (Marked fingerprint id w) (sym (give_up_lem e v))
            (given_up fingerprint id w v e _ h))

  -- The tables of a world before, seen from the claim on.
  pub Marked-Same :
      (fingerprint id : Text) (w u : World D B O)
      → Same laws w u
      → (r : Outcome UploadDocumentResult) (v : World D B O) → Marked fingerprint id u (r, v)
      → Marked fingerprint id w (r, v)
  Marked-Same fingerprint id w u s (ok r) v h = (rw (s.0, s.1) at h.0, h.1)
  Marked-Same fingerprint id w u s (raised e) v (inr (r, h)) = inr (r, rw (s.0, s.1) at h)
  Marked-Same fingerprint id w u s (raised duplicate_document_error) v (inl h) =
      inl (rw (s.0, s.1) at h)
  Marked-Same fingerprint id w u s (raised e) v (inl h) = inl (rw (s.0, s.1) at h)
