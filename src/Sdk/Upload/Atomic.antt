-- ===== src/Sdk/Upload/Atomic.antt =====
-- An upload without an idempotency key, whole.
use dms_core.Prelude.{
  put, remove, Text, Bool, true, false, Option, none, some, [], ◌∷◌, ◌≡◌, ◌⊎◌, inl, inr, sym, ap,
  ◌∙◌, refl, arith,
}
use dms_core.Domain.Models.{DocumentPartition}
use dms_core.Domain.Errors.{Exc, duplicate_document_error, storage_error, consistency_error}
use dms_core.Domain.Exec.{Outcome, Exec, ok, raised, raise_if, ◌>>=◌, ◌>>◌}
use dms_core.Domain.Exec.Rules.{bind-ensures}
use dms_core.Domain.Laws.{OnlyAt, Tests}
use dms_core.Sdk.Types.{UploadDocumentRequest, UploadDocumentResult}
use dms_core.Sdk.World.{World, Backend, BackendLaws, table_of, bucket_of, Same, on_db}
use dms_core.Sdk.Upload.{allocate_document_id, resolve_document_id, store_document, upload_unkeyed}
use dms_core.Sdk.Upload.Outcomes.{key_of, Registers, Stores}
use dms_core.Sdk.Upload.Storing.{store_document-Stores}

-- The identifier that a request names, where it names one.
abbrev pub Names : Option Text → Text → Type 0
Names none id = Unit
Names (some []) id = Unit
Names (some (c ∷ s)) id = id ≡ c ∷ s

module _ {D B O : Type 0} (env : Backend D B O) (laws : BackendLaws env) where
  abbrev pub Resolves : Option Text → World D B O → Outcome Text × World D B O → Type 0
  Resolves given w (ok id, t) = Names given id × Same laws w t
  Resolves given w (raised e, t) = Same laws w t

  abbrev Allocated : World D B O → Outcome Text × World D B O → Type 0
  Allocated w x = Same laws w x.1

  allocate-Allocated : (w : World D B O) → Allocated w (allocate_document_id env w)
  unfolding allocate_document_id
  allocate-Allocated w = ground (arith, laws.db.allocates w.db)

  Allocated-Resolves :
      (w : World D B O) (x : Outcome Text × World D B O) → Allocated w x → Resolves none w x
  Allocated-Resolves w (ok id, t) h = (tt, h)
  Allocated-Resolves w (raised e, t) h = h

  Allocated-Resolves_empty :
      (w : World D B O) (x : Outcome Text × World D B O) → Allocated w x → Resolves (some []) w x
  Allocated-Resolves_empty w (ok id, t) h = (tt, h)
  Allocated-Resolves_empty w (raised e, t) h = h

  pub resolve-Resolves :
      (given : Option Text) (w : World D B O) → Resolves given w (resolve_document_id env given w)
  unfolding resolve_document_id
  resolve-Resolves none w = Allocated-Resolves w _ (allocate-Allocated w)
  resolve-Resolves (some []) w = Allocated-Resolves_empty w _ (allocate-Allocated w)
  resolve-Resolves (some (c ∷ s)) w = (refl, (refl, refl))

  module _ (request : UploadDocumentRequest) (p : DocumentPartition) where
    -- Returned: the document is registered under the identifier that was given, if one was.
    -- Raised: no record has changed, and at most one object, under the key of this upload; after
    -- DuplicateDocumentError nothing of this upload is left there.
    abbrev pub Uploads : World D B O → Outcome UploadDocumentResult × World D B O → Type 0
    Uploads w (ok r, w') =
        Names request.document_id r.document_id × Registers env laws request r.document_id p w r w'
    Uploads w (raised duplicate_document_error, w') =
        (table_of laws w' ≡ table_of laws w)
        × ((bucket_of laws w' ≡ bucket_of laws w)
            ⊎ ((id : Text) × Names request.document_id id
                × (bucket_of laws w' ≡ remove (bucket_of laws w) (key_of env laws request id p))))
    Uploads w (raised e, w') =
        (table_of laws w' ≡ table_of laws w)
        × ((bucket_of laws w' ≡ bucket_of laws w)
            ⊎ ((id : Text) × Names request.document_id id
                × OnlyAt laws.objects.bucket (bucket_of laws w) (key_of env laws request id p)
                    w'.bucket))

    abbrev after_exists : Text → Bool → Exec (World D B O) UploadDocumentResult
    after_exists id exists =
        raise_if exists duplicate_document_error >> store_document env request id p

    abbrev after_resolve : Text → Exec (World D B O) UploadDocumentResult
    after_resolve id = on_db (env.metadata_store.exists id) >>= after_exists id

    -- What storing does, seen from a world with the same table and bucket.
    stored-Uploads :
        (w t : World D B O) (id : Text)
        → Names request.document_id id
        → Same laws w t
        → (r : Outcome UploadDocumentResult) (u : World D B O)
        → Stores env laws request id p t (r, u)
        → Uploads w (r, u)
    stored-Uploads w t id n s (ok r) u (m, v, em, er, fresh, et, (o, oc, os, eb)) = rw er (
      n,
      (
        m,
        v,
        em,
        refl,
        ap (λ f. f id) (sym s.0) ∙ fresh,
        et ∙ ap (λ f. put f id m) s.0,
        (o, oc, os, eb ∙ ap (λ b. put b (key_of env laws request id p) o) s.1),
      ),
    )
    stored-Uploads w t id n s (raised storage_error) u h =
        (h.0 ∙ s.0, inr (id, n, λ j k. h.1 j k ∙ ap (λ b. b j) s.1))
    stored-Uploads w t id n s (raised consistency_error) u h =
        (h.0 ∙ s.0, inr (id, n, λ j k. h.1 j k ∙ ap (λ b. b j) s.1))
    stored-Uploads w t id n s (raised duplicate_document_error) u h =
        (h.0 ∙ s.0, inr (id, n, h.2 ∙ ap (λ b. remove b (key_of env laws request id p)) s.1))
    stored-Uploads w t id n s (raised _) u h = absurd h

    -- A call that raises and has changed neither the table nor the bucket.
    unchanged-Uploads : (w t : World D B O) (e : Exc) → Same laws w t → Uploads w (raised e, t)
    unchanged-Uploads w t duplicate_document_error s = (s.0, inl s.1)
    unchanged-Uploads w t e s = (s.0, inl s.1)

    after_exists-Uploads :
        (w t : World D B O) (id : Text)
        → Names request.document_id id
        → Same laws w t
        → (b : Bool) → Uploads w (after_exists id b t)
    after_exists-Uploads w t id n s true = (s.0, inl s.1)
    after_exists-Uploads w t id n s false =
        stored-Uploads w t id n s _ _ (store_document-Stores env laws request id p t)

    after_resolve-Uploads :
        (w t : World D B O) (id : Text)
        → Resolves request.document_id w (ok id, t)
        → Uploads w (after_resolve id t)
    after_resolve-Uploads w t id h =
        bind-ensures
          (λ x.
            (bucket_of laws x.1 ≡ bucket_of laws t)
            × Tests laws.db.table (table_of laws t) id (x.0, x.1.db))
          (Uploads w) (on_db (env.metadata_store.exists id)) (after_exists id) t
          (refl, laws.db.tests id t.db)
          (λ b u g. after_exists-Uploads w u id h.0 (g.1.1 ∙ h.1.0, g.0 ∙ h.1.1) b)
          (λ e u g. unchanged-Uploads w u e (g.1 ∙ h.1.0, g.0 ∙ h.1.1))

    -- An upload without a key, over stores that keep their laws. If it returns, the identifier was
    -- free and is the one that the request names, where it names one; the table has one more
    -- record, AVAILABLE, with the request's fields, the partition and the key and checksum that
    -- were computed; the bucket has the content under that key; the result shows the public part of
    -- that record. If it raises, no record has changed, and the bucket differs at most under a key
    -- of this upload; where it raises DuplicateDocumentError, no object is under that key, if the
    -- bucket has changed.
    pub upload_unkeyed-Uploads : (w : World D B O) → Uploads w (upload_unkeyed env request p w)
    unfolding upload_unkeyed
    upload_unkeyed-Uploads w =
        bind-ensures (Resolves request.document_id w) (Uploads w)
          (resolve_document_id env request.document_id) after_resolve w
          (resolve-Resolves request.document_id w) (λ id t h. after_resolve-Uploads w t id h)
          (λ e t h. unchanged-Uploads w t e h)
