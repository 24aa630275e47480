-- ===== src/Sdk/Upload/StreamedUpload.antt =====
-- The upload of a stream, whole: `upload_document_stream` with its validation.
use dms_core.Prelude.{
  ◌<◌, put, remove, Text, Bool, true, false, ◌==◌, ◌≡◌, ◌⊎◌, inl, inr, sym, ap, ◌∙◌, refl, arith,
}
use dms_core.Domain.Models.{DocumentPartition}
use dms_core.Domain.Errors.{
  Exc, duplicate_document_error, validation_error, payload_too_large_error,
}
use dms_core.Domain.Exec.{Outcome, Exec, ok, raised, raise_if, ◌>>=◌, ◌>>◌}
use dms_core.Domain.Exec.Rules.{bind-ensures, guard-ensures}
use dms_core.Domain.Exec.Quiet.{Quiet, quiet}
use dms_core.Domain.Laws.{OnlyAt, Tests}
use dms_core.Sdk.Types.{
  UploadFields, UploadDocumentStreamRequest, UploadDocumentResult, stream_fields,
}
use dms_core.Sdk.World.{World, Backend, BackendLaws, table_of, bucket_of, Same, on_db}
use dms_core.Sdk.Upload.{
  too_large, validate_upload_fields, validate_common_upload_fields, validate_file_size,
  resolve_document_id,
}
use dms_core.Sdk.Upload.Atomic.{Names, Resolves, resolve-Resolves}
use dms_core.Sdk.Upload.Streams.{
  validate_stream_upload_request, store_stream, upload_stream, upload_document_stream,
}
use dms_core.Sdk.Upload.Streaming.{
  stream_key, RegistersStream, StoresStream, store_stream-StoresStream,
}

module _ {D B O : Type 0} (env : Backend D B O) where
  validate_upload_fields-Quiet :
      (filename content_type : Text) → Quiet (validate_upload_fields env filename content_type)
  unfolding validate_upload_fields
  validate_upload_fields-Quiet filename content_type = search quiet

  pub validate_common-Quiet :
      (request : UploadFields) → Quiet (validate_common_upload_fields env request)
  unfolding validate_common_upload_fields
  validate_common-Quiet request = search (quiet, validate_upload_fields-Quiet) depth 9

module _ {D B O : Type 0} (env : Backend D B O) (laws : BackendLaws env)
    (request : UploadDocumentStreamRequest) (p : DocumentPartition) where
  -- How the upload of a stream ends, from a world `w`.
  abbrev pub UploadsStream : World D B O → Outcome UploadDocumentResult × World D B O → Type 0
  UploadsStream w (ok r, w') =
      Names request.document_id r.document_id
      × (0 < request.size)
      × (too_large env.max_file_size request.size ≡ false)
      × RegistersStream env laws request r.document_id p w r w'
  UploadsStream w (raised duplicate_document_error, w') =
      (table_of laws w' ≡ table_of laws w)
      × ((bucket_of laws w' ≡ bucket_of laws w)
          ⊎ ((id : Text) × Names request.document_id id
              × (bucket_of laws w' ≡ remove (bucket_of laws w) (stream_key env laws request id p))))
  UploadsStream w (raised e, w') =
      (table_of laws w' ≡ table_of laws w)
      × ((bucket_of laws w' ≡ bucket_of laws w)
          ⊎ ((id : Text) × Names request.document_id id
              × OnlyAt laws.objects.bucket (bucket_of laws w) (stream_key env laws request id p)
                  w'.bucket))

  unchanged : (w t : World D B O) (e : Exc) → Same laws w t → UploadsStream w (raised e, t)
  unchanged w t duplicate_document_error s = (s.0, inl s.1)
  unchanged w t e s = (s.0, inl s.1)

  module _ (positive : 0 < request.size)
      (fits : too_large env.max_file_size request.size ≡ false) where
    stored-UploadsStream :
        (w t : World D B O) (id : Text)
        → Names request.document_id id
        → Same laws w t
        → (r : Outcome UploadDocumentResult) (u : World D B O)
        → StoresStream env laws request id p t (r, u)
        → UploadsStream w (r, u)
    stored-UploadsStream w t id n s (ok r) u (m, v, o, em, er, free, et, (ol, os, eb)) = rw er (
      n,
      positive,
      fits,
      (
        m,
        v,
        o,
        em,
        refl,
        ap (λ f. f id) (sym s.0) ∙ free,
        et ∙ ap (λ f. put f id m) s.0,
        (ol, os, eb ∙ ap (λ b. put b (stream_key env laws request id p) o) s.1),
      ),
    )
    stored-UploadsStream w t id n s (raised duplicate_document_error) u h =
        (h.0 ∙ s.0, inr (id, n, h.1 ∙ ap (λ b. remove b (stream_key env laws request id p)) s.1))
    stored-UploadsStream w t id n s (raised e) u h =
        (h.0 ∙ s.0, inr (id, n, λ j k. h.1 j k ∙ ap (λ b. b j) s.1))

    abbrev after_exists : Text → Bool → Exec (World D B O) UploadDocumentResult
    after_exists id exists =
        raise_if exists duplicate_document_error >> store_stream env request id p

    abbrev after_resolve : Text → Exec (World D B O) UploadDocumentResult
    after_resolve id = on_db (env.metadata_store.exists id) >>= after_exists id

    after_exists-UploadsStream :
        (w t : World D B O) (id : Text)
        → Names request.document_id id
        → Same laws w t
        → (b : Bool) → UploadsStream w (after_exists id b t)
    after_exists-UploadsStream w t id n s true = (s.0, inl s.1)
    after_exists-UploadsStream w t id n s false =
        stored-UploadsStream w t id n s _ _ (store_stream-StoresStream env laws request id p t)

    after_resolve-UploadsStream :
        (w t : World D B O) (id : Text)
        → Resolves env laws request.document_id w (ok id, t)
        → UploadsStream w (after_resolve id t)
    after_resolve-UploadsStream w t id h =
        bind-ensures
          (λ x.
            (bucket_of laws x.1 ≡ bucket_of laws t)
            × Tests laws.db.table (table_of laws t) id (x.0, x.1.db))
          (UploadsStream w) (on_db (env.metadata_store.exists id)) (after_exists id) t
          (refl, laws.db.tests id t.db)
          (λ b u g. after_exists-UploadsStream w u id h.0 (g.1.1 ∙ h.1.0, g.0 ∙ h.1.1) b)
          (λ e u g. unchanged w u e (g.1 ∙ h.1.0, g.0 ∙ h.1.1))

    upload_stream-UploadsStream :
        (w : World D B O) → UploadsStream w (upload_stream env request p w)
    unfolding upload_stream
    upload_stream-UploadsStream w =
        bind-ensures (Resolves env laws request.document_id w) (UploadsStream w)
          (resolve_document_id env request.document_id) after_resolve w
          (resolve-Resolves env laws request.document_id w)
          (λ id t h. after_resolve-UploadsStream w t id h) (λ e t h. unchanged w t e h)

  -- A validation that raises has changed nothing.
  stopped : (w t : World D B O) (e : Exc) → t ≡ w → UploadsStream w (raised e, t)
  stopped w t e h = unchanged w t e (ap (table_of laws) h, ap (bucket_of laws) h)

  after_size-UploadsStream :
      (w : World D B O)
      → 0 < request.size
      → UploadsStream w ((validate_file_size env request.size >> upload_stream env request p) w)
  unfolding validate_file_size
  after_size-UploadsStream w positive =
      guard-ensures (UploadsStream w) (too_large env.max_file_size request.size)
        payload_too_large_error (upload_stream env request p) w
        (λ e. unchanged w w payload_too_large_error (refl, refl))
        (λ fits. upload_stream-UploadsStream positive fits w)

  -- The tests of the request: it has a positive size, where they pass.
  abbrev Validated : World D B O → Outcome (Unit {0}) × World D B O → Type 0
  Validated w (ok _, t) = (t ≡ w) × (0 < request.size)
  Validated w (raised e, t) = t ≡ w

  valid :
      {w : World D B O}
      → 0 < request.size
      → (x : Outcome (Unit {0}) × World D B O) → x.1 ≡ w
      → Validated w x
  valid positive (ok _, t) h = (h, positive)
  valid positive (raised e, t) h = h

  validate-Validated :
      (w : World D B O) → Validated w (validate_stream_upload_request env request w)
  unfolding validate_stream_upload_request
  validate-Validated w =
      guard-ensures (Validated w) (request.size == 0) validation_error
        (validate_upload_fields env request.filename request.content_type) w (λ e. refl)
        (λ e.
          valid (ground arith) _
            ((validate_upload_fields-Quiet env request.filename request.content_type).at w))

  abbrev checked : Exec (World D B O) UploadDocumentResult
  checked =
      validate_stream_upload_request env request
      >> (validate_file_size env request.size >> upload_stream env request p)

  checked-UploadsStream : (w : World D B O) → UploadsStream w (checked w)
  checked-UploadsStream w =
      bind-ensures (Validated w) (UploadsStream w) (validate_stream_upload_request env request)
        (λ _. validate_file_size env request.size >> upload_stream env request p) w
        (validate-Validated w) (λ _ t h. rw h.0 (after_size-UploadsStream w h.1))
        (λ e t h. stopped w t e h)

  -- The upload of a stream, over stores that keep their laws. If it returns, the declared size is
  -- positive and within the bound that is configured, and the identifier was free and is the one
  -- that the request names, where it names one; the table has one more record, AVAILABLE, whose
  -- size is the declared one and the length of the stored content, and whose checksum is the digest
  -- of that content; the bucket has that content, the first bytes of the stream, under the key of
  -- the upload; the result shows the public part of that record. If it raises, no record has
  -- changed, and the bucket differs at most under a key of this upload; where it raises
  -- DuplicateDocumentError, no object is under that key, if the bucket has changed.
  pub upload_document_stream-UploadsStream :
      (w : World D B O) → UploadsStream w (upload_document_stream env request p w)
  unfolding upload_document_stream
  upload_document_stream-UploadsStream w =
      bind-ensures (λ x. x.1 ≡ w) (UploadsStream w)
        (validate_common_upload_fields env (stream_fields request)) (λ _. checked) w
        ((validate_common-Quiet env (stream_fields request)).at w)
        (λ _ t h. rw h (checked-UploadsStream w)) (λ e t h. stopped w t e h)
