-- ===== src/Sdk/Upload/Streaming.antt =====
-- How storing a stream ends: `store_stream`, from the put of its object to the registered record,
-- or its removal.
use dms_core.Prelude.{
  ℕ, ◌+◌, Text, true, none, List, [], ◌∷◌, ◌++◌, ◌==◌, ◌≡◌, refl, sym, ap, ◌∙◌, arith, length,
  length-append, concat, put, remove, remove-put, remove-OnlyAt, put-OnlyAt, append_nil, Bool-cases,
  inl, inr,
}
use mathlib.Core.List.{append_assoc}
use dms_core.Domain.Models.{DocumentPartition, DocumentMetadata}
use dms_core.Domain.Errors.{
  Exc, validation_error, payload_too_large_error, duplicate_document_error, consistency_error,
}
use dms_core.Domain.Exec.{Outcome, Exec, ok, raised, catch, pure, raise, ◌>>=◌, ◌>>◌}
use dms_core.Domain.Exec.Rules.{bind-ensures, catch-ensures}
use dms_core.Domain.Interfaces.{Bytes, StoredObject, StreamedPut}
use dms_core.Domain.Laws.{OnlyAt, PutsStream, DeletesObject}
use dms_core.Sdk.Types.Views.{public_view, public_metadata-public_view}
use dms_core.Sdk.Types.{
  UploadFields, UploadDocumentStreamRequest, UploadDocumentResult, stream_fields, public_metadata,
}
use dms_core.Sdk.World.{World, Backend, BackendLaws, table_of, bucket_of, on_bucket}
use dms_core.Sdk.Upload.Outcomes.{registered_record, uploaded_metadata-registered_record}
use dms_core.Sdk.Upload.{uploaded_metadata, save_uploaded_metadata, roll_back}
use dms_core.Sdk.Upload.Keys.{build_storage_key}
use dms_core.Sdk.Upload.Rollback.{SavesRecord, save_step, save_step-SavesRecord}
use dms_core.Sdk.Upload.Streams.{
  HashingReader, hashing_reader, read, read_each, put_stream_request, hexdigest,
  delete_uploaded_best_effort, not_stored, check_stored, roll_back_stream, store_stream,
}

-- The reader has hashed and counted all that was read.
read_each-hashed :
    (t : HashingReader) (chunks : List Bytes)
    → (read_each t chunks).hashed ≡ t.hashed ++ concat chunks
unfolding read_each read
read_each-hashed t [] = sym (append_nil t.hashed)
read_each-hashed t (chunk ∷ chunks) =
    read_each-hashed (read t chunk) chunks ∙ append_assoc t.hashed chunk (concat chunks)

read_each-bytes_read :
    (t : HashingReader) (chunks : List Bytes)
    → (read_each t chunks).bytes_read ≡ t.bytes_read + length (concat chunks)
unfolding read_each read
read_each-bytes_read t [] = omega arith
read_each-bytes_read t (chunk ∷ chunks) =
    omega (arith, read_each-bytes_read (read t chunk) chunks, length-append chunk (concat chunks))

counted :
    (size : ℕ) (chunks : List Bytes)
    → (read_each hashing_reader chunks).bytes_read == size ≡ true
    → length (concat chunks) ≡ size
counted size chunks h = ground (arith, read_each-bytes_read hashing_reader chunks)

module _ {D B O : Type 0} (env : Backend D B O) (laws : BackendLaws env)
    (request : UploadDocumentStreamRequest) (id : Text) (p : DocumentPartition) where
  abbrev pub stream_key : Text
  stream_key = build_storage_key env.sha256 id request.filename p

  -- The object has the first bytes of the stream, as many as were declared.
  abbrev pub HasStream : World D B O → World D B O → StoredObject → Type 0
  HasStream w w' o =
      (length o.content ≡ request.size)
      × ((rest : Bytes) × (request.stream ≡ o.content ++ rest))
      × (bucket_of laws w' ≡ put (bucket_of laws w) stream_key o)

  -- The document is registered, with the size and the digest of the content that was stored.
  abbrev pub RegistersStream : World D B O → UploadDocumentResult → World D B O → Type 0
  RegistersStream w r w' =
      (m : DocumentMetadata) × (u : World D B O) × (o : StoredObject) × (m
        ≡ registered_record request.filename request.content_type request.created_by
            request.metadata (length o.content) id stream_key (env.sha256 o.content) p
            (env.utcnow u))
      × (r ≡ record { document_id = id; metadata = public_view m; created = true })
      × (table_of laws w id ≡ none)
      × (table_of laws w' ≡ put (table_of laws w) id m)
      × HasStream w w' o

  abbrev Fails : World D B O → World D B O → Type 0
  Fails w t =
      (table_of laws t ≡ table_of laws w)
      × OnlyAt laws.objects.bucket (bucket_of laws w) stream_key t.bucket

  abbrev pub StoresStream : World D B O → Outcome UploadDocumentResult × World D B O → Type 0
  StoresStream w (ok r, w') = RegistersStream w r w'
  StoresStream w (raised duplicate_document_error, w') =
      (table_of laws w' ≡ table_of laws w)
      × (bucket_of laws w' ≡ remove (bucket_of laws w) stream_key)
  StoresStream w (raised e, w') = Fails w w'

  -- The stream was put, as far as it was read.
  abbrev PutsReads : World D B O → Outcome StreamedPut × World D B O → Type 0
  PutsReads w (ok q, t) =
      (table_of laws t ≡ table_of laws w)
      × (q.storage_key ≡ stream_key)
      × ((rest : Bytes) × (request.stream ≡ concat q.reads ++ rest))
      × ((o : StoredObject) × (o.content ≡ concat q.reads)
          × (bucket_of laws t ≡ put (bucket_of laws w) stream_key o))
  PutsReads w (raised duplicate_document_error, t) = ⊥
  PutsReads w (raised e, t) = Fails w t

  not_stored-PutsReads :
      (w t : World D B O) (e : Exc) → Fails w t → PutsReads w (not_stored env e t)
  unfolding not_stored
  not_stored-PutsReads w t validation_error h = h
  not_stored-PutsReads w t payload_too_large_error h = h
  not_stored-PutsReads w t e h = h

  abbrev put_stream_step : Exec (World D B O) StreamedPut
  put_stream_step =
      catch
        (on_bucket (env.object_store.put_object_stream (put_stream_request request id stream_key)))
        (not_stored env)

  put_stream_step-PutsReads : (w : World D B O) → PutsReads w (put_stream_step w)
  unfolding put_stream_request
  put_stream_step-PutsReads w =
      catch-ensures
        (λ x.
          (table_of laws x.1 ≡ table_of laws w)
          × PutsStream laws.objects.bucket (bucket_of laws w)
              (put_stream_request request id stream_key) (x.0, x.1.bucket))
        (PutsReads w)
        (on_bucket (env.object_store.put_object_stream (put_stream_request request id stream_key)))
        (not_stored env) w
        (refl, laws.objects.puts_stream (put_stream_request request id stream_key) w.bucket)
        (λ q t h. (h.0, h.1.0, h.1.1, h.1.2)) (λ e t h. not_stored-PutsReads w t e h)

  -- The size was right, and this is the digest; or the object was removed again.
  abbrev Checks : World D B O → Outcome Text × World D B O → Type 0
  Checks w (ok sum, t) =
      (o : StoredObject) × (sum ≡ env.sha256 o.content)
      × (table_of laws t ≡ table_of laws w)
      × HasStream w t o
  Checks w (raised duplicate_document_error, t) = ⊥
  Checks w (raised e, t) = Fails w t

  abbrev Deletes : World D B O → Outcome (Unit {0}) × World D B O → Type 0
  Deletes w (ok _, t) = Fails w t
  Deletes w (raised duplicate_document_error, t) = ⊥
  Deletes w (raised e, t) = Fails w t

  delete-Deletes :
      (w t : World D B O) → Fails w t → Deletes w (delete_uploaded_best_effort env id stream_key t)
  unfolding delete_uploaded_best_effort
  delete-Deletes w t f =
      catch-ensures
        (λ x.
          (table_of laws x.1 ≡ table_of laws t)
          × DeletesObject laws.objects.bucket (bucket_of laws t) stream_key (x.0, x.1.bucket))
        (Deletes w) (on_bucket (env.object_store.delete_object id stream_key))
        (λ exc. raise consistency_error) t (refl, laws.objects.deletes id stream_key t.bucket)
        (λ _ u h. (
          h.0 ∙ f.0,
          λ j n. ap (λ b. b j) h.1 ∙ remove-OnlyAt (bucket_of laws t) stream_key j n ∙ f.1 j n,
        ))
        (λ e u h. (h.0 ∙ f.0, λ j n. h.1 j n ∙ f.1 j n))

  refused-Checks :
      (w : World D B O) (e : Exc) (t : World D B O)
      → Deletes w (raised e, t)
      → Checks w (raised e, t)
  refused-Checks w duplicate_document_error t h = h
  refused-Checks w e t h = h

  mismatch-Checks :
      (w t : World D B O)
      → Fails w t
      → Checks w ((delete_uploaded_best_effort env id stream_key >> raise validation_error) t)
  mismatch-Checks w t f =
      bind-ensures (Deletes w) (Checks w) (delete_uploaded_best_effort env id stream_key)
        (λ _. raise validation_error) t (delete-Deletes w t f) (λ _ u h. h) (refused-Checks w)

  put-Fails : (w t : World D B O) (q : StreamedPut) → PutsReads w (ok q, t) → Fails w t
  put-Fails w t q h =
      (h.0, λ j n. ap (λ b. b j) h.3.2 ∙ put-OnlyAt (bucket_of laws w) stream_key h.3.0 j n)

  check-Checks :
      (w t : World D B O) (q : StreamedPut)
      → PutsReads w (ok q, t)
      → Checks w (check_stored env request id stream_key (read_each hashing_reader q.reads) t)
  unfolding check_stored hexdigest
  check-Checks w t q h =
      elim (Bool-cases ((read_each hashing_reader q.reads).bytes_read == request.size)) [
        | inl e ↦ rw e (
          h.3.0,
          ap env.sha256 (read_each-hashed hashing_reader q.reads ∙ sym h.3.1),
          h.0,
          (
            ap length h.3.1 ∙ counted request.size q.reads e,
            (h.2.0, h.2.1 ∙ ap (λ c. c ++ h.2.0) (sym h.3.1)),
            h.3.2,
          ),
        )
        | inr e ↦ rw e (mismatch-Checks w t (put-Fails w t q h))
      ]

  abbrev fields : UploadFields
  fields = stream_fields request

  abbrev after_save : DocumentMetadata → Exec (World D B O) UploadDocumentResult
  after_save saved =
      pure (record { document_id = id; metadata = public_metadata saved; created = true })

  abbrev after_check : Text → Text → Exec (World D B O) UploadDocumentResult
  after_check k sum =
      catch (save_uploaded_metadata env fields request.size id k sum p)
        (λ exc. roll_back_stream env id k exc)
      >>= after_save

  abbrev after_put : Text → List Bytes → Exec (World D B O) UploadDocumentResult
  after_put k reads =
      check_stored env request id k (read_each hashing_reader reads) >>= after_check k

  save_failed :
      (w t : World D B O) (sum : Text)
      → Checks w (ok sum, t)
      → (e : Exc) (u : World D B O)
      → SavesRecord env laws fields request.size id stream_key sum p t (raised e, u)
      → StoresStream w (raised e, u)
  save_failed w t sum (o, es, et, hs) duplicate_document_error u g =
      (g.0 ∙ et, g.2 ∙ ap (λ b. remove b stream_key) hs.2 ∙ remove-put _ _ _)
  save_failed w t sum (o, es, et, hs) consistency_error u g = (
    g.0 ∙ et,
    λ j n. g.1 j n ∙ ap (λ b. b j) hs.2 ∙ put-OnlyAt (bucket_of laws w) stream_key o j n,
  )
  save_failed w t sum h e u g = absurd g

  after_check-StoresStream :
      (w t : World D B O) (sum : Text)
      → Checks w (ok sum, t)
      → StoresStream w (after_check stream_key sum t)
  unfolding roll_back roll_back_stream delete_uploaded_best_effort
  after_check-StoresStream w t sum h =
      bind-ensures (SavesRecord env laws fields request.size id stream_key sum p t) (StoresStream w)
        (save_step env laws fields request.size id stream_key sum p) after_save t
        (save_step-SavesRecord env laws fields request.size id stream_key sum p t)
        (λ m u g. (
          m,
          t,
          h.0,
          g.1
              ∙ ap (λ s. uploaded_metadata env fields s id stream_key sum p t) (sym h.3.0)
              ∙ ap (λ s. uploaded_metadata env fields (length h.0.content) id stream_key s p t) h.1
              ∙ uploaded_metadata-registered_record env fields (length h.0.content) id stream_key
                  (env.sha256 h.0.content) p t,
          ap (λ v. record { document_id = id; metadata = v; created = true })
              (public_metadata-public_view m),
          ap (λ f. f id) (sym h.2) ∙ g.2,
          g.3 ∙ ap (λ f. put f id m) h.2,
          (h.3.0, h.3.1, g.0 ∙ h.3.2),
        ))
        (save_failed w t sum h)

  refused :
      (w : World D B O) (e : Exc) (t : World D B O)
      → Checks w (raised e, t)
      → StoresStream w (raised e, t)
  refused w duplicate_document_error t h = absurd h
  refused w e t h = h

  after_put-StoresStream :
      (w t : World D B O) (q : StreamedPut)
      → PutsReads w (ok q, t)
      → StoresStream w (after_put stream_key q.reads t)
  after_put-StoresStream w t q h =
      bind-ensures (Checks w) (StoresStream w)
        (check_stored env request id stream_key (read_each hashing_reader q.reads))
        (after_check stream_key) t (check-Checks w t q h)
        (λ sum u g. after_check-StoresStream w u sum g) (refused w)

  put_failed :
      (w : World D B O) (e : Exc) (t : World D B O)
      → PutsReads w (raised e, t)
      → StoresStream w (raised e, t)
  put_failed w duplicate_document_error t h = absurd h
  put_failed w e t h = h

  -- `store_stream` over stores that keep their laws registers what it has stored, or leaves the
  -- table alone.
  pub store_stream-StoresStream :
      (w : World D B O) → StoresStream w (store_stream env request id p w)
  unfolding store_stream
  store_stream-StoresStream w =
      bind-ensures (PutsReads w) (StoresStream w) put_stream_step
        (λ q. after_put q.storage_key q.reads) w (put_stream_step-PutsReads w)
        (λ q t h. rw h.1 (after_put-StoresStream w t q h)) (put_failed w)
