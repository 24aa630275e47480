-- ===== src/Sdk/Documents/Contents.antt =====
-- What `get_content` and `get_content_stream` give.
use dms_core.Prelude.{ℕ, ◌==◌, ◌<◌, Text, Option, none, some, ◌≡◌, refl, sym, ap, ◌∙◌, arith}
use dms_core.Domain.Models.{DocumentPartition, DocumentMetadata}
use dms_core.Domain.Errors.{
  Exc, validation_error, document_not_found_error, document_deleted_error, metadata_store_error,
  consistency_error,
}
use dms_core.Domain.Exec.{Outcome, Exec, ok, raised, pure, raise, catch, ◌>>=◌, ◌>>◌}
use dms_core.Domain.Exec.Rules.{bind-ensures, catch-ensures, guard-ensures}
use dms_core.Domain.Interfaces.{Bytes, StoredObject, StoredObjectStream}
use dms_core.Domain.Laws.{found, GetsObject, GetsStream}
use dms_core.Sdk.Types.{DocumentContent, DocumentContentStream}
use dms_core.Sdk.World.{World, Backend, BackendLaws, table_of, bucket_of, Same, on_bucket}
use dms_core.Sdk.Documents.{
  is_excluded, get_internal_metadata, ensure_content_readable, get_content, get_content_stream,
}
use dms_core.Sdk.Documents.Readable.{IsReadable, IsGone, is_excluded-IsReadable, is_excluded-IsGone}
use dms_core.Sdk.Documents.Steps.{GetsInternal, get_internal_metadata-GetsInternal}

module _ {D B O : Type 0} (env : Backend D B O) (laws : BackendLaws env) (id : Text)
    (p : DocumentPartition) (w : World D B O) where
  -- The content of a readable document, with its checksum and file name.
  abbrev pub IsContent : Bytes → Option Text → Text → Type 0
  IsContent content checksum filename =
      (m : DocumentMetadata) × (o : StoredObject) × (found (table_of laws w) id p ≡ some m)
      × IsReadable m.status
      × (bucket_of laws w m.storage_key ≡ some o)
      × (content ≡ o.content)
      × (checksum ≡ o.checksum)
      × (filename ≡ m.original_filename)

  -- How a read that returns no content ends.
  abbrev pub Refused : Exc → World D B O → Type 0
  Refused document_not_found_error w' = (found (table_of laws w) id p ≡ none) × Same laws w w'
  Refused document_deleted_error w' =
      ((m : DocumentMetadata) × (found (table_of laws w) id p ≡ some m) × IsGone m.status)
      × Same laws w w'
  Refused metadata_store_error w' = Same laws w w'
  Refused consistency_error w' = Same laws w w'
  Refused _ w' = ⊥

  abbrev pub GetsContent : Outcome DocumentContent × World D B O → Type 0
  GetsContent (ok c, w') = IsContent c.content c.checksum c.filename × Same laws w w'
  GetsContent (raised e, w') = Refused e w'

  not_found : (e : Exc) (t : World D B O) → GetsInternal env laws id p w (raised e, t) → Refused e t
  not_found document_not_found_error t h = h
  not_found metadata_store_error t h = h
  not_found _ t h = absurd h

  abbrev give : DocumentMetadata → StoredObject → Exec (World D B O) DocumentContent
  give metadata stored = pure (record {
    document_id = id;
    content = stored.content;
    content_type = stored.content_type;
    filename = metadata.original_filename;
    size = stored.size;
    checksum = stored.checksum;
  })

  abbrev read_object : DocumentMetadata → Exec (World D B O) StoredObject
  read_object metadata =
      catch (on_bucket (env.object_store.get_object id metadata.storage_key))
        λ e. raise consistency_error

  -- The object under the key of a document, or ConsistencyError.
  abbrev ReadsObject : DocumentMetadata → Outcome StoredObject × World D B O → Type 0
  ReadsObject m (ok c, t) =
      ((o : StoredObject) × (bucket_of laws w m.storage_key ≡ some o)
        × (c.content ≡ o.content)
        × (c.checksum ≡ o.checksum))
      × Same laws w t
  ReadsObject m (raised consistency_error, t) = Same laws w t
  ReadsObject m (raised _, t) = ⊥

  read_object-ReadsObject :
      (m : DocumentMetadata) (t : World D B O) → Same laws w t → ReadsObject m (read_object m t)
  read_object-ReadsObject m t s =
      catch-ensures
        (λ x.
          (table_of laws x.1 ≡ table_of laws t)
          × GetsObject laws.objects.bucket (bucket_of laws t) m.storage_key (x.0, x.1.bucket))
        (ReadsObject m) (on_bucket (env.object_store.get_object id m.storage_key))
        (λ e. raise consistency_error) t (refl, laws.objects.gets id m.storage_key t.bucket)
        (λ c u h. (
          (h.1.0.0, ap (λ b. b m.storage_key) (sym s.1) ∙ h.1.0.1, h.1.0.2, h.1.0.3),
          (h.0 ∙ s.0, h.1.1 ∙ s.1),
        ))
        (λ e u h. (h.0 ∙ s.0, h.1 ∙ s.1))

  read_failed :
      (m : DocumentMetadata) (e : Exc) (t : World D B O) → ReadsObject m (raised e, t) → Refused e t
  read_failed m consistency_error t h = h
  read_failed m _ t h = absurd h

  abbrev after_load : DocumentMetadata → Exec (World D B O) DocumentContent
  after_load m = ensure_content_readable env m >> (read_object m >>= give m)

  after_load-GetsContent :
      (m : DocumentMetadata) (t : World D B O)
      → GetsInternal env laws id p w (ok m, t)
      → GetsContent (after_load m t)
  unfolding ensure_content_readable
  after_load-GetsContent m t h =
      guard-ensures GetsContent (is_excluded m.status) document_deleted_error
        (read_object m >>= give m) t (λ e. ((m, h.0, is_excluded-IsGone m.status e), h.2))
        (λ e.
          bind-ensures (ReadsObject m) GetsContent (read_object m) (give m) t
            (read_object-ReadsObject m t h.2)
            (λ c u g.
              ((m, g.0.0, h.0, is_excluded-IsReadable m.status e, g.0.1, g.0.2, g.0.3, refl), g.1))
            (read_failed m))

  -- Reading the content of a document, over stores that keep their laws, changes nothing. It
  -- returns the content and the checksum of the object under the record's storage key, where the
  -- record is in the partition and its status is neither DELETING nor DELETED; it raises
  -- DocumentNotFoundError only where the partition has no such record, DocumentDeletedError only
  -- where its status is one of these, and otherwise MetadataStoreError or ConsistencyError.
  pub get_content-GetsContent : GetsContent (get_content env id p w)
  unfolding get_content
  get_content-GetsContent =
      bind-ensures (GetsInternal env laws id p w) GetsContent (get_internal_metadata env id p)
        after_load w (get_internal_metadata-GetsInternal env laws id p w) after_load-GetsContent
        not_found

  -- The same content as a stream.
  abbrev pub GetsContentStream : ℕ → Outcome DocumentContentStream × World D B O → Type 0
  GetsContentStream chunk_size (ok c, w') =
      IsContent c.stream c.checksum c.filename
      × (c.chunk_size ≡ chunk_size)
      × (0 < chunk_size)
      × Same laws w w'
  GetsContentStream chunk_size (raised validation_error, w') = (chunk_size ≡ 0) × Same laws w w'
  GetsContentStream chunk_size (raised e, w') = Refused e w'

  module _ (chunk_size : ℕ) where
    abbrev give_stream :
        DocumentMetadata → StoredObjectStream → Exec (World D B O) DocumentContentStream
    give_stream metadata stored_stream = pure (record {
      document_id = id;
      stream = stored_stream.stream;
      content_type = stored_stream.content_type;
      filename = metadata.original_filename;
      size = stored_stream.size;
      checksum = stored_stream.checksum;
      chunk_size = chunk_size;
    })

    abbrev open_object : DocumentMetadata → Exec (World D B O) StoredObjectStream
    open_object metadata =
        catch (on_bucket (env.object_store.get_object_stream id metadata.storage_key))
          λ e. raise consistency_error

    abbrev OpensObject : DocumentMetadata → Outcome StoredObjectStream × World D B O → Type 0
    OpensObject m (ok c, t) =
        ((o : StoredObject) × (bucket_of laws w m.storage_key ≡ some o)
          × (c.stream ≡ o.content)
          × (c.checksum ≡ o.checksum))
        × Same laws w t
    OpensObject m (raised consistency_error, t) = Same laws w t
    OpensObject m (raised _, t) = ⊥

    open_object-OpensObject :
        (m : DocumentMetadata) (t : World D B O) → Same laws w t → OpensObject m (open_object m t)
    open_object-OpensObject m t s =
        catch-ensures
          (λ x.
            (table_of laws x.1 ≡ table_of laws t)
            × GetsStream laws.objects.bucket (bucket_of laws t) m.storage_key (x.0, x.1.bucket))
          (OpensObject m) (on_bucket (env.object_store.get_object_stream id m.storage_key))
          (λ e. raise consistency_error) t
          (refl, laws.objects.gets_stream id m.storage_key t.bucket)
          (λ c u h. (
            (h.1.0.0, ap (λ b. b m.storage_key) (sym s.1) ∙ h.1.0.1, h.1.0.2, h.1.0.3),
            (h.0 ∙ s.0, h.1.1 ∙ s.1),
          ))
          (λ e u h. (h.0 ∙ s.0, h.1 ∙ s.1))

    open_failed :
        (m : DocumentMetadata) (e : Exc) (t : World D B O)
        → OpensObject m (raised e, t)
        → GetsContentStream chunk_size (raised e, t)
    open_failed m consistency_error t h = h
    open_failed m _ t h = absurd h

    not_found_stream :
        (e : Exc) (t : World D B O)
        → GetsInternal env laws id p w (raised e, t)
        → GetsContentStream chunk_size (raised e, t)
    not_found_stream document_not_found_error t h = h
    not_found_stream metadata_store_error t h = h
    not_found_stream _ t h = absurd h

    abbrev open_after_load : DocumentMetadata → Exec (World D B O) DocumentContentStream
    open_after_load m = ensure_content_readable env m >> (open_object m >>= give_stream m)

    open_after_load-GetsContentStream :
        0 < chunk_size
        → (m : DocumentMetadata) (t : World D B O) → GetsInternal env laws id p w (ok m, t)
        → GetsContentStream chunk_size (open_after_load m t)
    unfolding ensure_content_readable
    open_after_load-GetsContentStream positive m t h =
        guard-ensures (GetsContentStream chunk_size) (is_excluded m.status) document_deleted_error
          (open_object m >>= give_stream m) t (λ e. ((m, h.0, is_excluded-IsGone m.status e), h.2))
          (λ e.
            bind-ensures (OpensObject m) (GetsContentStream chunk_size) (open_object m)
              (give_stream m) t (open_object-OpensObject m t h.2)
              (λ c u g. (
                (m, g.0.0, h.0, is_excluded-IsReadable m.status e, g.0.1, g.0.2, g.0.3, refl),
                refl,
                positive,
                g.1,
              ))
              (open_failed m))

    -- Opening the content of a document as a stream, over stores that keep their laws, changes
    -- nothing. It returns a stream of the content, and the checksum, of the object under the
    -- record's storage key, with the chunk size that was asked for, which is positive; where it
    -- raises, the chunk size was zero, or it ends as the read of the whole content may end.
    pub get_content_stream-GetsContentStream :
        GetsContentStream chunk_size (get_content_stream env id chunk_size p w)
    unfolding get_content_stream
    get_content_stream-GetsContentStream =
        guard-ensures (GetsContentStream chunk_size) (chunk_size == 0) validation_error
          (get_internal_metadata env id p >>= open_after_load) w (λ e. (ground arith, (refl, refl)))
          (λ e.
            bind-ensures (GetsInternal env laws id p w) (GetsContentStream chunk_size)
              (get_internal_metadata env id p) open_after_load w
              (get_internal_metadata-GetsInternal env laws id p w)
              (open_after_load-GetsContentStream (ground arith)) not_found_stream)
