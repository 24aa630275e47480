-- ===== src/Sdk/Upload/ReadBack.antt =====
-- The upload service and the document service together: the content of an upload is read back.
use dms_core.Prelude.{
  take_prefix, View, Text, some, put, text_eq_refl, take, length, ◌≡◌, refl, sym, ap, ◌∙◌, subst,
}
use dms_core.Domain.Models.{DocumentPartition, DocumentMetadata, partition_eq_iff}
use dms_core.Domain.Errors.{
  document_not_found_error, document_deleted_error, metadata_store_error, consistency_error,
}
use dms_core.Domain.Exec.{Outcome, ok, raised}
use dms_core.Domain.Interfaces.{Bytes, StoredObject}
use dms_core.Domain.Laws.{Table, Bucket, found}
use dms_core.Sdk.Types.{
  UploadDocumentRequest, UploadDocumentStreamRequest, UploadDocumentResult, DocumentContent,
}
use dms_core.Sdk.World.{World, Backend, BackendLaws, table_of, bucket_of, Same}
use dms_core.Sdk.Documents.{get_content}
use dms_core.Sdk.Documents.Readable.{IsReadable, gone_unreadable}
use dms_core.Sdk.Documents.Contents.{GetsContent, get_content-GetsContent}
use dms_core.Sdk.Upload.{upload_unkeyed}
use dms_core.Sdk.Upload.Outcomes.{sum_of, key_of, registered_record}
use dms_core.Sdk.Upload.Atomic.{Uploads, upload_unkeyed-Uploads}
use dms_core.Sdk.Upload.Streams.{upload_document_stream}
use dms_core.Sdk.Upload.Streaming.{stream_key}
use dms_core.Sdk.Upload.StreamedUpload.{UploadsStream, upload_document_stream-UploadsStream}

found-some :
    (t : Table) (id : Text) (m : DocumentMetadata) → t id ≡ some m → found t id m.partition ≡ some m
unfolding found
found-some t id m h = rw (found, h, (partition_eq_iff m.partition m.partition).1 refl) refl

module _ {D B O : Type 0} (env : Backend D B O) (laws : BackendLaws env) (id : Text)
    (p : DocumentPartition) (u : World D B O) where
  -- A read that finds the document: the content, or an error of a store.
  abbrev pub ReadsBack : Bytes → Text → Outcome DocumentContent × World D B O → Type 0
  ReadsBack content filename (ok c, v) =
      (c.content ≡ content) × (c.filename ≡ filename) × Same laws u v
  ReadsBack content filename (raised metadata_store_error, v) = Same laws u v
  ReadsBack content filename (raised consistency_error, v) = Same laws u v
  ReadsBack content filename (raised _, v) = ⊥

  stored-ReadsBack :
      (m : DocumentMetadata) (o : StoredObject)
      → found (table_of laws u) id p ≡ some m
      → IsReadable m.status
      → bucket_of laws u m.storage_key ≡ some o
      → (x : Outcome DocumentContent × World D B O) → GetsContent env laws id p u x
      → ReadsBack o.content m.original_filename x
  stored-ReadsBack m o f s b (ok c, v) ((n, q, g, e, d, ec, es, ef), same) =
      let i : n ≡ m = cc in
      let k : bucket_of laws u m.storage_key ≡ some q =
        subst (λ m. bucket_of laws u m.storage_key ≡ some q) i d in
      let j : q ≡ o = cc in (ec ∙ ap (λ o. o.content) j, ef ∙ ap (λ m. m.original_filename) i, same)
  stored-ReadsBack m o f s b (raised metadata_store_error, v) h = h
  stored-ReadsBack m o f s b (raised consistency_error, v) h = h
  stored-ReadsBack m o f s b (raised document_not_found_error, v) h = absurd cc
  stored-ReadsBack m o f s b (raised document_deleted_error, v) ((n, g, e), same) =
      let i : n ≡ m = cc in
      absurd (gone_unreadable n.status (subst (λ m. IsReadable m.status) (sym i) s) e)
  stored-ReadsBack m o f s b (raised _, v) h = absurd h

put-at : {V : Type 0} (t : View V) (k : Text) (v : V) → put t k v k ≡ some v
put-at t k v = rw (text_eq_refl k) refl

module _ {D B O : Type 0} (env : Backend D B O) (laws : BackendLaws env) where
  -- A document that stands in the table and whose content stands in the bucket is read back.
  registered-ReadsBack :
      (id : Text) (t : Table) (b : Bucket) (u : World D B O) (m : DocumentMetadata)
      (o : StoredObject)
      → IsReadable m.status
      → table_of laws u ≡ put t id m
      → bucket_of laws u ≡ put b m.storage_key o
      → ReadsBack env laws id m.partition u o.content m.original_filename
          (get_content env id m.partition u)
  registered-ReadsBack id t b u m o s et eb =
      stored-ReadsBack env laws id m.partition u m o
        (found-some (table_of laws u) id m (ap (λ f. f id) et ∙ put-at t id m)) s
        (ap (λ f. f m.storage_key) eb ∙ put-at b m.storage_key o) _
        (get_content-GetsContent env laws id m.partition u)

  -- After an upload without a key that returned, over stores that keep their laws, reading the
  -- content of its document changes nothing and gives the content and the file name of the
  -- request, or raises MetadataStoreError or ConsistencyError where a store fails; it is neither
  -- missing nor deleted.
  pub get_content-upload_unkeyed :
      (request : UploadDocumentRequest) (p : DocumentPartition) (w u : World D B O)
      (r : UploadDocumentResult)
      → upload_unkeyed env request p w ≡ (ok r, u)
      → ReadsBack env laws r.document_id p u request.content request.filename
          (get_content env r.document_id p u)
  get_content-upload_unkeyed request p w u r h =
      let (n, (m, v, em, er, free, et, (o, oc, os, eb))) =
        subst (Uploads env laws request p w) h (upload_unkeyed-Uploads env laws request p w) in
      subst
        (λ c.
          ReadsBack env laws r.document_id p u c request.filename
            (get_content env r.document_id p u))
        oc
        (registered-ReadsBack r.document_id (table_of laws w) (bucket_of laws w) u
          (registered_record request.filename request.content_type request.created_by
            request.metadata (length request.content) r.document_id
            (key_of env laws request r.document_id p) (sum_of env laws request r.document_id p) p
            (env.utcnow v))
          o tt (rw em at et) eb)

  -- After an upload of a stream that returned, over stores that keep their laws, reading the
  -- content of its document changes nothing and gives the first bytes of the stream, as many as
  -- were declared, and the file name of the request, or raises MetadataStoreError or
  -- ConsistencyError where a store fails; it is neither missing nor deleted.
  pub get_content-upload_document_stream :
      (request : UploadDocumentStreamRequest) (p : DocumentPartition) (w u : World D B O)
      (r : UploadDocumentResult)
      → upload_document_stream env request p w ≡ (ok r, u)
      → ReadsBack env laws r.document_id p u
          (take request.size request.stream)
          request.filename
          (get_content env r.document_id p u)
  get_content-upload_document_stream request p w u r h =
      let (n, positive, fits, (m, v, o, em, er, free, et, (ol, (rest, os), eb))) =
        subst (UploadsStream env laws request p w) h
          (upload_document_stream-UploadsStream env laws request p w) in
      subst
        (λ c.
          ReadsBack env laws r.document_id p u c request.filename
            (get_content env r.document_id p u))
        (sym (ap (take request.size) os ∙ take_prefix request.size o.content rest ol))
        (registered-ReadsBack r.document_id (table_of laws w) (bucket_of laws w) u
          (registered_record request.filename request.content_type request.created_by
            request.metadata (length o.content) r.document_id
            (stream_key env laws request r.document_id p) (env.sha256 o.content) p (env.utcnow v))
          o tt (rw em at et) eb)
