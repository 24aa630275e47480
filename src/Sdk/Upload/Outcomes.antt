-- ===== src/Sdk/Upload/Outcomes.antt =====
-- Storing a document: what it registers, and how it may end.
use dms_core.Prelude.{
  ℕ, Option, refl, inl, inr, Option-cases, length, Text, true, none, some, put, remove, ◌≡◌, ◌≢◌,
}
use dms_core.Domain.Models.{DateTime, DocumentStatus, DocumentPartition, DocumentMetadata}
use dms_core.Domain.Value.{Fields, end}
use dms_core.Domain.Errors.{duplicate_document_error, storage_error, consistency_error}
use dms_core.Domain.Exec.{Outcome, ok, raised}
use dms_core.Domain.Interfaces.{StoredObject}
use dms_core.Domain.Laws.{OnlyAt}
use dms_core.Sdk.Types.Views.{public_view}
use dms_core.Sdk.Types.{UploadDocumentRequest, UploadFields, UploadDocumentResult}
use dms_core.Sdk.World.{World, Backend, BackendLaws, table_of, bucket_of}
use dms_core.Sdk.Upload.{text_or, uploaded_metadata}
use dms_core.Sdk.Upload.Keys.{build_storage_key}

-- The fields that a caller gave, if any.
abbrev pub given_fields : Option Fields → Fields
given_fields none = end
given_fields (some fields) = fields

-- The record of a document of `n` bytes with the key `key` and the digest `sum`, registered at
-- `now` for a caller who gave the rest.
abbrev pub registered_record :
    Text
    → Text
    → Option Text
    → Option Fields
    → ℕ
    → Text
    → Text
    → Text
    → DocumentPartition
    → DateTime
    → DocumentMetadata
registered_record name mime author given n id key sum p now = record {
  document_id = id;
  original_filename = name;
  content_type = mime;
  file_size = n;
  storage_key = key;
  status = DocumentStatus.available;
  created_at = now;
  updated_at = now;
  partition = p;
  checksum = some sum;
  deleted_at = none;
  created_by = author;
  extra_metadata = given_fields given;
}

pub uploaded_metadata-registered_record :
    {D B O : Type 0} (env : Backend D B O) (r : UploadFields) (n : ℕ) (id key sum : Text)
    (p : DocumentPartition) (w : World D B O)
    → uploaded_metadata env r n id key sum p w
      ≡ registered_record r.filename r.content_type r.created_by r.metadata n id key sum p
          (env.utcnow w)
unfolding uploaded_metadata
uploaded_metadata-registered_record env r n id key sum p w = elim (Option-cases r.metadata) [
  | inl e ↦ rw e refl
  | inr (f, e) ↦ rw e refl
]

module _ {D B O : Type 0} (env : Backend D B O) (laws : BackendLaws env)
    (request : UploadDocumentRequest) (id : Text) (p : DocumentPartition) where
  -- The checksum and the key that the upload computes.
  abbrev pub sum_of : Text
  sum_of = text_or request.checksum (env.sha256 request.content)

  abbrev pub key_of : Text
  key_of = build_storage_key env.sha256 id request.filename p

  -- The object of the upload is in the bucket, and nothing else has changed there.
  abbrev pub HasObject : World D B O → World D B O → Type 0
  HasObject w w' =
      (o : StoredObject) × (o.content ≡ request.content)
      × (o.checksum ≡ some sum_of)
      × (bucket_of laws w' ≡ put (bucket_of laws w) key_of o)

  -- The document is registered: its record is new and says what the request said.
  abbrev pub Registers : World D B O → UploadDocumentResult → World D B O → Type 0
  Registers w r w' =
      (m : DocumentMetadata) × (u : World D B O) × (m
        ≡ registered_record request.filename request.content_type request.created_by
            request.metadata (length request.content) id key_of sum_of p (env.utcnow u))
      × (r ≡ record { document_id = id; metadata = public_view m; created = true })
      × (table_of laws w id ≡ none)
      × (table_of laws w' ≡ put (table_of laws w) id m)
      × HasObject w w'

  abbrev pub Stores : World D B O → Outcome UploadDocumentResult × World D B O → Type 0
  Stores w (ok r, w') = Registers w r w'
  Stores w (raised storage_error, w') =
      (table_of laws w' ≡ table_of laws w)
      × OnlyAt laws.objects.bucket (bucket_of laws w) key_of w'.bucket
  Stores w (raised consistency_error, w') =
      (table_of laws w' ≡ table_of laws w)
      × OnlyAt laws.objects.bucket (bucket_of laws w) key_of w'.bucket
  Stores w (raised duplicate_document_error, w') =
      (table_of laws w' ≡ table_of laws w)
      × (table_of laws w id ≢ none)
      × (bucket_of laws w' ≡ remove (bucket_of laws w) key_of)
  Stores w (raised _, w') = ⊥
