-- ===== src/Infrastructure/Storage.antt =====
-- `MinioObjectStore` of dms/infrastructure/storage/minio.py. The MinIO client is a parameter; the
-- name of the bucket is fixed, and closing a response is left out.
pub mod Client
pub mod Laws
pub mod Removing
pub mod Attempts
pub mod Clearing
pub mod Reading
pub mod Refinement
use dms_core.Prelude.{
  first_text, ℕ, suc, Text, codes, is_empty, text_eq, Bool, true, false, Option, none, some, List,
  [], ◌∷◌, ◌++◌, any, length, if◌then◌else◌,
}
use dms_core.Domain.Models.{DocumentPartition}
use dms_core.Domain.Errors.{Exc, s3_error, other_error, value_error}
use dms_core.Domain.Exec.{Exec, pure, raise, catch, unless, ◌>>=◌, ◌>>◌}
use dms_core.Domain.Interfaces.{
  Bytes, PutObjectRequest, PutObjectStreamRequest, StreamedPut, StoredObject, StoredObjectStream,
  ObjectStore,
}
use dms_core.Sdk.Contracts.{partition_storage_prefix}
use dms_core.Infrastructure.Storage.Client.{MinioClient, ObjectStat, Response}

-- `getattr(exc, "code", None) in {…}`
unfoldable pub is_missing : Exc → Bool
is_missing (s3_error code) = any (text_eq code) (
    codes "NoSuchBucket" ∷ codes "NoSuchKey" ∷ codes "NoSuchObject" ∷ codes "ResourceNotFound" ∷ [])
is_missing _ = false

-- `exc.code != "BucketAlreadyOwnedByYou"`, and any exception but S3Error, is raised again
unfoldable pub is_owned_race : Exc → Bool
is_owned_race (s3_error code) = text_eq code (codes "BucketAlreadyOwnedByYou")
is_owned_race _ = false

abbrev pub or_else {ℓ} : {A : Type ℓ} → Option A → A → A
or_else none other = other
or_else (some a) other = a

abbrev pub first_given {ℓ} : {A : Type ℓ} → Option A → Option A → Option A
first_given none other = other
first_given (some a) other = some a

-- `if request.checksum is not None: metadata["checksum"] = request.checksum`
abbrev pub checksum_entry : Option Text → List (Text × Text)
checksum_entry none = []
checksum_entry (some checksum) = (codes "checksum", checksum) ∷ []

-- The metadata that is put with an object.
unfoldable pub put_metadata : PutObjectStreamRequest → List (Text × Text)
put_metadata request = (codes "document_id", request.document_id) ∷ checksum_entry request.checksum

unfoldable pub in_memory_stream : PutObjectRequest → PutObjectStreamRequest
in_memory_stream request = record {
  document_id = request.document_id;
  storage_key = request.storage_key;
  stream = request.content;
  size = length request.content;
  chunk_size = 65536;
  content_type = request.content_type;
  filename = request.filename;
  checksum = request.checksum;
  metadata = request.metadata;
}

-- `_object_attributes`
pub record ObjectAttributes : Type 0 where
  pub filename : Text
  pub checksum : Option Text
  pub content_type : Text

-- What the loop of `_clear_prefix` counts and collects.
pub record Removal : Type 0 where
  pub removed : ℕ
  pub failures : List Exc

module _ {B : Type 0} (client : MinioClient B) where
  unfoldable pub ensure_bucket : Exec B (Unit {0})
  unfolding is_owned_race
  ensure_bucket = do
    there ← client.bucket_exists
    unless there (catch client.make_bucket λ exc. if is_owned_race exc then pure tt else raise exc)

  unfoldable pub put_object_stream : PutObjectStreamRequest → Exec B StreamedPut
  unfolding put_metadata
  put_object_stream request = do
    reads ←
        client.put_object request.storage_key request.stream request.size request.content_type
          (put_metadata request)
    pure (record { storage_key = request.storage_key; reads = reads })

  unfoldable pub put_object : PutObjectRequest → Exec B Text
  unfolding put_object_stream in_memory_stream
  put_object request = do put ← put_object_stream (in_memory_stream request); pure put.storage_key

  unfoldable pub object_attributes : ObjectStat → Response → Text → ObjectAttributes
  object_attributes stat response storage_key = record {
    filename = client.path_name storage_key;
    checksum =
        first_text (stat.metadata (codes "checksum")) (stat.metadata (codes "X-Amz-Meta-Checksum"));
    content_type = or_else response.content_type (codes "application/octet-stream");
  }

  unfoldable pub get_object : Text → Text → Exec B StoredObject
  unfolding object_attributes
  get_object document_id storage_key = do
    stat ← client.stat_object storage_key
    response ← client.get_object storage_key
    content ← client.read_response response
    let attributes : ObjectAttributes = object_attributes stat response storage_key in
        pure (record {
          document_id = document_id;
          storage_key = storage_key;
          content = content;
          content_type = attributes.content_type;
          filename = attributes.filename;
          size = or_else stat.size (length content);
          checksum = attributes.checksum;
        })

  -- The stream of the result is the response.
  abbrev pub opened : Text → Text → ObjectStat → Response → Option ℕ → Exec B StoredObjectStream
  opened document_id storage_key stat response none = raise value_error
  opened document_id storage_key stat response (some size) =
      let attributes : ObjectAttributes = object_attributes stat response storage_key in
      pure (record {
        document_id = document_id;
        storage_key = storage_key;
        stream = response.stream;
        content_type = attributes.content_type;
        filename = attributes.filename;
        size = size;
        checksum = attributes.checksum;
      })

  unfoldable pub get_object_stream : Text → Text → Exec B StoredObjectStream
  unfolding object_attributes
  get_object_stream document_id storage_key = do
    stat ← client.stat_object storage_key
    response ← client.get_object storage_key
    opened document_id storage_key stat response (first_given stat.size response.length)

  unfoldable pub delete_object : Text → Text → Exec B (Unit {0})
  delete_object document_id storage_key = client.remove_object storage_key

  unfoldable pub object_exists : Text → Text → Exec B Bool
  unfolding is_missing
  object_exists document_id storage_key =
      catch (client.stat_object storage_key >>= λ _. pure true)
        λ exc. if is_missing exc then pure false else raise exc

  -- One turn of the loop: an object that cannot be removed does not stop it.
  unfoldable pub remove_one : Text → Removal → Exec B Removal
  remove_one object_name r =
      catch (client.remove_object object_name >> pure (record r { removed = suc r.removed }))
        λ exc. pure (record r { failures = r.failures ++ exc ∷ [] })

  unfoldable pub remove_each : List Text → Removal → Exec B Removal
  unfolding remove_one
  remove_each [] r = pure r
  remove_each (object_name ∷ names) r = remove_one object_name r >>= remove_each names

  -- `if failures: raise error`, which carries the count of what was removed
  abbrev pub finish_removal : ℕ → List Exc → Exec B ℕ
  finish_removal removed [] = pure removed
  finish_removal removed (_ ∷ _) = raise (other_error removed)

  unfoldable pub clear_prefix : Text → Exec B ℕ
  unfolding remove_each
  clear_prefix prefix = do
    object_names ← client.list_objects prefix
    r ← remove_each object_names (record { removed = 0; failures = [] })
    finish_removal r.removed r.failures

  unfoldable pub clear_all : Exec B ℕ
  unfolding clear_prefix
  clear_all = clear_prefix (codes "documents/")

  unfoldable pub clear_partition : (Bytes → Text) → DocumentPartition → Exec B ℕ
  unfolding clear_prefix
  clear_partition sha256 partition = clear_prefix (partition_storage_prefix sha256 partition)

  unfoldable pub minio_store : (Bytes → Text) → ObjectStore B
  minio_store sha256 = record {
    put_object = put_object;
    put_object_stream = put_object_stream;
    get_object = get_object;
    get_object_stream = get_object_stream;
    delete_object = delete_object;
    clear_all = clear_all;
    clear_partition = clear_partition sha256;
    object_exists = object_exists;
  }
