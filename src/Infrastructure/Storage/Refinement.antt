-- ===== src/Infrastructure/Storage/Refinement.antt =====
-- `MinioObjectStore` as an object store of the services.
use dms_core.Prelude.{Text}
use dms_core.Domain.Interfaces.{Bytes, PutObjectRequest, PutObjectStreamRequest, ObjectStore}
use dms_core.Domain.Laws.{
  Puts, PutsStream, GetsObject, GetsStream, DeletesObject, TestsObject, ObjectStoreLaws,
}
use dms_core.Infrastructure.Storage.{minio_store}
use dms_core.Infrastructure.Storage.Client.{MinioClient, ClientLaws}
use dms_core.Infrastructure.Storage.Laws.{
  bucket, put_object-Puts, put_object_stream-PutsStream, delete_object-DeletesObject,
  object_exists-TestsObject,
}
use dms_core.Infrastructure.Storage.Reading.{get_object-GetsObject, get_object_stream-GetsStream}

module _ {B : Type 0} (client : MinioClient B) (laws : ClientLaws client)
    (sha256 : Bytes → Text) where
  abbrev store : ObjectStore B
  store = minio_store client sha256

  -- Where the MinIO client keeps its documented behaviour: the store that is built on it puts and
  -- reads content and streams, deletes and tests for objects as the services rely on.
  pub minio_store-Keeps :
      (r : PutObjectRequest) (q : PutObjectStreamRequest) (id key : Text) (b : B)
      → Puts (bucket client laws) (bucket client laws b) r (store.put_object r b)
        × PutsStream (bucket client laws) (bucket client laws b) q (store.put_object_stream q b)
        × GetsObject (bucket client laws) (bucket client laws b) key (store.get_object id key b)
        × GetsStream
            (bucket client laws)
            (bucket client laws b)
            key
            (store.get_object_stream id key b)
        × DeletesObject
            (bucket client laws)
            (bucket client laws b)
            key
            (store.delete_object id key b)
        × TestsObject (bucket client laws) (bucket client laws b) key (store.object_exists id key b)
  unfolding minio_store
  minio_store-Keeps r q id key b = (
    put_object-Puts client laws r b,
    put_object_stream-PutsStream client laws q b,
    get_object-GetsObject client laws id key b,
    get_object_stream-GetsStream client laws id key b,
    delete_object-DeletesObject client laws id key b,
    object_exists-TestsObject client laws id key b,
  )

  -- It fills the interface that the services take.
  unfoldable pub minio_laws : ObjectStoreLaws store
  unfolding minio_store
  minio_laws = record {
    bucket = bucket client laws;
    puts = λ r b. put_object-Puts client laws r b;
    puts_stream = λ r b. put_object_stream-PutsStream client laws r b;
    gets_stream = λ id key b. get_object_stream-GetsStream client laws id key b;
    gets = λ id key b. get_object-GetsObject client laws id key b;
    deletes = λ id key b. delete_object-DeletesObject client laws id key b;
    tests = λ id key b. object_exists-TestsObject client laws id key b;
  }
