-- ===== src/Examples/Storage.antt =====
-- The theorems on the object store over the client in memory.
use dms_core.Prelude.{codes, none, some, [], ◌∷◌, ◌≡◌, refl, false}
use dms_core.Domain.Interfaces.{PutObjectRequest}
use dms_core.Domain.Laws.{Puts, PutsStream, GetsObject, GetsStream, DeletesObject, TestsObject}
use dms_core.Sdk.Contracts.{partition_storage_segment, partition_storage_prefix}
use dms_core.Sdk.Upload.Keys.{build_storage_key}
use dms_core.Infrastructure.Storage.{in_memory_stream, minio_store, clear_partition}
use dms_core.Infrastructure.Storage.Laws.{bucket}
use dms_core.Infrastructure.Storage.Clearing.{
  Clears, clear_partition-Clears, clear_partition_spares,
}
use dms_core.Infrastructure.Storage.Refinement.{minio_store-Keeps}
use dms_core.Examples.Assembly.{env, ada, team}
use dms_core.Examples.Client.{Store, client, client_laws}

-- An object of each of two partitions.
abbrev store : Store
store = record {
  entries =
      (
        build_storage_key env.sha256 (codes "d") (codes "a.txt") ada,
        record { content = 5 ∷ 6 ∷ []; content_type = codes "text/plain"; metadata = [] },
      )
      ∷ (
        build_storage_key env.sha256 (codes "e") (codes "b.txt") team,
        record { content = 7 ∷ []; content_type = codes "text/plain"; metadata = [] },
      )
      ∷ [];
  next = 0;
  down = false;
}

abbrev request : PutObjectRequest
request = record {
  document_id = codes "d";
  storage_key = codes "k";
  content = 5 ∷ 6 ∷ [];
  content_type = codes "text/plain";
  filename = codes "a.txt";
  checksum = some (codes "c");
  metadata = none;
}

minio_store-Keeps_example :
    Puts
      (bucket client client_laws)
      (bucket client client_laws store)
      request
      ((minio_store client env.sha256).put_object request store)
    × PutsStream
        (bucket client client_laws)
        (bucket client client_laws store)
        (in_memory_stream request)
        ((minio_store client env.sha256).put_object_stream (in_memory_stream request) store)
    × GetsObject
        (bucket client client_laws)
        (bucket client client_laws store)
        (codes "k")
        ((minio_store client env.sha256).get_object (codes "d") (codes "k") store)
    × GetsStream
        (bucket client client_laws)
        (bucket client client_laws store)
        (codes "k")
        ((minio_store client env.sha256).get_object_stream (codes "d") (codes "k") store)
    × DeletesObject
        (bucket client client_laws)
        (bucket client client_laws store)
        (codes "k")
        ((minio_store client env.sha256).delete_object (codes "d") (codes "k") store)
    × TestsObject
        (bucket client client_laws)
        (bucket client client_laws store)
        (codes "k")
        ((minio_store client env.sha256).object_exists (codes "d") (codes "k") store)
minio_store-Keeps_example =
    minio_store-Keeps client client_laws env.sha256 request (in_memory_stream request) (codes "d")
      (codes "k") store

clear_partition-Clears_example :
    Clears client client_laws
      (partition_storage_prefix env.sha256 ada)
      store
      (clear_partition client env.sha256 ada store)
clear_partition-Clears_example = clear_partition-Clears client client_laws env.sha256 ada store

clear_partition_spares_example :
    bucket client client_laws
      (clear_partition client env.sha256 ada store).1
      (build_storage_key env.sha256 (codes "e") (codes "b.txt") team)
    ≡ bucket client client_laws store
        (build_storage_key env.sha256 (codes "e") (codes "b.txt") team)
unfolding partition_storage_segment
clear_partition_spares_example =
    clear_partition_spares client client_laws env.sha256 ada team (codes "e") (codes "b.txt") store
      refl (λ _. refl) (λ e. cc)
