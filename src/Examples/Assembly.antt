-- ===== src/Examples/Assembly.antt =====
-- A service assembled from the stores in memory, and a world with some documents.
use dms_core.Prelude.{Text, codes, Bool, none, some, [], ◌∷◌}
use dms_core.Domain.Value.{end}
use dms_core.Domain.Models.{DocumentMetadata, DocumentPartition, DocumentStatus, PartitionKind}
use dms_core.Domain.Exec.{ok}
use dms_core.Domain.OperationLaws.{Operations}
use dms_core.Domain.Interfaces.{StoredObject}
use dms_core.Sdk.World.{World, Backend, BackendLaws}
use dms_core.Examples.Codec.{codec}
use dms_core.Examples.Memory.{Db, Objects, now, metadata_store, object_store}
use dms_core.Examples.Memory.Laws.{db_laws, objects_laws}

abbrev pub Ops : Type 0
Ops = Operations

abbrev pub env : Backend Db Objects Ops
env = record {
  metadata_store = metadata_store;
  object_store = object_store;
  operation_store = none;
  max_file_size = some 4;
  utcnow = λ w. now;
  sha256 = λ bytes. bytes;
  lower = λ text. text;
  dumps = λ payload. payload.checksum;
  cursors = codec;
  recovery_audit_hook = some (λ event trail. (ok tt, event ∷ trail));
}

abbrev pub laws : BackendLaws env
laws = record { db = db_laws; objects = objects_laws }

abbrev pub ada : DocumentPartition
ada = record { kind = PartitionKind.personal; partition_id = codes "ada" }

abbrev pub team : DocumentPartition
team = record { kind = PartitionKind.group; partition_id = codes "ada" }

abbrev pub document : Text → DocumentStatus → DocumentMetadata
document id status = record {
  document_id = id;
  original_filename = codes "a.txt";
  content_type = codes "text/plain";
  file_size = 1;
  storage_key = id;
  status = status;
  created_at = now;
  updated_at = now;
  partition = ada;
  checksum = none;
  deleted_at = none;
  created_by = none;
  extra_metadata = end;
}

abbrev pub blob : Text → StoredObject
blob key = record {
  document_id = key;
  storage_key = key;
  content = 7 ∷ [];
  content_type = codes "text/plain";
  filename = codes "a.txt";
  size = 1;
  checksum = none;
}

-- A world whose stores are up or down; "a" and "b" are available.
abbrev pub world : Bool → Bool → World Db Objects Ops
world db_down bucket_down = record {
  db = record {
    entries =
        (codes "a", document (codes "a") DocumentStatus.available)
        ∷ (codes "b", document (codes "b") DocumentStatus.available)
        ∷ (codes "c", document (codes "c") DocumentStatus.deleting)
        ∷ [];
    next = 0;
    down = db_down;
  };
  bucket = record {
    entries = (codes "a", blob (codes "a")) ∷ (codes "b", blob (codes "b")) ∷ [];
    next = 0;
    down = bucket_down;
  };
  ops = λ scope key. none;
  audit = [];
}
