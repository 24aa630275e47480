-- ===== src/Sdk/World.antt =====
-- What a service works on: the states of the three stores, each written by its own store alone,
-- and the audit trail, which the recovery audit hook alone writes.
use dms_core.Prelude.{ℕ, Text, Option, List, ◌≡◌}
use dms_core.Domain.Models.{DateTime, DocumentPartition}
use dms_core.Domain.Exec.{Exec}
use dms_core.Domain.Interfaces.{Bytes, MetadataStore, ObjectStore, UploadOperationStore}
use dms_core.Domain.Laws.{Table, Bucket, MetadataStoreLaws, ObjectStoreLaws}
use dms_core.Sdk.Types.{RecoveryAuditEvent}
use dms_core.Sdk.Cursors.{CursorCodec}

pub record World (D B O : Type 0) : Type 0 where
  pub db : D
  pub bucket : B
  pub ops : O
  pub audit : List RecoveryAuditEvent

-- The `payload` of `build_upload_fingerprint` of dms/sdk/upload.py.
pub record FingerprintPayload : Type 0 where
  pub checksum : Text
  pub filename : Text
  pub content_type : Text
  pub size : ℕ
  pub document_id : Option Text
  pub partition : DocumentPartition

-- What a service is assembled from: the stores, the configured bound, the system clock as a
-- reading of the world, SHA-256 in hexadecimal, the text functions and the audit hook.
pub record Backend (D B O : Type 0) : Type 0 where
  pub metadata_store : MetadataStore D
  pub object_store : ObjectStore B
  pub operation_store : Option (UploadOperationStore O)
  pub max_file_size : Option ℕ
  pub utcnow : World D B O → DateTime
  pub sha256 : Bytes → Text
  -- `str.lower`, and `json.dumps(…).encode()` on the payload of a fingerprint
  pub lower : Text → Text
  pub dumps : FingerprintPayload → Bytes
  pub cursors : CursorCodec
  pub recovery_audit_hook : Option (RecoveryAuditEvent → Exec (List RecoveryAuditEvent) (Unit {0}))

module _ {ℓ} {D B O : Type 0} {A : Type ℓ} where
  abbrev pub on_db : Exec D A → Exec (World D B O) A
  on_db m w = let (r, d) = m w.db in (r, record w { db = d })

  abbrev pub on_bucket : Exec B A → Exec (World D B O) A
  on_bucket m w = let (r, b) = m w.bucket in (r, record w { bucket = b })

  abbrev pub on_audit : Exec (List RecoveryAuditEvent) A → Exec (World D B O) A
  on_audit m w = let (r, l) = m w.audit in (r, record w { audit = l })

  abbrev pub on_ops : Exec O A → Exec (World D B O) A
  on_ops m w = let (r, o) = m w.ops in (r, record w { ops = o })

-- What the services rely on of their stores.
pub record BackendLaws {D B O : Type 0} (env : Backend D B O) : Type 0 where
  pub db : MetadataStoreLaws env.metadata_store
  pub objects : ObjectStoreLaws env.object_store

module _ {D B O : Type 0} {env : Backend D B O} (laws : BackendLaws env) where
  abbrev pub table_of : World D B O → Table
  table_of w = laws.db.table w.db

  abbrev pub bucket_of : World D B O → Bucket
  bucket_of w = laws.objects.bucket w.bucket

  -- Neither the table nor the bucket has changed.
  abbrev pub Same : World D B O → World D B O → Type 0
  Same w w' = (table_of w' ≡ table_of w) × (bucket_of w' ≡ bucket_of w)
