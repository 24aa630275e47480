-- ===== src/Domain/Models.antt =====
-- dms/domain/models.py: documents, partitions and upload operations.
use dms_core.Prelude.{
  ℕ, Text, codes, text_eq, text_eq_iff, is_blank, Bool, true, false, ◌&&◌, Option, none, some,
  if◌then◌else◌, ◌≡◌, ◌↔◌, refl, arith,
}
use dms_core.Domain.Value.{Fields}

-- An aware `datetime`, by its ticks in UTC. The code gives documents and operations no other.
pub record DateTime : Type 0 where
  pub ticks : ℕ

-- A `datetime` that is read back from a text or a column: the ticks, and whether it has a time zone.
pub record ReadDateTime : Type 0 where
  pub aware : Bool
  pub ticks : ℕ

pub data DocumentStatus : Type 0 where
  uploaded available deleting deleted failed : DocumentStatus

pub data UploadOperationState : Type 0 where
  pending succeeded failed : UploadOperationState

pub data PartitionKind : Type 0 where
  personal group : PartitionKind

pub record DocumentPartition : Type 0 where
  pub kind : PartitionKind
  pub partition_id : Text

pub record UploadOperation : Type 0 where
  pub scope : Text
  pub idempotency_key : Text
  pub fingerprint : Text
  pub document_id : Text
  pub state : UploadOperationState
  pub created_at : DateTime
  pub updated_at : DateTime

pub record UploadOperationClaim : Type 0 where
  pub operation : UploadOperation
  pub claimed : Bool

pub record DocumentMetadata : Type 0 where
  pub document_id : Text
  pub original_filename : Text
  pub content_type : Text
  pub file_size : ℕ
  pub storage_key : Text
  pub status : DocumentStatus
  pub created_at : DateTime
  pub updated_at : DateTime
  pub partition : DocumentPartition
  pub checksum : Option Text
  pub deleted_at : Option DateTime
  pub created_by : Option Text
  pub extra_metadata : Fields

-- `DocumentPartition(kind=…, partition_id=…)`; none is the ValueError
unfoldable pub document_partition : PartitionKind → Text → Option DocumentPartition
document_partition kind partition_id =
    if is_blank partition_id
    then none
    else some (record { kind = kind; partition_id = partition_id })

-- `PartitionKind.value`
abbrev pub kind_value : PartitionKind → Text
kind_value PartitionKind.personal = codes "personal"
kind_value PartitionKind.group = codes "group"

-- `DocumentStatus.value`
abbrev pub status_value : DocumentStatus → Text
status_value DocumentStatus.uploaded = codes "uploaded"
status_value DocumentStatus.available = codes "available"
status_value DocumentStatus.deleting = codes "deleting"
status_value DocumentStatus.deleted = codes "deleted"
status_value DocumentStatus.failed = codes "failed"

-- `PartitionKind(value)`; none is the ValueError
unfoldable pub kind_of : Text → Option PartitionKind
kind_of value =
    if text_eq value (codes "personal")
    then some PartitionKind.personal
    else if text_eq value (codes "group")
    then some PartitionKind.group
    else none

-- `DocumentStatus(value)`; none is the ValueError
unfoldable pub status_of : Text → Option DocumentStatus
status_of value =
    if text_eq value (codes "uploaded")
    then some DocumentStatus.uploaded
    else if text_eq value (codes "available")
    then some DocumentStatus.available
    else if text_eq value (codes "deleting")
    then some DocumentStatus.deleting
    else if text_eq value (codes "deleted")
    then some DocumentStatus.deleted
    else if text_eq value (codes "failed")
    then some DocumentStatus.failed
    else none

abbrev pub kind_eq : PartitionKind → PartitionKind → Bool
kind_eq PartitionKind.personal PartitionKind.personal = true
kind_eq PartitionKind.group PartitionKind.group = true
kind_eq _ _ = false

abbrev pub status_eq : DocumentStatus → DocumentStatus → Bool
status_eq DocumentStatus.uploaded DocumentStatus.uploaded = true
status_eq DocumentStatus.available DocumentStatus.available = true
status_eq DocumentStatus.deleting DocumentStatus.deleting = true
status_eq DocumentStatus.deleted DocumentStatus.deleted = true
status_eq DocumentStatus.failed DocumentStatus.failed = true
status_eq _ _ = false

-- `==` of the dataclass
unfoldable pub partition_eq : DocumentPartition → DocumentPartition → Bool
partition_eq p q = kind_eq p.kind q.kind && text_eq p.partition_id q.partition_id

kind_eq_iff : (j k : PartitionKind) → (kind_eq j k ≡ true) ↔ (j ≡ k)
kind_eq_iff PartitionKind.personal PartitionKind.personal = ((λ _. refl), (λ _. refl))
kind_eq_iff PartitionKind.personal PartitionKind.group = ((λ h. cc), (λ h. cc))
kind_eq_iff PartitionKind.group PartitionKind.personal = ((λ h. cc), (λ h. cc))
kind_eq_iff PartitionKind.group PartitionKind.group = ((λ _. refl), (λ _. refl))

pub partition_eq_iff : (p q : DocumentPartition) → (partition_eq p q ≡ true) ↔ (p ≡ q)
unfolding partition_eq
partition_eq_iff p q =
    ground (arith, kind_eq_iff p.kind q.kind, text_eq_iff p.partition_id q.partition_id)

pub partition_eq_refl : (p : DocumentPartition) → partition_eq p p ≡ true
partition_eq_refl p = (partition_eq_iff p p).1 refl

pub status_eq_iff : (s t : DocumentStatus) → (status_eq s t ≡ true) ↔ (s ≡ t)
status_eq_iff DocumentStatus.uploaded t = ground arith
status_eq_iff DocumentStatus.available t = ground arith
status_eq_iff DocumentStatus.deleting t = ground arith
status_eq_iff DocumentStatus.deleted t = ground arith
status_eq_iff DocumentStatus.failed t = ground arith

pub status_of-status_value : (s : DocumentStatus) → status_of (status_value s) ≡ some s
unfolding status_of text_eq
status_of-status_value DocumentStatus.uploaded = refl
status_of-status_value DocumentStatus.available = refl
status_of-status_value DocumentStatus.deleting = refl
status_of-status_value DocumentStatus.deleted = refl
status_of-status_value DocumentStatus.failed = refl

pub kind_of-kind_value : (k : PartitionKind) → kind_of (kind_value k) ≡ some k
unfolding kind_of text_eq
kind_of-kind_value PartitionKind.personal = refl
kind_of-kind_value PartitionKind.group = refl

pub document_partition_lem :
    (p : DocumentPartition)
    → is_blank p.partition_id ≡ false
    → document_partition p.kind p.partition_id ≡ some p
unfolding document_partition
document_partition_lem p h = rw (h, document_partition) refl
