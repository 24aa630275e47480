-- ===== src/Infrastructure/Metadata/Selecting.antt =====
-- What the store's statements select.
use dms_core.Prelude.{
  Text, text_eq, Bool, true, false, not, ◌&&◌, Option, none, some, List, [], ◌∷◌, ◌++◌, any, all,
  map, ◌≡◌, refl, ◌∙◌, arith,
}
use dms_core.Domain.Models.{
  DocumentMetadata, DocumentPartition, DocumentStatus, PartitionKind, kind_value, status_value,
  kind_eq, status_eq, partition_eq,
}
use dms_core.Domain.Order.{Position, follows, has_status, is_listed}
use dms_core.Infrastructure.Metadata.{
  Condition, from_domain, metadata_statement, after_condition, in_partition, status_condition,
  excluded_condition,
}
use dms_core.Infrastructure.Metadata.Laws.{holds, selects}

kind_text_eq : (j k : PartitionKind) → text_eq (kind_value j) (kind_value k) ≡ kind_eq j k
unfolding text_eq
kind_text_eq PartitionKind.personal PartitionKind.personal = refl
kind_text_eq PartitionKind.personal PartitionKind.group = refl
kind_text_eq PartitionKind.group PartitionKind.personal = refl
kind_text_eq PartitionKind.group PartitionKind.group = refl

status_text_eq : (s t : DocumentStatus) → text_eq (status_value s) (status_value t) ≡ status_eq s t
unfolding text_eq
status_text_eq DocumentStatus.uploaded DocumentStatus.uploaded = refl
status_text_eq DocumentStatus.uploaded DocumentStatus.available = refl
status_text_eq DocumentStatus.uploaded DocumentStatus.deleting = refl
status_text_eq DocumentStatus.uploaded DocumentStatus.deleted = refl
status_text_eq DocumentStatus.uploaded DocumentStatus.failed = refl
status_text_eq DocumentStatus.available DocumentStatus.uploaded = refl
status_text_eq DocumentStatus.available DocumentStatus.available = refl
status_text_eq DocumentStatus.available DocumentStatus.deleting = refl
status_text_eq DocumentStatus.available DocumentStatus.deleted = refl
status_text_eq DocumentStatus.available DocumentStatus.failed = refl
status_text_eq DocumentStatus.deleting DocumentStatus.uploaded = refl
status_text_eq DocumentStatus.deleting DocumentStatus.available = refl
status_text_eq DocumentStatus.deleting DocumentStatus.deleting = refl
status_text_eq DocumentStatus.deleting DocumentStatus.deleted = refl
status_text_eq DocumentStatus.deleting DocumentStatus.failed = refl
status_text_eq DocumentStatus.deleted DocumentStatus.uploaded = refl
status_text_eq DocumentStatus.deleted DocumentStatus.available = refl
status_text_eq DocumentStatus.deleted DocumentStatus.deleting = refl
status_text_eq DocumentStatus.deleted DocumentStatus.deleted = refl
status_text_eq DocumentStatus.deleted DocumentStatus.failed = refl
status_text_eq DocumentStatus.failed DocumentStatus.uploaded = refl
status_text_eq DocumentStatus.failed DocumentStatus.available = refl
status_text_eq DocumentStatus.failed DocumentStatus.deleting = refl
status_text_eq DocumentStatus.failed DocumentStatus.deleted = refl
status_text_eq DocumentStatus.failed DocumentStatus.failed = refl

and_true : (b : Bool) → b && true ≡ b
and_true true = refl
and_true false = refl

any_status_text :
    (s : DocumentStatus) (l : List DocumentStatus)
    → any (text_eq (status_value s)) (map status_value l) ≡ any (status_eq s) l
any_status_text s [] = refl
any_status_text s (t ∷ l) = rw (status_text_eq s t, any_status_text s l) refl

module _ {A : Type 0} (f : A → Bool) where
  all-append : (k l : List A) → all f (k ++ l) ≡ all f k && all f l
  all-append [] l = refl
  all-append (x ∷ k) l = ground (arith, all-append k l)

module _ (before : Text → Text → Bool) where
  pub selects-append :
      (k l : List Condition) (m : DocumentMetadata)
      → selects before (k ++ l) m ≡ selects before k m && selects before l m
  unfolding selects
  selects-append k l m = all-append (λ c. holds before c (from_domain m)) k l

  pub selects-in_partition :
      (p : DocumentPartition) (m : DocumentMetadata)
      → selects before (in_partition p) m ≡ partition_eq m.partition p
  unfolding selects holds from_domain partition_eq
  selects-in_partition p m = rw (and_true, kind_text_eq m.partition.kind p.kind, partition_eq) refl

  selects-status_condition :
      (s : Option DocumentStatus) (m : DocumentMetadata)
      → selects before (status_condition s) m ≡ has_status s m.status
  unfolding selects holds from_domain
  selects-status_condition none m = refl
  selects-status_condition (some s) m =
      and_true (text_eq (status_value m.status) (status_value s)) ∙ status_text_eq m.status s

  selects-excluded_condition :
      (l : List DocumentStatus) (m : DocumentMetadata)
      → selects before (excluded_condition l) m ≡ not (any (status_eq m.status) l)
  unfolding selects holds from_domain
  selects-excluded_condition [] m = refl
  selects-excluded_condition (s ∷ l) m =
      rw (and_true, status_text_eq m.status s, any_status_text m.status l) refl

  -- The statement of a listing selects the documents that are listed.
  pub selects-metadata_statement :
      (p : DocumentPartition) (s : Option DocumentStatus) (l : List DocumentStatus)
      (m : DocumentMetadata)
      → selects before (metadata_statement p s l) m ≡ is_listed p s l m
  unfolding metadata_statement is_listed
  selects-metadata_statement p s l m =
      rw
        (
          selects-append (in_partition p) (status_condition s ++ excluded_condition l) m,
          selects-append (status_condition s) (excluded_condition l) m,
          selects-in_partition p m,
          selects-status_condition s m,
          selects-excluded_condition l m,
        )
        refl

  -- The condition on a page's start selects what comes after it.
  pub selects-after_condition :
      (q : Position) (m : DocumentMetadata)
      → selects before (after_condition q.created_at q.document_id ∷ []) m ≡ follows before q m
  unfolding selects holds from_domain follows
  selects-after_condition q m = rw (and_true, follows) refl
