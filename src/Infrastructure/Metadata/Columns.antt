-- ===== src/Infrastructure/Metadata/Columns.antt =====
-- A document that is written as a row and read back.
use dms_core.Prelude.{
  is_blank, Bool, true, false, Option, none, some, ◌≡◌, refl, Bool-cases, sym, ◌∙◌, inl, inr,
}
use dms_core.Domain.Models.{
  DateTime, DocumentMetadata, document_partition, document_partition_lem, status_of-status_value,
  kind_of-kind_value,
}
use dms_core.Infrastructure.Metadata.{from_domain, to_domain, written, as_utc, map_option}
use dms_core.Infrastructure.Metadata.Laws.{read_back, again}

stamp :
    (aware : Bool) (t : Option DateTime)
    → map_option as_utc (map_option (again aware) (map_option written t)) ≡ t
stamp aware none = refl
stamp aware (some t) = refl

-- Where the partition's identifier is not blank, and whether the database gives time stamps back
-- with a time zone or without one: the row that a document is written as is read as the document.
pub to_domain-from_domain :
    (aware : Bool) (m : DocumentMetadata)
    → is_blank m.partition.partition_id ≡ false
    → to_domain (read_back aware (from_domain m)) ≡ some m
unfolding to_domain from_domain read_back
to_domain-from_domain aware m q =
    rw
      (
        status_of-status_value m.status,
        kind_of-kind_value m.partition.kind,
        document_partition_lem m.partition q,
        stamp aware m.deleted_at,
      )
      refl

to_domain_blank :
    (aware : Bool) (m : DocumentMetadata)
    → is_blank m.partition.partition_id ≡ true
    → to_domain (read_back aware (from_domain m)) ≡ none
unfolding to_domain from_domain read_back document_partition
to_domain_blank aware m b =
    rw (status_of-status_value m.status, kind_of-kind_value m.partition.kind, b) refl

-- Where a row is read at all, it is read as the document that it was written for.
pub to_domain-only :
    (aware : Bool) (m n : DocumentMetadata)
    → to_domain (read_back aware (from_domain m)) ≡ some n
    → n ≡ m
to_domain-only aware m n h = elim (Bool-cases (is_blank m.partition.partition_id)) [
  | inl blank ↦
      let unread : some n ≡ none = sym h ∙ to_domain_blank aware m blank in absurd (cc unread)
  | inr filled ↦ let same : some n ≡ some m = sym h ∙ to_domain-from_domain aware m filled in cc
]
