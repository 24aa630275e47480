-- ===== src/Domain/Order.antt =====
-- The order of listings, newest first, and which documents a query selects.
pub mod Descending
use dms_core.Prelude.{
  Text, text_eq, Bool, true, false, not, ◌&&◌, ◌||◌, ltb, ◌==◌, Option, none, some, List, [], ◌∷◌,
  ◌≡◌, ◌≢◌, any, all, filter, if◌then◌else◌,
}
use dms_core.Domain.Models.{
  DateTime, DocumentMetadata, DocumentPartition, DocumentStatus, partition_eq, status_eq,
}

-- Where a document stands in a listing.
pub record Position : Type 0 where
  pub created_at : DateTime
  pub document_id : Text

abbrev pub position : DocumentMetadata → Position
position m = record { created_at = m.created_at; document_id = m.document_id }

-- The laws of `<` on identifiers, as the database compares them.
pub record IsTextOrder (before : Text → Text → Bool) : Type 0 where
  pub irreflexive : (s : Text) → before s s ≡ false
  pub transitive : (s t u : Text) → before s t ≡ true → before t u ≡ true → before s u ≡ true
  pub total : (s t : Text) → s ≢ t → before s t ≡ false → before t s ≡ true

-- `created_at < t or (created_at == t and document_id < i)`
unfoldable pub follows : (Text → Text → Bool) → Position → DocumentMetadata → Bool
follows before p m =
    ltb m.created_at.ticks p.created_at.ticks
    || ((m.created_at.ticks == p.created_at.ticks) && before m.document_id p.document_id)

abbrev pub has_status : Option DocumentStatus → DocumentStatus → Bool
has_status none s = true
has_status (some status) s = status_eq s status

-- What `_metadata_statement` selects: the partition, the status, and what is left out.
unfoldable pub is_listed :
    DocumentPartition → Option DocumentStatus → List DocumentStatus → DocumentMetadata → Bool
is_listed partition status excluded m =
    partition_eq m.partition partition
    && (has_status status m.status && not (any (status_eq m.status) excluded))

abbrev pub is_after : (Text → Text → Bool) → Option Position → DocumentMetadata → Bool
is_after before none m = true
is_after before (some p) m = follows before p m

-- A listing: each document stands before the ones that come after it.
abbrev pub IsDescending : (Text → Text → Bool) → List DocumentMetadata → Type 0
IsDescending before [] = Unit
IsDescending before (m ∷ l) = (all (follows before (position m)) l ≡ true) × IsDescending before l
