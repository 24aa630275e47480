-- ===== src/Infrastructure/Metadata.antt =====
-- `SqlAlchemyMetadataStore` of dms/infrastructure/metadata/sqlalchemy.py: statements as data, and
-- the store over the sessions of SQLAlchemy, a parameter.
pub mod Laws
pub mod Columns
pub mod Selecting
pub mod Refinement
pub mod Keeping
pub mod Listings
use dms_core.Prelude.{
  ℕ, zero, suc, Text, Bool, true, false, not, Option, none, some, is_some, List, [], ◌∷◌, ◌++◌, map,
  length, if◌then◌else◌,
}
use dms_core.Domain.Value.{Fields, end}
use dms_core.Domain.Models.{
  DateTime, ReadDateTime, DocumentMetadata, DocumentPartition, DocumentStatus, PartitionKind,
  kind_value, status_value, kind_of, status_of, document_partition,
}
use dms_core.Domain.Errors.{
  lookup_error, value_error, metadata_conflict_error, other_error, is_integrity_error,
}
use dms_core.Domain.Exec.{Exec, pure, raise, gets, catch, raise_if, ◌>>=◌, ◌>>◌}
use dms_core.Domain.Interfaces.{MetadataStore, PageQuery, ListQuery}
use dms_core.Infrastructure.Operations.{transaction}

-- `DocumentMetadataRecord`
pub record Row : Type 0 where
  pub document_id : Text
  pub original_filename : Text
  pub content_type : Text
  pub file_size : ℕ
  pub storage_key : Text
  pub status : Text
  pub created_at : ReadDateTime
  pub updated_at : ReadDateTime
  pub checksum : Option Text
  pub deleted_at : Option ReadDateTime
  pub created_by : Option Text
  pub partition_type : Text
  pub partition_id : Text
  pub extra_metadata : Option Fields

pub data Condition : Type 0 where
  document_id_is partition_type_is partition_id_is status_is document_id_before : Text → Condition
  created_before created_at_is : DateTime → Condition
  status_not_in : List Text → Condition
  both either : Condition → Condition → Condition

-- `select(…).where(…)`, with the order of listings or with none.
pub record Statement : Type 0 where
  pub conditions : List Condition
  pub newest_first : Bool
  pub offset : ℕ
  pub limit : Option ℕ

-- What the store uses of SQLAlchemy, and the clock. `add` and `merge` stand for the call with its
-- flush, and `next_id` for a new row of the sequence table with `str` of the number it is given.
pub record Sessions (D : Type 0) : Type 0 where
  pub scalar : Statement → Exec D (Option Row)
  pub scalars : Statement → Exec D (List Row)
  pub get : Text → Exec D (Option Row)
  pub add : Row → Exec D (Unit {0})
  pub merge : Row → Exec D (Unit {0})
  pub delete : Row → Exec D (Unit {0})
  pub next_id : Exec D Text
  pub utcnow : D → DateTime

abbrev pub written : DateTime → ReadDateTime
written t = record { aware = true; ticks = t.ticks }

-- `_as_utc`: a value without a time zone is taken as UTC, any other is the same instant in UTC.
abbrev pub as_utc : ReadDateTime → DateTime
as_utc v = record { ticks = v.ticks }

abbrev pub map_option : {A B : Type 0} → (A → B) → Option A → Option B
map_option f none = none
map_option f (some a) = some (f a)

-- `_from_domain`
unfoldable pub from_domain : DocumentMetadata → Row
from_domain m = record {
  document_id = m.document_id;
  original_filename = m.original_filename;
  content_type = m.content_type;
  file_size = m.file_size;
  storage_key = m.storage_key;
  status = status_value m.status;
  created_at = written m.created_at;
  updated_at = written m.updated_at;
  checksum = m.checksum;
  deleted_at = map_option written m.deleted_at;
  created_by = m.created_by;
  partition_type = kind_value m.partition.kind;
  partition_id = m.partition.partition_id;
  extra_metadata = some m.extra_metadata;
}

abbrev pub fields_or_empty : Option Fields → Fields
fields_or_empty none = end
fields_or_empty (some f) = f

abbrev pub read_row : Row → DocumentStatus → DocumentPartition → DocumentMetadata
read_row r status partition = record {
  document_id = r.document_id;
  original_filename = r.original_filename;
  content_type = r.content_type;
  file_size = r.file_size;
  storage_key = r.storage_key;
  status = status;
  created_at = as_utc r.created_at;
  updated_at = as_utc r.updated_at;
  partition = partition;
  checksum = r.checksum;
  deleted_at = map_option as_utc r.deleted_at;
  created_by = r.created_by;
  extra_metadata = fields_or_empty r.extra_metadata;
}

abbrev pub with_kind : Row → DocumentStatus → Option PartitionKind → Option DocumentMetadata
with_kind r status none = none
with_kind r status (some kind) =
    map_option (read_row r status) (document_partition kind r.partition_id)

abbrev pub with_status_of : Row → Option DocumentStatus → Option DocumentMetadata
with_status_of r none = none
with_status_of r (some status) = with_kind r status (kind_of r.partition_type)

-- `_to_domain`; none is the ValueError of a status, a kind or a partition
unfoldable pub to_domain : Row → Option DocumentMetadata
to_domain r = with_status_of r (status_of r.status)

abbrev pub in_partition : DocumentPartition → List Condition
in_partition p =
    Condition.partition_type_is (kind_value p.kind) ∷ Condition.partition_id_is p.partition_id ∷ []

abbrev pub selecting : List Condition → Statement
selecting conditions = record {
  conditions = conditions;
  newest_first = false;
  offset = 0;
  limit = none;
}

abbrev pub one_document : Text → DocumentPartition → Statement
one_document id p = selecting (Condition.document_id_is id ∷ in_partition p)

abbrev pub status_condition : Option DocumentStatus → List Condition
status_condition none = []
status_condition (some status) = Condition.status_is (status_value status) ∷ []

abbrev pub excluded_condition : List DocumentStatus → List Condition
excluded_condition [] = []
excluded_condition (s ∷ l) = Condition.status_not_in (map status_value (s ∷ l)) ∷ []

-- `_metadata_statement`
unfoldable pub metadata_statement :
    DocumentPartition → Option DocumentStatus → List DocumentStatus → List Condition
metadata_statement p status excluded =
    in_partition p ++ (status_condition status ++ excluded_condition excluded)

abbrev pub after_condition : DateTime → Text → Condition
after_condition t id =
    Condition.either (Condition.created_before t)
      (Condition.both (Condition.created_at_is t) (Condition.document_id_before id))

abbrev pub deleted_at_now : DocumentMetadata → DateTime → DocumentMetadata
deleted_at_now m now = record m {
  status = DocumentStatus.deleted;
  deleted_at = some now;
  updated_at = now;
}

abbrev pub list_statement : ListQuery → Statement
list_statement q = record {
  conditions = metadata_statement q.partition q.status q.excluded_statuses;
  newest_first = true;
  offset = q.offset;
  limit = some q.limit;
}

abbrev pub page_statement : PageQuery → List Condition → Statement
page_statement q after = record {
  conditions = metadata_statement q.partition q.status q.excluded_statuses ++ after;
  newest_first = true;
  offset = 0;
  limit = some q.limit;
}

module _ {D : Type 0} (sessions : Sessions D) where
  unfoldable pub domain_of : Option DocumentMetadata → Exec D DocumentMetadata
  domain_of none = raise value_error
  domain_of (some m) = pure m

  -- `[self._to_domain(record) for record in records]`
  unfoldable pub domain_all : List Row → Exec D (List DocumentMetadata)
  domain_all [] = pure []
  domain_all (r ∷ l) = do m ← domain_of (to_domain r); rest ← domain_all l; pure (m ∷ rest)

  unfoldable pub allocate_within : ℕ → Exec D Text
  allocate_within zero = raise (other_error 0)
  allocate_within (suc fuel) = sessions.next_id >>= λ id.
      sessions.get id >>= λ record_. elim record_ [ none ↦ pure id | some r ↦ allocate_within fuel ]

  abbrev pub conflict : DocumentMetadata → Exec D (Unit {0})
  conflict m =
      catch (transaction (sessions.add (from_domain m)))
        λ e. raise (if is_integrity_error e then metadata_conflict_error else e)

  unfoldable pub save_metadata : DocumentMetadata → Exec D DocumentMetadata
  save_metadata m = conflict m >> pure m

  abbrev pub merge_found : DocumentMetadata → Exec D (Unit {0})
  merge_found m = sessions.scalar (one_document m.document_id m.partition) >>= λ found.
      raise_if (not (is_some found)) lookup_error >> sessions.merge (from_domain m)

  unfoldable pub update_metadata : DocumentMetadata → Exec D DocumentMetadata
  update_metadata m = transaction (merge_found m) >> pure m

  unfoldable pub read_found : Option Row → Exec D DocumentMetadata
  read_found none = raise lookup_error
  read_found (some r) = domain_of (to_domain r)

  unfoldable pub get_metadata : Text → DocumentPartition → Exec D DocumentMetadata
  get_metadata id p = sessions.scalar (one_document id p) >>= read_found

  unfoldable pub list_metadata : ListQuery → Exec D (List DocumentMetadata)
  list_metadata q = sessions.scalars (list_statement q) >>= domain_all

  unfoldable pub start_of : Option DateTime → Option Text → Exec D (List Condition)
  start_of none id = pure []
  start_of (some t) none = raise value_error
  start_of (some t) (some id) = pure (after_condition t id ∷ [])

  unfoldable pub list_metadata_page : PageQuery → Exec D (List DocumentMetadata)
  list_metadata_page q = start_of q.after_created_at q.after_document_id >>= λ after.
      sessions.scalars (page_statement q after) >>= domain_all

  unfoldable pub mark_deleted : Text → DocumentPartition → Exec D DocumentMetadata
  mark_deleted id p = get_metadata id p >>= λ metadata.
      gets sessions.utcnow >>= λ now. update_metadata (deleted_at_now metadata now)

  unfoldable pub delete_found : Option Row → Exec D (Unit {0})
  delete_found none = raise lookup_error
  delete_found (some r) = sessions.delete r

  unfoldable pub hard_delete : Text → DocumentPartition → Exec D (Unit {0})
  hard_delete id p = transaction (sessions.scalar (one_document id p) >>= delete_found)

  unfoldable pub delete_rows : List Row → Exec D (Unit {0})
  delete_rows [] = pure tt
  delete_rows (r ∷ l) = sessions.delete r >> delete_rows l

  unfoldable pub clear : List Condition → Exec D ℕ
  clear conditions = transaction (
      sessions.scalars (selecting conditions) >>= λ records.
      delete_rows records >> pure (length records))

  unfoldable pub exists : Text → Exec D Bool
  exists id =
      sessions.scalar (selecting (Condition.document_id_is id ∷ [])) >>= λ r. pure (is_some r)

  -- The store; `fuel` bounds the rounds of `allocate_document_id`.
  abbrev pub sql_store : ℕ → MetadataStore D
  sql_store fuel = record {
    allocate_document_id = transaction (allocate_within fuel);
    save_metadata = save_metadata;
    update_metadata = update_metadata;
    get_metadata = get_metadata;
    list_metadata = list_metadata;
    list_metadata_page = list_metadata_page;
    mark_deleted = mark_deleted;
    hard_delete = hard_delete;
    clear_all = clear [];
    clear_partition = λ p. clear (in_partition p);
    exists = exists;
  }
