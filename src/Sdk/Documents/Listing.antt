-- ===== src/Sdk/Documents/Listing.antt =====
-- The listings of `DocumentService` of dms/sdk/documents.py, by offset and limit and by pages, and
-- `iter_documents` of dms/sdk/implementation.py behind the access check.
use dms_core.Prelude.{
  true, ℤ, is_negative, is_positive, exceeds, pos_part, int_eq, ℕ, zero, suc, ◌+◌, Text, text_eq,
  ltb, length, take, get_last?, ◌||◌, ◌++◌, Bool, false, not, Option, none, some, List, [], ◌∷◌,
  map,
}
use dms_core.Domain.Models.{
  DateTime, DocumentStatus, DocumentPartition, DocumentMetadata, partition_eq,
}
use dms_core.Domain.Errors.{validation_error, metadata_store_error, other_error}
use dms_core.Domain.Exec.{Exec, pure, raise, catch, raise_if, ◌>>=◌, ◌>>◌}
use dms_core.Domain.Order.{Position}
use dms_core.Sdk.Types.{PublicDocumentMetadata, DocumentPage, public_metadata}
use dms_core.Sdk.Cursors.{CursorState, status_text, encode_cursor, decode_cursor}
use dms_core.Sdk.World.{World, Backend, on_db}
use dms_core.Sdk.Documents.{is_excluded}

-- `_PUBLIC_EXCLUDED_STATUSES`
abbrev pub public_excluded_statuses : List DocumentStatus
public_excluded_statuses = DocumentStatus.deleting ∷ DocumentStatus.deleted ∷ []

abbrev pub given_excluded : Option DocumentStatus → Bool
given_excluded none = false
given_excluded (some status) = is_excluded status

-- `_MAX_PAGE_LIMIT`
abbrev pub max_page_limit : ℕ
max_page_limit = 1000

unfoldable pub same_status : Option Text → Option Text → Bool
same_status none none = true
same_status (some s) (some t) = text_eq s t
same_status _ _ = false

abbrev pub created_of : Option Position → Option DateTime
created_of none = none
created_of (some p) = some p.created_at

abbrev pub id_of : Option Position → Option Text
id_of none = none
id_of (some p) = some p.document_id

module _ {D B O : Type 0} (env : Backend D B O) where
  abbrev Call : Type 0 → Type 0
  Call A = Exec (World D B O) A

  unfoldable pub validate_public_status : Option DocumentStatus → Call (Unit {0})
  validate_public_status status = raise_if (given_excluded status) validation_error

  unfoldable pub list_internal :
      DocumentPartition
      → ℤ
      → ℤ
      → Option DocumentStatus
      → List DocumentStatus
      → Call (List DocumentMetadata)
  list_internal partition offset limit status excluded_statuses = do
    raise_if (is_negative offset) validation_error
    raise_if (not (is_positive limit)) validation_error
    catch
        (on_db (
          env.metadata_store.list_metadata (record {
            offset = pos_part offset;
            limit = pos_part limit;
            partition = partition;
            status = status;
            excluded_statuses = excluded_statuses;
          })))
        λ e. raise metadata_store_error

  unfoldable pub list_public :
      DocumentPartition → ℤ → ℤ → Option DocumentStatus → Call (List PublicDocumentMetadata)
  list_public partition offset limit status = do
    validate_public_status status
    items ← list_internal partition offset limit status public_excluded_statuses
    pure (map public_metadata items)

  -- the tests on a cursor that was read, and where it stands
  unfoldable pub check_cursor :
      CursorState → DocumentPartition → ℤ → Option DocumentStatus → Call (Option Position)
  check_cursor c partition limit status = do
    raise_if (not (same_status c.status (status_text status))) validation_error
    raise_if (not (int_eq c.page_size limit)) validation_error
    raise_if (not (partition_eq c.partition partition)) validation_error
    pure (some (record { created_at = c.created_at; document_id = c.document_id }))

  unfoldable pub check_decoded :
      Option CursorState → DocumentPartition → ℤ → Option DocumentStatus → Call (Option Position)
  check_decoded none partition limit status = raise validation_error
  check_decoded (some c) partition limit status = check_cursor c partition limit status

  -- `if cursor is not None`
  unfoldable pub read_position :
      Option Text → DocumentPartition → ℤ → Option DocumentStatus → Call (Option Position)
  read_position none partition limit status = pure none
  read_position (some cursor) partition limit status =
      check_decoded (decode_cursor env.cursors cursor) partition limit status

  unfoldable pub encoded : Option Text → Call (Option Text)
  encoded none = raise validation_error
  encoded (some cursor) = pure (some cursor)

  -- the cursor behind the last item
  unfoldable pub next_cursor :
      Bool
      → Option DocumentMetadata
      → DocumentPartition
      → ℤ
      → Option DocumentStatus
      → Call (Option Text)
  next_cursor true (some last) partition limit status =
      encoded (encode_cursor env.cursors last.created_at last.document_id status limit partition)
  next_cursor _ _ partition limit status = pure none

  unfoldable pub fetch_page :
      Option Position → DocumentPartition → ℤ → Option DocumentStatus → Call (List DocumentMetadata)
  fetch_page after partition limit status =
      catch
        (on_db (
          env.metadata_store.list_metadata_page (record {
            partition = partition;
            after_created_at = created_of after;
            after_document_id = id_of after;
            limit = pos_part limit + 1;
            status = status;
            excluded_statuses = public_excluded_statuses;
          })))
        λ e. raise metadata_store_error

  unfoldable pub make_page :
      List DocumentMetadata → DocumentPartition → ℤ → Option DocumentStatus → Call DocumentPage
  make_page metadata partition limit status =
      let has_more : Bool = ltb (pos_part limit) (length metadata) in
      let items : List DocumentMetadata = take (pos_part limit) metadata in
      next_cursor has_more (get_last? items) partition limit status >>= λ next.
      pure (record { items = map public_metadata items; next_cursor = next; has_more = has_more })

  unfoldable pub list_page :
      DocumentPartition → Option Text → ℤ → Option DocumentStatus → Call DocumentPage
  list_page partition cursor limit status =
      validate_public_status status
      >> (raise_if (not (is_positive limit) || exceeds limit max_page_limit) validation_error
          >> (read_position cursor partition limit status >>= λ after.
              fetch_page after partition limit status >>= λ metadata.
              make_page metadata partition limit status))

  -- all that `iter_documents` yields, for as many pages as there is fuel
  unfoldable pub iter_documents :
      ℕ
      → DocumentPartition
      → Option Text
      → ℤ
      → Option DocumentStatus
      → Call (List PublicDocumentMetadata)
  iter_documents zero partition cursor page_size status = raise (other_error 0)
  iter_documents (suc fuel) partition cursor page_size status =
      list_page partition cursor page_size status >>= λ page. elim page.next_cursor [
        | none ↦ pure page.items
        | some next ↦ iter_documents fuel partition (some next) page_size status >>= λ rest.
            pure (page.items ++ rest)
      ]
