-- ===== src/Examples/Listings.antt =====
-- The theorems on listings, cursors and the SQL metadata store at concrete inputs.
use dms_core.Prelude.{
  Text, codes, is_blank, text_eq, false, none, some, [], ◌∷◌, take, drop, filter, arith, ◌≡◌, refl,
  pos,
}
use dms_core.Domain.Models.{DocumentMetadata, DocumentStatus, partition_eq}
use dms_core.Domain.Interfaces.{ListQuery, PageQuery}
use dms_core.Domain.Laws.{
  Saves, Updates, Gets, MarksDeleted, HardDeletes, Tests, Allocates, Lists, page_of,
}
use dms_core.Domain.Order.{follows, is_listed}
use dms_core.Sdk.World.{World, Backend}
use dms_core.Sdk.Cursors.{
  padding, lstrip_equals, cursor_value, rstrip_equals, encode_cursor, decode_cursor,
}
use dms_core.Sdk.Cursors.RoundTrip.{state_of, decode_cursor-encode_cursor}
use dms_core.Sdk.Documents.Listing.{
  read_position, list_page, iter_documents, public_excluded_statuses,
}
use dms_core.Sdk.Documents.Pages.{Pages, list_page-Pages}
use dms_core.Sdk.Documents.Iterating.{Iterates, iter_documents-whole}
use dms_core.Infrastructure.Metadata.{sql_store, from_domain, to_domain}
use dms_core.Infrastructure.Metadata.Laws.{read_back, by_id}
use dms_core.Infrastructure.Metadata.Columns.{to_domain-from_domain}
use dms_core.Infrastructure.Metadata.Keeping.{t_of, sql_store-Keeps}
use dms_core.Infrastructure.Metadata.Listings.{sql_store-Lists, listing_laws}
use dms_core.Examples.Codec.{put_fields, codec, codec_laws}
use dms_core.Examples.Memory.{Objects, now, object_store}
use dms_core.Examples.Assembly.{Ops, ada, document, world}
use dms_core.Examples.Order.{before, place, without_id, arranged}
use dms_core.Examples.Database.{Database, documents, sessions}
use dms_core.Examples.Database.Laws.{sessions_laws}

abbrev library : Backend Database Objects Ops
library = record {
  metadata_store = sql_store sessions 3;
  object_store = object_store;
  operation_store = none;
  max_file_size = none;
  utcnow = λ w. now;
  sha256 = λ bytes. bytes;
  lower = λ text. text;
  dumps = λ payload. payload.checksum;
  cursors = codec;
  recovery_audit_hook = none;
}

abbrev at_time : DocumentMetadata → DocumentMetadata
at_time m = record m { created_at = record { ticks = 2000 } }

-- Four documents, one of them being deleted, and two of one time.
abbrev database : Database
database = record {
  log =
      document (codes "a") DocumentStatus.available
      ∷ at_time (document (codes "b") DocumentStatus.available)
      ∷ document (codes "c") DocumentStatus.deleting
      ∷ document (codes "d") DocumentStatus.available
      ∷ [];
  next = 0;
  down = false;
}

abbrev shelves : World Database Objects Ops
shelves = record {
  db = database;
  bucket = (world false false).bucket;
  ops = λ scope key. none;
  audit = [];
}

abbrev first_cursor : Text
first_cursor = rstrip_equals (
    codec.b64encode (
      codec.dumps
        (cursor_value codec (state_of codec codec_laws now (codes "a") none (pos 2) ada))))

decode_cursor-encode_cursor_example :
    decode_cursor codec first_cursor
    ≡ some (state_of codec codec_laws now (codes "a") none (pos 2) ada)
unfolding is_blank encode_cursor rstrip_equals lstrip_equals cursor_value put_fields padding
decode_cursor-encode_cursor_example =
    decode_cursor-encode_cursor codec codec_laws now (codes "a") none (pos 2) ada first_cursor refl
      refl

to_domain-from_domain_example :
    to_domain (read_back false (from_domain (document (codes "a") DocumentStatus.failed)))
    ≡ some (document (codes "a") DocumentStatus.failed)
unfolding is_blank
to_domain-from_domain_example =
    to_domain-from_domain false (document (codes "a") DocumentStatus.failed) refl

iter_documents-whole_example :
    Iterates library
      (listing_laws sessions sessions_laws 3)
      codec_laws
      ada
      (pos 2)
      none
      none
      shelves
      (iter_documents library 4 ada none (pos 2) none shelves)
unfolding is_blank arranged place without_id follows before is_listed partition_eq text_eq
iter_documents-whole_example =
    iter_documents-whole library (listing_laws sessions sessions_laws 3) codec_laws ada (pos 2) none
      4 shelves refl (omega arith)

list_page-Pages_example :
    Pages library
      (listing_laws sessions sessions_laws 3)
      codec_laws
      ada
      (pos 2)
      none
      none
      shelves
      (list_page library ada none (pos 2) none shelves)
unfolding is_blank read_position
list_page-Pages_example =
    list_page-Pages library (listing_laws sessions sessions_laws 3) codec_laws ada (pos 2) none none
      none shelves refl (λ v. refl)

abbrev query : ListQuery
query = record {
  offset = 1;
  limit = 2;
  partition = ada;
  status = none;
  excluded_statuses = public_excluded_statuses;
}

abbrev page : PageQuery
page = record {
  partition = ada;
  after_created_at = some now;
  after_document_id = some (codes "d");
  limit = 2;
  status = none;
  excluded_statuses = public_excluded_statuses;
}

sql_store-Lists_example :
    Lists documents database
      (take 2 (drop 1 (filter (is_listed ada none public_excluded_statuses) (documents database))))
      ((sql_store sessions 3).list_metadata query database)
    × Lists documents database
        (page_of before page
          (some (record { created_at = now; document_id = codes "d" }))
          (documents database))
        ((sql_store sessions 3).list_metadata_page page database)
sql_store-Lists_example =
    sql_store-Lists sessions sessions_laws 3 query page
      (some (record { created_at = now; document_id = codes "d" })) database (refl, refl)

sql_store-Keeps_example :
    Saves
      (t_of sessions sessions_laws)
      (by_id (documents database))
      (document (codes "e") DocumentStatus.available)
      ((sql_store sessions 3).save_metadata
        (document (codes "e") DocumentStatus.available)
        database)
    × Updates
        (t_of sessions sessions_laws)
        (by_id (documents database))
        (document (codes "e") DocumentStatus.available)
        ((sql_store sessions 3).update_metadata
          (document (codes "e") DocumentStatus.available)
          database)
    × Gets
        (t_of sessions sessions_laws)
        (by_id (documents database))
        (codes "a")
        ada
        ((sql_store sessions 3).get_metadata (codes "a") ada database)
    × MarksDeleted
        (t_of sessions sessions_laws)
        (by_id (documents database))
        (codes "a")
        ada
        ((sql_store sessions 3).mark_deleted (codes "a") ada database)
    × HardDeletes
        (t_of sessions sessions_laws)
        (by_id (documents database))
        (codes "a")
        ada
        ((sql_store sessions 3).hard_delete (codes "a") ada database)
    × Tests
        (t_of sessions sessions_laws)
        (by_id (documents database))
        (codes "a")
        ((sql_store sessions 3).exists (codes "a") database)
    × Allocates
        (t_of sessions sessions_laws)
        (by_id (documents database))
        ((sql_store sessions 3).allocate_document_id database)
sql_store-Keeps_example =
    sql_store-Keeps sessions sessions_laws 3 (document (codes "e") DocumentStatus.available)
      (codes "a") ada database
