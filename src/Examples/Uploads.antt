-- ===== src/Examples/Uploads.antt =====
-- The theorems on uploads at concrete requests and worlds.
use dms_core.Prelude.{
  codes, true, false, none, some, all, starts_with, [], ◌∷◌, ◌≡◌, refl, strip, replace_char,
  replace_dots, text_eq,
}
use dms_core.Domain.Models.{DocumentMetadata, DocumentStatus}
use dms_core.Sdk.Types.{UploadDocumentRequest, UploadDocumentStreamRequest}
use dms_core.Sdk.Contracts.{partition_storage_segment, partition_storage_prefix}
use dms_core.Sdk.World.{World, table_of, bucket_of}
use dms_core.Sdk.Upload.{
  store_document, upload_unkeyed, save_uploaded_metadata, uploaded_metadata, roll_back, put_request,
}
use dms_core.Sdk.Upload.Keys.{sanitize_filename, document_prefix, build_storage_key}
use dms_core.Sdk.Upload.Outcomes.{key_of}
use dms_core.Sdk.Upload.Atomic.{Uploads, upload_unkeyed-Uploads}
use dms_core.Sdk.Upload.Namespace.{is_plain, sanitize_filename_plain, build_storage_key_isolated}
use dms_core.Sdk.Upload.Streams.{upload_document_stream}
use dms_core.Sdk.Upload.StreamedUpload.{UploadsStream, upload_document_stream-UploadsStream}
use dms_core.Sdk.Upload.Race.{store_document_race}
use dms_core.Examples.Memory.{Db, Objects, lookup, without}
use dms_core.Examples.Memory.Laws.{db_laws, objects_laws}
use dms_core.Examples.Assembly.{Ops, env, laws, ada, team, document, world}

abbrev pub request : UploadDocumentRequest
request = record {
  content = 5 ∷ 6 ∷ [];
  filename = codes "a.txt";
  content_type = codes "text/plain";
  document_id = some (codes "d");
  metadata = none;
  created_by = none;
  checksum = none;
  idempotency_key = none;
  idempotency_scope = none;
}

upload_unkeyed-Uploads_example :
    Uploads env laws request ada
      (world false false)
      (upload_unkeyed env request ada (world false false))
upload_unkeyed-Uploads_example = upload_unkeyed-Uploads env laws request ada (world false false)

sanitize_filename_plain_example : all is_plain (sanitize_filename (codes " ../etc\\passwd")) ≡ true
sanitize_filename_plain_example = sanitize_filename_plain (codes " ../etc\\passwd")

build_storage_key_isolated_example :
    starts_with
      (build_storage_key env.sha256 (codes "d") (codes "a.txt") ada)
      (partition_storage_prefix env.sha256 team)
    ≡ false
unfolding partition_storage_segment
build_storage_key_isolated_example =
    build_storage_key_isolated env.sha256 (codes "d") (codes "a.txt") ada team refl (λ _. refl)
      (λ e. cc)

-- The document that the other upload has registered.
abbrev winner : DocumentMetadata
winner = record (document (codes "d") DocumentStatus.available) {
  storage_key = key_of env laws request (codes "d") ada;
}

abbrev after_winner : World Db Objects Ops
after_winner = record (world false false) {
  db = record { entries = (codes "d", winner) ∷ []; next = 0; down = false };
}

store_document_race_example :
    (table_of laws (store_document env request (codes "d") ada after_winner).1 (codes "d")
      ≡ some winner)
    × (bucket_of laws (store_document env request (codes "d") ada after_winner).1 winner.storage_key
        ≡ none)
unfolding db_laws objects_laws store_document save_uploaded_metadata uploaded_metadata roll_back
    put_request build_storage_key document_prefix partition_storage_prefix partition_storage_segment
    sanitize_filename lookup without strip replace_char replace_dots text_eq
store_document_race_example =
    store_document_race env laws request (codes "d") ada winner after_winner refl refl refl

-- A stream with one byte more than is declared.
abbrev pub stream_request : UploadDocumentStreamRequest
stream_request = record {
  stream = 5 ∷ 6 ∷ 7 ∷ [];
  size = 2;
  filename = codes "a.txt";
  content_type = codes "text/plain";
  document_id = some (codes "d");
  metadata = none;
  created_by = none;
}

upload_document_stream-UploadsStream_example :
    UploadsStream env laws stream_request ada
      (world false false)
      (upload_document_stream env stream_request ada (world false false))
upload_document_stream-UploadsStream_example =
    upload_document_stream-UploadsStream env laws stream_request ada (world false false)
