-- ===== src/Examples/Contents.antt =====
-- The theorems on reading content at concrete worlds and requests.
use dms_core.Prelude.{
  is_blank, codes, false, true, [], ◌∷◌, refl, strip, replace_char, replace_dots, text_eq,
}
use dms_core.Sdk.Types.{UploadDocumentResult, public_metadata, fields_of, stream_fields}
use dms_core.Sdk.World.{World}
use dms_core.Sdk.Documents.{get_content, get_content_stream}
use dms_core.Sdk.Documents.Contents.{
  GetsContent, get_content-GetsContent, GetsContentStream, get_content_stream-GetsContentStream,
}
use dms_core.Sdk.Upload.{
  store_document, upload_unkeyed, resolve_document_id, save_uploaded_metadata, uploaded_metadata,
  put_request, validate_upload_fields, validate_common_upload_fields, validate_file_size,
}
use dms_core.Sdk.Upload.Keys.{sanitize_filename}
use dms_core.Sdk.Upload.Outcomes.{key_of}
use dms_core.Sdk.Upload.Streams.{
  read, read_each, put_stream_request, hexdigest, validate_stream_upload_request, check_stored,
  store_stream, upload_stream, upload_document_stream,
}
use dms_core.Sdk.Upload.Streaming.{stream_key}
use dms_core.Sdk.Upload.ReadBack.{
  ReadsBack, get_content-upload_unkeyed, get_content-upload_document_stream,
}
use dms_core.Examples.Memory.{Db, Objects, lookup, without}
use dms_core.Examples.Assembly.{Ops, env, laws, ada, world}
use dms_core.Examples.Uploads.{request, stream_request}

get_content-GetsContent_example :
    GetsContent env laws
      (codes "a")
      ada
      (world false false)
      (get_content env (codes "a") ada (world false false))
get_content-GetsContent_example =
    get_content-GetsContent env laws (codes "a") ada (world false false)

get_content_stream-GetsContentStream_example :
    GetsContentStream env laws
      (codes "a")
      ada
      (world false false)
      2
      (get_content_stream env (codes "a") 2 ada (world false false))
get_content_stream-GetsContentStream_example =
    get_content_stream-GetsContentStream env laws (codes "a") ada (world false false) 2

-- The world after the upload, and its result.
abbrev uploaded : World Db Objects Ops
uploaded = (upload_unkeyed env request ada (world false false)).1

abbrev result : UploadDocumentResult
result = record {
  document_id = codes "d";
  metadata = public_metadata (
      uploaded_metadata env (fields_of request) 2 (codes "d")
        (key_of env laws request (codes "d") ada) (5 ∷ 6 ∷ []) ada (world false false));
  created = true;
}

get_content-upload_unkeyed_example :
    ReadsBack env laws
      (codes "d")
      ada
      uploaded
      (5 ∷ 6 ∷ [])
      (codes "a.txt")
      (get_content env (codes "d") ada uploaded)
unfolding upload_unkeyed resolve_document_id store_document put_request save_uploaded_metadata
    uploaded_metadata public_metadata lookup without text_eq
get_content-upload_unkeyed_example =
    get_content-upload_unkeyed env laws request ada (world false false) uploaded result refl

abbrev streamed_world : World Db Objects Ops
streamed_world = (upload_document_stream env stream_request ada (world false false)).1

abbrev stream_result : UploadDocumentResult
stream_result = record {
  document_id = codes "d";
  metadata = public_metadata (
      uploaded_metadata env (stream_fields stream_request) 2 (codes "d")
        (stream_key env laws stream_request (codes "d") ada) (5 ∷ 6 ∷ []) ada (world false false));
  created = true;
}

get_content-upload_document_stream_example :
    ReadsBack env laws
      (codes "d")
      ada
      streamed_world
      (5 ∷ 6 ∷ [])
      (codes "a.txt")
      (get_content env (codes "d") ada streamed_world)
unfolding upload_document_stream validate_common_upload_fields validate_upload_fields
    validate_stream_upload_request validate_file_size upload_stream resolve_document_id store_stream
    put_stream_request read_each read hexdigest check_stored save_uploaded_metadata
    uploaded_metadata public_metadata lookup without text_eq sanitize_filename strip replace_char
    replace_dots is_blank
get_content-upload_document_stream_example =
    get_content-upload_document_stream env laws stream_request ada (world false false)
      streamed_world stream_result refl
