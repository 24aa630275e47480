-- ===== src/Sdk/Upload/Keys.antt =====
-- The storage key of an upload: `_sanitize_filename` and `_build_storage_key` of
-- dms/sdk/upload.py.
use dms_core.Prelude.{Text, codes, strip, replace_dots, replace_char, ◌++◌}
use dms_core.Domain.Models.{DocumentPartition}
use dms_core.Domain.Interfaces.{Bytes}
use dms_core.Sdk.Contracts.{partition_storage_prefix}

unfoldable pub sanitize_filename : Text → Text
sanitize_filename filename =
    replace_char b'\\' b'-' (replace_char b'/' b'-' (replace_dots (strip filename)))

-- `f"{partition_storage_prefix(partition)}{document_id}/"`
unfoldable pub document_prefix : (Bytes → Text) → DocumentPartition → Text → Text
document_prefix sha256 partition document_id =
    partition_storage_prefix sha256 partition ++ (document_id ++ codes "/")

unfoldable pub build_storage_key : (Bytes → Text) → Text → Text → DocumentPartition → Text
build_storage_key sha256 document_id filename partition =
    document_prefix sha256 partition document_id ++ sanitize_filename filename
