-- ===== src/Sdk/Contracts.antt =====
-- dms/sdk/contracts.py: the names that a partition gives to its objects and upload operations.
use dms_core.Prelude.{ℕ, ◌+◌, ◌/◌, ◌%◌, Text, codes, ◌++◌, [], ◌∷◌, ltb, if◌then◌else◌}
use dms_core.Domain.Models.{DocumentPartition, kind_value}
use dms_core.Domain.Interfaces.{Bytes}

-- One character in UTF-8; the text holds no lone surrogates.
encode_char : ℕ → Bytes
encode_char c =
    if ltb c 0x80
    then c ∷ []
    else if ltb c 0x800
    then (0xc0 + c / 0x40) ∷ (0x80 + c % 0x40) ∷ []
    else if ltb c 0x10000
    then (0xe0 + c / 0x1000) ∷ (0x80 + c / 0x40 % 0x40) ∷ (0x80 + c % 0x40) ∷ []
    else (0xf0 + c / 0x40000)
      ∷ (0x80 + c / 0x1000 % 0x40)
      ∷ (0x80 + c / 0x40 % 0x40)
      ∷ (0x80 + c % 0x40)
      ∷ []

-- `s.encode("utf-8")`
unfoldable pub encode_utf8 : Text → Bytes
unfolding encode_char
encode_utf8 [] = []
encode_utf8 (c ∷ s) = encode_char c ++ encode_utf8 s

module _ (sha256 : Bytes → Text) where
  unfoldable pub partition_storage_segment : DocumentPartition → Text
  partition_storage_segment partition = sha256 (encode_utf8 partition.partition_id)

  unfoldable pub partition_storage_prefix : DocumentPartition → Text
  partition_storage_prefix partition =
      codes "documents/partitions/"
      ++ (kind_value partition.kind
          ++ (codes "/" ++ (partition_storage_segment partition ++ codes "/")))

  unfoldable pub partition_operation_scope_prefix : DocumentPartition → Text
  partition_operation_scope_prefix partition =
      codes "partition:"
      ++ (kind_value partition.kind
          ++ (codes ":" ++ (partition_storage_segment partition ++ codes ":")))

  unfoldable pub partition_operation_scope : DocumentPartition → Text → Text
  partition_operation_scope partition scope = partition_operation_scope_prefix partition ++ scope
