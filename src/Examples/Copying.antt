-- ===== src/Examples/Copying.antt =====
-- The theorem on copying over a binary stream and a sink in memory.
use dms_core.Prelude.{codes, true, some, none, [], ◌∷◌, ◌++◌, refl, arith}
use dms_core.Domain.Exec.{ok}
use dms_core.Domain.Interfaces.{Bytes}
use dms_core.Sdk.Streams.{content_stream}
use dms_core.Sdk.Copying.{Sink, CopyRequest, copy_source}
use dms_core.Sdk.Copying.Copied.{Copies, copy_source-Copies}
use dms_core.Sdk.Copying.Loop.{SinkLaws}
use dms_core.Examples.Streams.{reader, reader_laws}

abbrev sink : Sink Bytes
sink = record { write = λ chunk written. (ok tt, written ++ chunk) }

unfoldable sink_laws : SinkLaws sink
sink_laws = record { written = λ k. k; writes = λ chunk k. refl }

abbrev copy_request : CopyRequest
copy_request = record {
  document_id = codes "d";
  chunk_size = 2;
  verify_checksum = true;
  size = 3;
  metadata_checksum = some (5 ∷ 6 ∷ 7 ∷ []);
  source_checksum = none;
}

copy_source-Copies_example :
    Copies reader sink reader_laws sink_laws
      (λ bytes. bytes)
      copy_request
      (5 ∷ 6 ∷ 7 ∷ [], 0)
      (9 ∷ [])
      (copy_source reader sink
        (λ bytes. bytes)
        copy_request
        4
        (content_stream reader (5 ∷ 6 ∷ 7 ∷ [], 0) 2, 9 ∷ []))
unfolding reader_laws
copy_source-Copies_example =
    copy_source-Copies reader sink reader_laws sink_laws (λ bytes. bytes) copy_request
      (5 ∷ 6 ∷ 7 ∷ [], 0) (9 ∷ []) 4 2 (omega arith)
