-- ===== src/Sdk/Copying.antt =====
-- `copy_document_to` of dms/sdk/implementation.py from the opened stream on: the content is written
-- to a sink, its size and its checksum are tested, and the stream is closed.
pub mod Loop
pub mod Copied
use dms_core.Prelude.{
  first_text, ℕ, zero, suc, Text, text_eq, Bool, true, false, not, Option, none, some, List, [],
  ◌∷◌, ◌==◌, if◌then◌else◌,
}
use dms_core.Domain.Errors.{Exc, consistency_error, value_error}
use dms_core.Domain.Exec.{Outcome, ok, raised, Exec, pure, raise, raise_if, ◌>>=◌, ◌>>◌}
use dms_core.Domain.Interfaces.{Bytes}
use dms_core.Sdk.Streams.{Reader, ContentStream, close}
use dms_core.Sdk.Upload.Streams.{HashingReader, hashing_reader, read}

-- The binary file that the caller gives.
pub record Sink (K : Type 0) : Type 0 where
  pub write : Bytes → Exec K (Unit {0})

pub record DocumentCopyResult : Type 0 where
  pub document_id : Text
  pub bytes_copied : ℕ
  pub checksum : Text
  pub checksum_verified : Bool

-- What the copy is tested against: the declared size, and the checksums of the metadata and of the
-- stream.
pub record CopyRequest : Type 0 where
  pub document_id : Text
  pub chunk_size : ℕ
  pub verify_checksum : Bool
  pub size : ℕ
  pub metadata_checksum : Option Text
  pub source_checksum : Option Text

-- Whether the checksum was verified; ConsistencyError where it differs.
unfoldable pub verify : {T : Type 0} → Bool → Option Text → Text → Exec T Bool
verify false expected checksum = pure false
verify true none checksum = pure false
verify true (some expected) checksum =
    if not (text_eq checksum expected) then raise consistency_error else pure true

-- From the end of the loop on. The digest and the count are those of a `HashingReader`.
unfoldable pub finish_copy :
    {T : Type 0} → (Bytes → Text) → CopyRequest → HashingReader → Exec T DocumentCopyResult
unfolding verify
finish_copy sha256 request copied = do
  raise_if (not (copied.bytes_read == request.size)) consistency_error
  verified ←
      verify request.verify_checksum (first_text request.metadata_checksum request.source_checksum)
        (sha256 copied.hashed)
  pure (record {
    document_id = request.document_id;
    bytes_copied = copied.bytes_read;
    checksum = sha256 copied.hashed;
    checksum_verified = verified;
  })

module _ {S K : Type 0} (reader : Reader S) (sink : Sink K) where
  -- One turn of the loop, from what the read gave. The result is `none` out of fuel.
  abbrev pub copy_chunk :
      (HashingReader → Exec (S × K) (Option HashingReader))
      → HashingReader
      → K
      → Outcome Bytes × S
      → Outcome (Option HashingReader) × (S × K)
  copy_chunk more copied k (raised e, s) = (raised e, (s, k))
  copy_chunk more copied k (ok [], s) = (ok (some copied), (s, k))
  copy_chunk more copied k (ok (b ∷ bs), s) =
      let (r, k') = sink.write (b ∷ bs) k in
      elim r [ ok _ ↦ more (read copied (b ∷ bs)) (s, k') | raised e ↦ (raised e, (s, k')) ]

  unfoldable pub copy_loop : ℕ → ℕ → HashingReader → Exec (S × K) (Option HashingReader)
  unfolding read
  copy_loop zero size copied (s, k) = (ok none, (s, k))
  copy_loop (suc fuel) size copied (s, k) =
      copy_chunk (copy_loop fuel size) copied k (reader.read size s)

  -- `iter_chunks` refuses a chunk size of zero.
  abbrev pub copy_chunks : ℕ → ℕ → Exec (S × K) (Option HashingReader)
  copy_chunks fuel size x =
      let result = copy_loop fuel size hashing_reader x in
      if size == 0 then (raised value_error, x) else result

  -- The `finally`: an exception of the loop is kept, and one of `close` raised otherwise.
  abbrev pub after_closing :
      Outcome (Option HashingReader) → Outcome (Unit {0}) → Outcome (Option HashingReader)
  after_closing (raised e) q = raised e
  after_closing (ok c) (raised e) = raised e
  after_closing (ok c) (ok _) = ok c

  abbrev pub finish_if_done :
      {T : Type 0}
      → (Bytes → Text)
      → CopyRequest
      → Option HashingReader
      → Exec T (Option DocumentCopyResult)
  finish_if_done sha256 request none = pure none
  finish_if_done sha256 request (some copied) =
      finish_copy sha256 request copied >>= λ result. pure (some result)

  unfoldable pub copy_source :
      (Bytes → Text) → CopyRequest → ℕ → Exec (ContentStream S × K) (Option DocumentCopyResult)
  unfolding copy_loop finish_copy
  copy_source sha256 request fuel (self, k) =
      let (r, x) = copy_chunks fuel request.chunk_size (self.stream, k) in
      let (q, self') = close reader (record self { stream = x.0 }) in
      ((λ t. (after_closing r q, t)) >>= finish_if_done sha256 request) (self', x.1)
