-- ===== src/Examples/Streams.antt =====
-- A binary stream in memory that meets the laws, and the theorems on content streams over it.
use dms_core.Prelude.{
  ℕ, zero, suc, ◌≤◌, ◌<◌, none, some, [], ◌∷◌, ◌≡◌, refl, sym, arith, take, drop, take-drop, length,
}
use dms_core.Domain.Exec.{ok}
use dms_core.Domain.Interfaces.{Bytes}
use dms_core.Sdk.Streams.{Reader, ContentStream, content_stream, iter_chunks, iter_chunks_closing}
use dms_core.Sdk.Streams.Laws.{Reads, ReaderLaws}
use dms_core.Sdk.Streams.Chunks.{Chunks, iter_chunks-Chunks}
use dms_core.Sdk.Streams.Closing.{ClosesOnce, iter_chunks_closing-ClosesOnce}

-- What is left, and how often it was closed.
abbrev pub Buffer : Type 0
Buffer = Bytes × ℕ

abbrev pub reader : Reader Buffer
reader = record {
  read = λ size s. (ok (take size s.0), (drop size s.0, s.1));
  close = λ s. (ok tt, (s.0, suc s.1));
  release_conn = some (λ s. (ok tt, s));
}

length-take_le : (k : ℕ) (l : Bytes) → length (take k l) ≤ k
length-take_le zero l = omega arith
length-take_le (suc k) [] = omega arith
length-take_le (suc k) (x ∷ l) = omega (arith, length-take_le k l)

take_empty : (k : ℕ) (l : Bytes) → 0 < k → take k l ≡ [] → l ≡ []
take_empty zero l n h = absurd (omega arith)
take_empty (suc k) [] n h = refl
take_empty (suc k) (x ∷ l) n h = absurd cc

pub reads :
    (size : ℕ) (s : Buffer) → 0 < size → Reads (λ s. s.0) (λ s. s.1) size s (reader.read size s)
reads size s n = (sym (take-drop size s.0), length-take_le size s.0, take_empty size s.0 n, refl)

unfoldable pub reader_laws : ReaderLaws reader
reader_laws = record {
  left = λ s. s.0;
  closes = λ s. s.1;
  reads = reads;
  closing = λ s. refl;
  releases = λ s. refl;
}

abbrev opened_stream : ContentStream Buffer
opened_stream = content_stream reader (5 ∷ 6 ∷ 7 ∷ [], 0) 2

iter_chunks-Chunks_example :
    Chunks reader reader_laws 3 2
      (5 ∷ 6 ∷ 7 ∷ [], 0)
      (
        (iter_chunks reader 3 none opened_stream).0,
        (iter_chunks reader 3 none opened_stream).1.stream,
      )
unfolding content_stream
iter_chunks-Chunks_example =
    iter_chunks-Chunks reader reader_laws 3 none opened_stream (omega arith)

iter_chunks_closing-ClosesOnce_example :
    ClosesOnce reader reader_laws
      (5 ∷ 6 ∷ 7 ∷ [], 0)
      (iter_chunks_closing reader 1 none opened_stream)
iter_chunks_closing-ClosesOnce_example =
    iter_chunks_closing-ClosesOnce reader reader_laws 0 none (5 ∷ 6 ∷ 7 ∷ [], 0) 2
