-- ===== src/Sdk/Streams/Closing.antt =====
-- How often `iter_chunks_closing` closes the stream.
use dms_core.Prelude.{
  ℕ, suc, ◌==◌, true, false, Option, none, some, List, [], ◌++◌, ◌≡◌, refl, sym, ap, ◌∙◌, arith,
  concat, append_nil, Bool-cases, inl, inr,
}
use dms_core.Domain.Exec.{Outcome, ok, raised, Exec}
use dms_core.Domain.Exec.Rules.{bind-ensures}
use dms_core.Domain.Interfaces.{Bytes}
use dms_core.Sdk.Streams.{
  Reader, ContentStream, Ending, exhausted, abandoned, failed_with, Iteration, size_of, release,
  close_stream, content_stream, read_chunks, iter_chunks, close, after_close, iter_chunks_closing,
}
use dms_core.Sdk.Streams.Laws.{Releases, ReaderLaws}
use dms_core.Sdk.Streams.Chunks.{Ends, read_chunks-Chunks}

module _ {S : Type 0} (reader : Reader S) (laws : ReaderLaws reader) where
  released :
      (o : Option (Exec S (Unit {0}))) (t : S)
      → Releases laws.left laws.closes o t
      → laws.closes (release reader o t).1 ≡ laws.closes t
  released none t h = refl
  released (some m) t h = h

  pub close_stream-Closes : (s : S) → laws.closes (close_stream reader s).1 ≡ suc (laws.closes s)
  unfolding close_stream
  close_stream-Closes s =
      bind-ensures (λ x. laws.closes x.1 ≡ suc (laws.closes s))
        (λ x. laws.closes x.1 ≡ suc (laws.closes s)) reader.close
        (λ _. release reader reader.release_conn) s (laws.closing s)
        (λ _ t h. released reader.release_conn t (laws.releases t) ∙ h) (λ e t h. h)

  -- The chunks are all of the content where the stream was exhausted, and its beginning otherwise.
  abbrev pub Prefix : S → List Bytes → Ending → Type 0
  Prefix s chunks exhausted = laws.left s ≡ concat chunks
  Prefix s chunks ending = (rest : Bytes) × (laws.left s ≡ concat chunks ++ rest)

  Ends-Prefix :
      (demand : ℕ) (s : S) (chunks : List Bytes) (ending : Ending) (s' : S)
      → Ends reader laws demand s chunks ending s'
      → Prefix s chunks ending
  Ends-Prefix demand s chunks exhausted s' h = h.0
  Ends-Prefix demand s chunks abandoned s' h = (laws.left s', h.0)
  Ends-Prefix demand s chunks (failed_with f) s' h = h

  -- An iteration over a stream that `get_content_stream` returned leaves its callback.
  abbrev Leaves : S → Iteration × ContentStream S → Type 0
  Leaves s (i, self) =
      (self.closed ≡ false)
      × (self.close_callback ≡ some (close_stream reader))
      × (laws.closes self.stream ≡ laws.closes s)
      × Prefix s i.chunks i.ending

  iter_chunks-Leaves :
      (demand : ℕ) (chunk_size : Option ℕ) (s : S) (n : ℕ)
      → Leaves s (iter_chunks reader (suc demand) chunk_size (content_stream reader s n))
  unfolding iter_chunks content_stream
  iter_chunks-Leaves demand chunk_size s n = elim (Bool-cases (size_of chunk_size n == 0)) [
    | inl e ↦ rw e (refl, refl, refl, (laws.left s, refl))
    | inr e ↦
        let x = read_chunks reader (suc demand) (size_of chunk_size n) s in
        let h =
          read_chunks-Chunks reader laws (suc demand) (size_of chunk_size n) s (ground arith) in
        rw e (refl, refl, h.1, Ends-Prefix (suc demand) s x.0.chunks x.0.ending x.1 h.2)
  ]

  -- Closed once; a second `close` does nothing.
  abbrev pub ClosesOnce : S → Iteration × ContentStream S → Type 0
  ClosesOnce s (i, self) =
      (self.closed ≡ true)
      × (laws.closes self.stream ≡ suc (laws.closes s))
      × (close reader self ≡ (ok tt, self))
      × Prefix s i.chunks i.ending

  after_close-Prefix :
      (s : S) (chunks : List Bytes) (ending : Ending) (r : Outcome (Unit {0}))
      → Prefix s chunks ending
      → Prefix s chunks (after_close reader ending r)
  after_close-Prefix s chunks exhausted (raised e) h = ([], h ∙ sym (append_nil (concat chunks)))
  after_close-Prefix s chunks exhausted (ok _) h = h
  after_close-Prefix s chunks abandoned r h = h
  after_close-Prefix s chunks (failed_with f) r h = h

  close-ClosesOnce :
      (s : S) (i : Iteration) (self : ContentStream S)
      → Leaves s (i, self)
      → ClosesOnce s (
        record i { ending = after_close reader i.ending (close reader self).0 },
        (close reader self).1,
      )
  unfolding close
  close-ClosesOnce s i self h =
      rw (h.0, h.1)
        (
          refl,
          close_stream-Closes self.stream ∙ ap suc h.2,
          refl,
          after_close-Prefix s i.chunks i.ending (close_stream reader self.stream).0 h.3,
        )

  -- Iterating over a stream that `get_content_stream` returned, for a caller that asks for at least
  -- one chunk, where reads close nothing and `release_conn` closes nothing. However the iteration
  -- ends, by itself, because the caller stops, with an exception of a read or of the closing, or
  -- for a chunk size of zero, the stream is closed exactly once and marked as closed, and a later
  -- `close` does nothing; the chunks are all of the content where the stream was exhausted, and its
  -- beginning otherwise.
  pub iter_chunks_closing-ClosesOnce :
      (demand : ℕ) (chunk_size : Option ℕ) (s : S) (n : ℕ)
      → ClosesOnce s
          (iter_chunks_closing reader (suc demand) chunk_size (content_stream reader s n))
  unfolding iter_chunks_closing
  iter_chunks_closing-ClosesOnce demand chunk_size s n =
      let x = iter_chunks reader (suc demand) chunk_size (content_stream reader s n) in
      close-ClosesOnce s x.0 x.1 (iter_chunks-Leaves demand chunk_size s n)
