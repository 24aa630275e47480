-- ===== src/Sdk/Streams/Chunks.antt =====
-- What `iter_chunks` yields.
use dms_core.Prelude.{
  ℕ, zero, suc, ◌≤◌, ◌<◌, ◌==◌, Option, List, [], ◌∷◌, ◌++◌, ◌≡◌, refl, sym, ap, ◌∙◌, arith, length,
  length-append, concat, Bool-cases, inl, inr,
}
use mathlib.Core.List.{append_assoc}
use dms_core.Domain.Exec.{Outcome, ok, raised}
use dms_core.Domain.Interfaces.{Bytes}
use dms_core.Sdk.Streams.{
  Reader, ContentStream, Ending, exhausted, abandoned, failed_with, Iteration, size_of, next_chunk,
  read_chunks, iter_chunks,
}
use dms_core.Sdk.Streams.Laws.{Reads, ReaderLaws}

-- Chunks are not empty and not longer than was asked for.
abbrev pub AreChunks : ℕ → List Bytes → Type 0
AreChunks size [] = Unit
AreChunks size (c ∷ cs) = (0 < length c) × (length c ≤ size) × AreChunks size cs

module _ {S : Type 0} (reader : Reader S) (laws : ReaderLaws reader) where
  -- The chunks in turn are the content: all of it where the stream was exhausted, and as far as it
  -- was read otherwise. A caller has to stop asking only before the stream ends.
  abbrev pub Ends : ℕ → S → List Bytes → Ending → S → Type 0
  Ends demand s chunks exhausted s' = (laws.left s ≡ concat chunks) × (length chunks < demand)
  Ends demand s chunks abandoned s' =
      (laws.left s ≡ concat chunks ++ laws.left s')
      × (length chunks ≡ demand)
      × (demand ≤ length (laws.left s))
  Ends demand s chunks (failed_with e) s' = (rest : Bytes) × (laws.left s ≡ concat chunks ++ rest)

  abbrev pub Chunks : ℕ → ℕ → S → Iteration × S → Type 0
  Chunks demand size s (i, s') =
      AreChunks size i.chunks
      × (laws.closes s' ≡ laws.closes s)
      × Ends demand s i.chunks i.ending s'

  -- One chunk more, in front.
  more-Ends :
      (demand : ℕ) (s t : S) (c : Bytes) (chunks : List Bytes) (ending : Ending) (s' : S)
      → laws.left s ≡ c ++ laws.left t
      → 0 < length c
      → Ends demand t chunks ending s'
      → Ends (suc demand) s (c ∷ chunks) ending s'
  more-Ends demand s t c chunks exhausted s' e n h = (e ∙ ap (λ l. c ++ l) h.0, omega arith)
  more-Ends demand s t c chunks abandoned s' e n h = (
    e ∙ ap (λ l. c ++ l) h.0 ∙ sym (append_assoc c (concat chunks) (laws.left s')),
    omega arith,
    omega (arith, ap length e, length-append c (laws.left t)),
  )
  more-Ends demand s t c chunks (failed_with f) s' e n h =
      (h.0, e ∙ ap (λ l. c ++ l) h.1 ∙ sym (append_assoc c (concat chunks) h.0))

  next_chunk-Chunks :
      (demand size : ℕ) (s : S)
      → 0 < size
      → ((t : S) → Chunks demand size t (read_chunks reader demand size t))
      → (x : Outcome Bytes × S) → Reads laws.left laws.closes size s x
      → Chunks (suc demand) size s (next_chunk reader (read_chunks reader demand size) x)
  next_chunk-Chunks demand size s n more (raised e, t) h = (tt, h, (laws.left s, refl))
  next_chunk-Chunks demand size s n more (ok [], t) h = (tt, h.3, (h.2 refl, omega arith))
  next_chunk-Chunks demand size s n more (ok (b ∷ bs), t) h =
      let g = more t in
      (
        (omega arith, h.1, g.0),
        g.1 ∙ h.3,
        more-Ends demand s t (b ∷ bs) (read_chunks reader demand size t).0.chunks
            (read_chunks reader demand size t).0.ending (read_chunks reader demand size t).1 h.0
            (omega arith) g.2,
      )

  pub read_chunks-Chunks :
      (demand size : ℕ) (s : S) → 0 < size → Chunks demand size s (read_chunks reader demand size s)
  unfolding read_chunks
  read_chunks-Chunks zero size s n = (tt, refl, (refl, refl, omega arith))
  read_chunks-Chunks (suc demand) size s n =
      next_chunk-Chunks demand size s n (λ t. read_chunks-Chunks demand size t n)
        (reader.read size s) (laws.reads size s n)

  -- Iterating over a stream with a positive chunk size, where reads give the next bytes of the
  -- content, at most as many as were asked for, and none only at its end. No chunk is empty or
  -- longer than the chunk size, and nothing is closed. If the iteration ends by itself, the chunks
  -- make up the whole content; if the caller stops, they and what is left make it up, and the
  -- content has at least as many bytes as chunks were asked for; if a read raises, they are the
  -- beginning of the content.
  pub iter_chunks-Chunks :
      (demand : ℕ) (chunk_size : Option ℕ) (self : ContentStream S)
      → 0 < size_of chunk_size self.chunk_size
      → Chunks demand (size_of chunk_size self.chunk_size) self.stream (
        (iter_chunks reader demand chunk_size self).0,
        (iter_chunks reader demand chunk_size self).1.stream,
      )
  unfolding iter_chunks
  iter_chunks-Chunks zero chunk_size self n = (tt, refl, (refl, refl, omega arith))
  iter_chunks-Chunks (suc demand) chunk_size self n =
      elim (Bool-cases (size_of chunk_size self.chunk_size == 0)) [
        | inl e ↦ absurd (ground arith)
        | inr e ↦
            rw e
              (read_chunks-Chunks (suc demand) (size_of chunk_size self.chunk_size) self.stream n)
      ]
