-- ===== src/Sdk/Copying/Loop.antt =====
-- The loop of `copy_document_to`, and what it relies on of the sink.
use dms_core.Prelude.{
  ℕ, zero, suc, ◌+◌, ◌≤◌, ◌<◌, Option, none, some, [], ◌∷◌, ◌++◌, ◌==◌, ◌≡◌, refl, sym, ap, ◌∙◌,
  arith, length, length-append, append_nil, Bool-cases, inl, inr,
}
use mathlib.Core.List.{append_assoc}
use dms_core.Domain.Exec.{Outcome, ok, raised, Exec}
use dms_core.Domain.Interfaces.{Bytes}
use dms_core.Sdk.Streams.{Reader}
use dms_core.Sdk.Streams.Laws.{Reads, ReaderLaws}
use dms_core.Sdk.Upload.Streams.{HashingReader, hashing_reader, read}
use dms_core.Sdk.Copying.{Sink, copy_chunk, copy_loop, copy_chunks}

-- What the copy relies on of the sink: a write that returns appends its bytes.
module _ {K : Type 0} (written : K → Bytes) where
  abbrev pub Writes : Bytes → K → Outcome (Unit {0}) × K → Type 0
  Writes chunk k (ok _, k') = written k' ≡ written k ++ chunk
  Writes chunk k (raised e, k') = Unit

pub record SinkLaws {K : Type 0} (sink : Sink K) : Type 0 where
  pub written : K → Bytes
  pub writes : (chunk : Bytes) (k : K) → Writes written chunk k (sink.write chunk k)

module _ {S K : Type 0} (reader : Reader S) (sink : Sink K) (laws : ReaderLaws reader)
    (sinks : SinkLaws sink) where
  -- The loop stands for one long read and write, with fuel for more turns than there are bytes.
  abbrev pub CopiesLoop :
      ℕ → HashingReader → S → K → Outcome (Option HashingReader) × (S × K) → Type 0
  CopiesLoop fuel c s k (ok none, x) = fuel ≤ length (laws.left s)
  CopiesLoop fuel c s k (ok (some c'), x) =
      (c'.hashed ≡ c.hashed ++ laws.left s)
      × (c'.bytes_read ≡ c.bytes_read + length (laws.left s))
      × (sinks.written x.1 ≡ sinks.written k ++ laws.left s)
      × (laws.closes x.0 ≡ laws.closes s)
  CopiesLoop fuel c s k (raised e, x) = laws.closes x.0 ≡ laws.closes s

  -- One chunk more, in front.
  more_copied :
      (fuel : ℕ) (c : HashingReader) (chunk : Bytes) (s t : S) (k k' : K)
      (r : Outcome (Option HashingReader)) (x : S × K)
      → laws.left s ≡ chunk ++ laws.left t
      → 0 < length chunk
      → laws.closes t ≡ laws.closes s
      → sinks.written k' ≡ sinks.written k ++ chunk
      → CopiesLoop fuel (read c chunk) t k' (r, x)
      → CopiesLoop (suc fuel) c s k (r, x)
  unfolding read
  more_copied fuel c chunk s t k k' (ok none) x e n q w h =
      omega (arith, ap length e, length-append chunk (laws.left t))
  more_copied fuel c chunk s t k k' (ok (some d)) x e n q w h = (
    h.0 ∙ append_assoc c.hashed chunk (laws.left t) ∙ ap (λ l. c.hashed ++ l) (sym e),
    omega (arith, h.1, ap length e, length-append chunk (laws.left t)),
    h.2
        ∙ ap (λ l. l ++ laws.left t) w
        ∙ append_assoc (sinks.written k) chunk (laws.left t)
        ∙ ap (λ l. sinks.written k ++ l) (sym e),
    h.3 ∙ q,
  )
  more_copied fuel c chunk s t k k' (raised f) x e n q w h = h ∙ q

  chunk_written :
      (fuel : ℕ) (more : HashingReader → Exec (S × K) (Option HashingReader)) (c : HashingReader)
      (chunk : Bytes) (s t : S) (k : K)
      → laws.left s ≡ chunk ++ laws.left t
      → 0 < length chunk
      → laws.closes t ≡ laws.closes s
      → ((d : HashingReader) (l : K) → CopiesLoop fuel d t l (more d (t, l)))
      → (r : Outcome (Unit {0})) (k' : K) → Writes sinks.written chunk k (r, k')
      → CopiesLoop
          (suc fuel)
          c
          s
          k
          (elim r [ ok _ ↦ more (read c chunk) (t, k') | raised e ↦ (raised e, (t, k')) ])
  chunk_written fuel more c chunk s t k e n q ih (ok _) k' w =
      more_copied fuel c chunk s t k k' _ _ e n q w (ih (read c chunk) k')
  chunk_written fuel more c chunk s t k e n q ih (raised f) k' w = q

  turn :
      (fuel size : ℕ) (c : HashingReader) (s : S) (k : K)
      (more : HashingReader → Exec (S × K) (Option HashingReader))
      → ((d : HashingReader) (t : S) (l : K) → CopiesLoop fuel d t l (more d (t, l)))
      → (x : Outcome Bytes × S) → Reads laws.left laws.closes size s x
      → CopiesLoop (suc fuel) c s k (copy_chunk reader sink more c k x)
  turn fuel size c s k more ih (raised e, t) h = h
  turn fuel size c s k more ih (ok [], t) h =
      let e = h.2 refl in
      (
        sym (ap (λ l. c.hashed ++ l) e ∙ append_nil c.hashed),
        omega (arith, ap length e),
        sym (ap (λ l. sinks.written k ++ l) e ∙ append_nil (sinks.written k)),
        h.3,
      )
  turn fuel size c s k more ih (ok (b ∷ bs), t) h =
      chunk_written fuel more c (b ∷ bs) s t k h.0 (omega arith) h.3 (λ d l. ih d t l)
        (sink.write (b ∷ bs) k).0 (sink.write (b ∷ bs) k).1 (sinks.writes (b ∷ bs) k)

  loop-CopiesLoop :
      (fuel size : ℕ) (c : HashingReader) (s : S) (k : K)
      → 0 < size
      → CopiesLoop fuel c s k (copy_loop reader sink fuel size c (s, k))
  unfolding copy_loop
  loop-CopiesLoop zero size c s k n = omega arith
  loop-CopiesLoop (suc fuel) size c s k n =
      turn fuel size c s k (copy_loop reader sink fuel size)
        (λ d t l. loop-CopiesLoop fuel size d t l n) (reader.read size s) (laws.reads size s n)

  pub chunks-CopiesLoop :
      (fuel size : ℕ) (s : S) (k : K)
      → CopiesLoop fuel hashing_reader s k (copy_chunks reader sink fuel size (s, k))
  chunks-CopiesLoop fuel size s k = elim (Bool-cases (size == 0)) [
    | inl e ↦ rw e refl
    | inr e ↦ rw e (loop-CopiesLoop fuel size hashing_reader s k (ground arith))
  ]
