-- ===== src/Sdk/Copying/Copied.antt =====
-- What `copy_document_to` has copied when it returns.
use dms_core.Prelude.{
  first_text, ℕ, suc, ◌<◌, Text, text_eq, text_eq_iff, Bool, true, false, not, Option, none, some,
  ◌++◌, ◌==◌, ◌≡◌, refl, subst, ap, ◌∙◌, arith, length, Bool-cases, inl, inr,
}
use dms_core.Domain.Errors.{consistency_error}
use dms_core.Domain.Exec.{Outcome, ok, raised, Exec, pure, ◌>>=◌}
use dms_core.Domain.Exec.Rules.{bind-ensures, guard-ensures}
use dms_core.Domain.Interfaces.{Bytes}
use dms_core.Sdk.Streams.{Reader, ContentStream, close, close_stream, content_stream}
use dms_core.Sdk.Streams.Laws.{ReaderLaws}
use dms_core.Sdk.Streams.Closing.{close_stream-Closes}
use dms_core.Sdk.Upload.Streams.{HashingReader, hashing_reader}
use dms_core.Sdk.Copying.{
  Sink, DocumentCopyResult, CopyRequest, verify, finish_copy, copy_chunks, after_closing,
  finish_if_done, copy_source,
}
use dms_core.Sdk.Copying.Loop.{SinkLaws, CopiesLoop, chunks-CopiesLoop}

-- A checksum counts as verified where it was asked for and one is known, and is that one.
abbrev pub IsVerified : Bool → Option Text → Text → Bool → Type 0
IsVerified true (some expected) checksum b = (b ≡ true) × (checksum ≡ expected)
IsVerified _ _ checksum b = b ≡ false

-- `metadata.checksum or source.checksum`
abbrev known : CopyRequest → Option Text
known request = first_text request.metadata_checksum request.source_checksum

module _ {T : Type 0} where
  abbrev Verifies : Bool → Option Text → Text → T → Outcome Bool × T → Type 0
  Verifies v expected checksum t (ok b, u) = IsVerified v expected checksum b × (u ≡ t)
  Verifies v expected checksum t (raised e, u) = u ≡ t

  verify-Verifies :
      (v : Bool) (expected : Option Text) (checksum : Text) (t : T)
      → Verifies v expected checksum t (verify v expected checksum t)
  unfolding verify
  verify-Verifies false none checksum t = (refl, refl)
  verify-Verifies false (some expected) checksum t = (refl, refl)
  verify-Verifies true none checksum t = (refl, refl)
  verify-Verifies true (some expected) checksum t = elim (Bool-cases (text_eq checksum expected)) [
    | inl e ↦ rw e ((refl, (text_eq_iff checksum expected).0 e), refl)
    | inr e ↦ rw e refl
  ]

  module _ (sha256 : Bytes → Text) (request : CopyRequest) where
    abbrev Finishes : HashingReader → T → Outcome DocumentCopyResult × T → Type 0
    Finishes c t (ok r, u) =
        (r.bytes_copied ≡ c.bytes_read)
        × (c.bytes_read ≡ request.size)
        × (r.checksum ≡ sha256 c.hashed)
        × IsVerified request.verify_checksum (known request) (sha256 c.hashed) r.checksum_verified
        × (u ≡ t)
    Finishes c t (raised e, u) = u ≡ t

    abbrev result : HashingReader → Bool → Exec T DocumentCopyResult
    result c verified = pure (record {
      document_id = request.document_id;
      bytes_copied = c.bytes_read;
      checksum = sha256 c.hashed;
      checksum_verified = verified;
    })

    finish_copy-Finishes :
        (c : HashingReader) (t : T) → Finishes c t (finish_copy sha256 request c t)
    unfolding finish_copy
    finish_copy-Finishes c t =
        guard-ensures (Finishes c t) (not (c.bytes_read == request.size)) consistency_error
          (verify request.verify_checksum (known request) (sha256 c.hashed) >>= result c) t
          (λ e. refl)
          (λ e.
            bind-ensures (Verifies request.verify_checksum (known request) (sha256 c.hashed) t)
              (Finishes c t) (verify request.verify_checksum (known request) (sha256 c.hashed))
              (result c) t
              (verify-Verifies request.verify_checksum (known request) (sha256 c.hashed) t)
              (λ b u h. (refl, ground arith, refl, h.0, h.1)) (λ f u h. h))

module _ {S K : Type 0} (reader : Reader S) (sink : Sink K) (laws : ReaderLaws reader)
    (sinks : SinkLaws sink) (sha256 : Bytes → Text) (request : CopyRequest) (s : S) (k : K) where
  abbrev pub Copies : Outcome (Option DocumentCopyResult) × (ContentStream S × K) → Type 0
  Copies (ok none, x) = ⊥
  Copies (ok (some r), x) =
      (sinks.written x.1 ≡ sinks.written k ++ laws.left s)
      × (r.bytes_copied ≡ length (laws.left s))
      × (request.size ≡ length (laws.left s))
      × (r.checksum ≡ sha256 (laws.left s))
      × IsVerified request.verify_checksum
          (first_text request.metadata_checksum request.source_checksum) (sha256 (laws.left s))
          r.checksum_verified
      × (laws.closes x.0.stream ≡ suc (laws.closes s))
  Copies (raised e, x) = laws.closes x.0.stream ≡ suc (laws.closes s)

  finished :
      (fuel : ℕ) (r : Outcome (Option HashingReader)) (x : S × K) (q : Outcome (Unit {0}))
      (self : ContentStream S)
      → length (laws.left s) < fuel
      → laws.closes self.stream ≡ suc (laws.closes x.0)
      → CopiesLoop reader sink laws sinks fuel hashing_reader s k (r, x)
      → Copies (
          ((λ t. (after_closing reader sink r q, t)) >>= finish_if_done reader sink sha256 request)
            (self, x.1))
  finished fuel (raised e) x q self n c h = c ∙ ap suc h
  finished fuel (ok none) x q self n c h = absurd (omega arith)
  finished fuel (ok (some d)) x (raised e) self n c h = c ∙ ap suc h.3
  finished fuel (ok (some d)) x (ok _) self n c h =
      bind-ensures (Finishes sha256 request d (self, x.1)) Copies (finish_copy sha256 request d)
        (λ r. pure (some r)) (self, x.1) (finish_copy-Finishes sha256 request d (self, x.1))
        (λ r u g. (
          ap (λ t. sinks.written t.1) g.4 ∙ h.2,
          omega (arith, g.0, h.1),
          omega (arith, g.1, h.1),
          g.2 ∙ ap sha256 h.0,
          subst
              (λ l.
                IsVerified request.verify_checksum (known request) (sha256 l) r.checksum_verified)
              h.0 g.3,
          ap (λ t. laws.closes t.0.stream) g.4 ∙ c ∙ ap suc h.3,
        ))
        (λ e u g. ap (λ t. laws.closes t.0.stream) g ∙ c ∙ ap suc h.3)

  -- Copying a stream that `get_content_stream` returned to a sink, where reads give the next bytes
  -- of the content and none only at its end, a write that returns appends its bytes, and the fuel is
  -- more than the length of the content. The copy ends within the fuel, and the stream is closed
  -- exactly once, whether it returns or raises. If it returns, the sink has the whole content
  -- behind what it had, the declared size and the number of bytes that is reported are the length
  -- of the content, the checksum is its digest, and it is reported as verified where that was asked
  -- for and a checksum is known, and then it is that one.
  pub copy_source-Copies :
      (fuel n : ℕ)
      → length (laws.left s) < fuel
      → Copies (copy_source reader sink sha256 request fuel (content_stream reader s n, k))
  unfolding copy_source close content_stream
  copy_source-Copies fuel n h =
      let y = copy_chunks reader sink fuel request.chunk_size (s, k) in
      finished fuel y.0 y.1 (close_stream reader y.1.0).0 _ h
        (close_stream-Closes reader laws y.1.0)
        (chunks-CopiesLoop reader sink laws sinks fuel request.chunk_size s k)
