-- ===== src/Sdk/Streams.antt =====
-- `DocumentContentStream` of dms/sdk/types.py as an object that is read and closed, and the callback
-- that `get_content_stream` of dms/sdk/documents.py gives it. The underlying stream is a parameter.
pub mod Laws
pub mod Chunks
pub mod Closing
use dms_core.Prelude.{
  ℕ, zero, suc, Bool, true, false, Option, none, some, List, [], ◌∷◌, ◌==◌, if◌then◌else◌,
}
use dms_core.Domain.Errors.{Exc, value_error}
use dms_core.Domain.Exec.{Outcome, ok, raised, Exec, pure, ◌>>=◌, ◌>>◌}
use dms_core.Domain.Interfaces.{Bytes}

-- A binary stream on a state of its own; `release_conn` where it has one.
pub record Reader (S : Type 0) : Type 0 where
  pub read : ℕ → Exec S Bytes
  pub close : Exec S (Unit {0})
  pub release_conn : Option (Exec S (Unit {0}))

-- The mutable part of a `DocumentContentStream`.
pub record ContentStream (S : Type 0) : Type 0 where
  pub stream : S
  pub chunk_size : ℕ
  pub close_callback : Option (Exec S (Unit {0}))
  pub closed : Bool

-- How an iteration ended: with the stream, because the caller asked for no more, or with an
-- exception.
pub data Ending : Type 0 where
  exhausted abandoned : Ending
  failed_with : Exc → Ending

-- The chunks that were yielded, and the ending.
pub record Iteration : Type 0 where
  pub chunks : List Bytes
  pub ending : Ending

abbrev pub stop : Ending → Iteration
stop ending = record { chunks = []; ending = ending }

-- `self.chunk_size if chunk_size is None else chunk_size`
abbrev pub size_of : Option ℕ → ℕ → ℕ
size_of none default = default
size_of (some size) default = size

module _ {S : Type 0} (reader : Reader S) where
  -- `if release_conn is not None: release_conn()`
  abbrev pub release : Option (Exec S (Unit {0})) → Exec S (Unit {0})
  release none = pure tt
  release (some release_conn) = release_conn

  -- `close_stream` of `get_content_stream`
  unfoldable pub close_stream : Exec S (Unit {0})
  close_stream = reader.close >> release reader.release_conn

  -- What `get_content_stream` returns, of a stream in the state `s`.
  unfoldable pub content_stream : S → ℕ → ContentStream S
  unfolding close_stream
  content_stream s chunk_size = record {
    stream = s;
    chunk_size = chunk_size;
    close_callback = some close_stream;
    closed = false;
  }

  -- One turn of the loop of `iter_chunks`, from what `read` gave.
  abbrev pub next_chunk : (S → Iteration × S) → Outcome Bytes × S → Iteration × S
  next_chunk more (raised e, s) = (stop (failed_with e), s)
  next_chunk more (ok [], s) = (stop exhausted, s)
  next_chunk more (ok (b ∷ bs), s) =
      let (i, s') = more s in (record { chunks = (b ∷ bs) ∷ i.chunks; ending = i.ending }, s')

  -- The loop of `iter_chunks` for a caller that asks `demand` times.
  unfoldable pub read_chunks : ℕ → ℕ → S → Iteration × S
  read_chunks zero size s = (stop abandoned, s)
  read_chunks (suc demand) size s = next_chunk (read_chunks demand size) (reader.read size s)

  -- A generator that is never asked does not start.
  unfoldable pub iter_chunks : ℕ → Option ℕ → ContentStream S → Iteration × ContentStream S
  unfolding read_chunks
  iter_chunks zero chunk_size self = (stop abandoned, self)
  iter_chunks (suc demand) chunk_size self =
      let size : ℕ = size_of chunk_size self.chunk_size in
      let (i, s) = read_chunks (suc demand) size self.stream in
      if size == 0 then (stop (failed_with value_error), self) else (i, record self { stream = s })

  -- the callback, if there is one, or `self.stream.close()`
  abbrev pub closing_call : Option (Exec S (Unit {0})) → Exec S (Unit {0})
  closing_call none = reader.close
  closing_call (some callback) = callback

  unfoldable pub close : Exec (ContentStream S) (Unit {0})
  close self =
      let (r, s) = closing_call self.close_callback self.stream in
      if self.closed
      then (ok tt, self)
      else (r, record self { stream = s; closed = true; close_callback = none })

  -- The `finally` of `iter_chunks_closing`: an exception of `close` is raised only where there is
  -- no other one; an abandoned generator has GeneratorExit.
  abbrev pub after_close : Ending → Outcome (Unit {0}) → Ending
  after_close exhausted (raised e) = failed_with e
  after_close ending _ = ending

  unfoldable pub iter_chunks_closing : ℕ → Option ℕ → ContentStream S → Iteration × ContentStream S
  unfolding iter_chunks close
  iter_chunks_closing zero chunk_size self = (stop abandoned, self)
  iter_chunks_closing (suc demand) chunk_size self =
      let (i, self') = iter_chunks (suc demand) chunk_size self in
      let (r, self'') = close self' in (record i { ending = after_close i.ending r }, self'')
