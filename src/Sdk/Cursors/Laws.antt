-- ===== src/Sdk/Cursors/Laws.antt =====
-- What cursors rely on of base64, JSON and the ISO format.
use dms_core.Prelude.{Text, Bool, true, not, [], ◌≢◌, ◌==◌, ◌++◌, all, some, ◌≡◌}
use dms_core.Domain.Value.{Value}
use dms_core.Domain.Models.{DateTime}
use dms_core.Domain.Interfaces.{Bytes}
use dms_core.Sdk.Cursors.{CursorCodec, CursorState, cursor_value, padding}

-- No "=" in a text.
abbrev pub is_unpadded : Text → Bool
is_unpadded s = all (λ c. not (c == b'=')) s

pub record CursorCodecLaws (codec : CursorCodec) : Type 0 where
  -- base64 text is padded with "=" to a length that is a multiple of 4
  pub padded :
      (b : Bytes) → (s : Text) × (is_unpadded s ≡ true) × (codec.b64encode b ≡ s ++ padding s)
  pub decodes : (b : Bytes) → codec.b64decode (codec.b64encode b) ≡ some b
  -- the payload of a cursor is an object of texts and integers with different keys
  pub loads_dumps :
      (c : CursorState)
      → codec.loads (codec.dumps (cursor_value codec c)) ≡ some (cursor_value codec c)
  -- an aware time stamp keeps its instant and is read as aware
  pub iso :
      (t : DateTime)
      → codec.fromisoformat (codec.isoformat t) ≡ some (record { aware = true; ticks = t.ticks })
  -- a JSON text is not empty, and what is not empty is encoded as something
  pub dumps_inhabited : (v : Value) → codec.dumps v ≢ []
  pub encode_inhabited : (b : Bytes) → b ≢ [] → codec.b64encode b ≢ []
