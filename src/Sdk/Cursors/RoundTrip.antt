-- ===== src/Sdk/Cursors/RoundTrip.antt =====
-- A cursor that was encoded is read back.
use dms_core.Prelude.{
  Text, text_eq, is_blank, is_empty, true, false, Option, none, some, [], ◌∷◌, ◌++◌, length, ltb,
  ◌≡◌, refl, ap, sym, ◌∙◌, arith, ℤ, is_positive,
}
use dms_core.Domain.Interfaces.{Bytes}
use dms_core.Domain.Models.{
  DateTime, DocumentStatus, DocumentPartition, kind_of-kind_value, document_partition_lem,
  status_of-status_value,
}
use dms_core.Sdk.Cursors.{
  nullable, CursorCodec, CursorState, cursor_value, rstrip_equals, padding, status_text,
  encode_cursor, get_field, has_expected_keys, filled, cursor_status, is_version, page_size_of,
  instant_of, read_cursor, decode_cursor, max_cursor_length,
}
use dms_core.Sdk.Cursors.Laws.{CursorCodecLaws}
use dms_core.Sdk.Cursors.Padding.{rstrip_equals-padding}

module _ (codec : CursorCodec) (laws : CursorCodecLaws codec) (t : DateTime) (id : Text)
    (status : Option DocumentStatus) (n : ℤ) (p : DocumentPartition) where
  abbrev pub state_of : CursorState
  state_of = record {
    created_at = t;
    document_id = id;
    status = status_text status;
    page_size = n;
    partition = p;
  }

  cursor_status-status_text :
      (s : Option DocumentStatus)
      → cursor_status (some (nullable (status_text s))) ≡ some (status_text s)
  unfolding cursor_status
  cursor_status-status_text none = refl
  cursor_status-status_text (some s) = rw (status_of-status_value s, cursor_status) refl

  read_cursor-cursor_value :
      is_blank id ≡ false
      → is_positive n ≡ true
      → is_blank p.partition_id ≡ false
      → read_cursor codec (cursor_value codec state_of) ≡ some state_of
  unfolding read_cursor cursor_value get_field text_eq has_expected_keys is_version filled
      page_size_of instant_of
  read_cursor-cursor_value b m q =
      rw
        (
          b,
          cursor_status-status_text status,
          m,
          kind_of-kind_value p.kind,
          q,
          laws.iso t,
          document_partition_lem p q,
        )
        refl

  abbrev payload : Bytes
  payload = codec.dumps (cursor_value codec state_of)

  encode_cursor_parts :
      (c : Text)
      → encode_cursor codec t id status n p ≡ some c
      → (is_blank id ≡ false)
        × (is_positive n ≡ true)
        × (ltb max_cursor_length (length c) ≡ false)
        × (c ≡ rstrip_equals (codec.b64encode payload))
  unfolding encode_cursor
  encode_cursor_parts c h = ground arith

  not_empty : (s : Text) → codec.b64encode payload ≡ s ++ padding s → is_empty s ≡ false
  unfolding padding
  not_empty [] e = absurd (laws.encode_inhabited payload (laws.dumps_inhabited _) e)
  not_empty (c ∷ s) e = refl

  -- Where base64, JSON and the ISO format read what they write, and the partition's identifier is
  -- not blank: a cursor that `encode_cursor` gives is read by `decode_cursor` as the time stamp,
  -- the identifier, the status, the page size and the partition that it was made from.
  pub decode_cursor-encode_cursor :
      (c : Text)
      → is_blank p.partition_id ≡ false
      → encode_cursor codec t id status n p ≡ some c
      → decode_cursor codec c ≡ some state_of
  unfolding decode_cursor
  decode_cursor-encode_cursor c q h =
      let (s, u, e) = laws.padded payload in
      let (b, m, short, made) = encode_cursor_parts c h in
      let same : c ≡ s = made ∙ ap rstrip_equals e ∙ rstrip_equals-padding s u in
      let again : c ++ padding c ≡ codec.b64encode payload =
        ap (λ z. z ++ padding z) same ∙ sym e in
      let filled_text : is_empty c ≡ false = ap is_empty same ∙ not_empty s e in
      rw
        (
          filled_text,
          short,
          again,
          laws.decodes payload,
          laws.loads_dumps state_of,
          read_cursor-cursor_value b m q,
        )
        refl
