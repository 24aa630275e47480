-- ===== src/Sdk/Cursors.antt =====
-- `encode_cursor` and `decode_cursor` of dms/sdk/documents.py. JSON, base64 and the ISO format are
-- a parameter.
pub mod Laws
pub mod Padding
pub mod RoundTrip
use dms_core.Prelude.{
  ℕ, zero, suc, ◌-◌, ◌%◌, Text, text_eq, codes, is_blank, is_empty, Bool, true, false, not, ◌&&◌,
  ◌||◌, ◌==◌, ltb, Option, none, some, List, [], ◌∷◌, ◌++◌, length, reverse, all, any, replicate,
  if◌then◌else◌, ℤ, pos, negsuc, is_positive,
}
use dms_core.Domain.Value.{Value, str, int, null, obj, Fields, end, field}
use dms_core.Domain.Models.{
  DateTime, ReadDateTime, DocumentStatus, DocumentPartition, PartitionKind, document_partition,
  kind_value, kind_of, status_value, status_of,
}
use dms_core.Domain.Interfaces.{Bytes}
use dms_core.Domain.Order.{Position}

-- `base64.urlsafe_b64encode(…).decode()`, `base64.b64decode(…, altchars=b"-_", validate=True)`,
-- `json.dumps(…).encode()`, `json.loads`, `datetime.isoformat` and `datetime.fromisoformat`; none
-- is an exception.
pub record CursorCodec : Type 0 where
  pub b64encode : Bytes → Text
  pub b64decode : Text → Option Bytes
  pub dumps : Value → Bytes
  pub loads : Bytes → Option Value
  pub isoformat : DateTime → Text
  pub fromisoformat : Text → Option ReadDateTime

-- What a cursor says.
pub record CursorState : Type 0 where
  pub created_at : DateTime
  pub document_id : Text
  pub status : Option Text
  pub page_size : ℤ
  pub partition : DocumentPartition

-- `MAX_CURSOR_LENGTH`
abbrev pub max_cursor_length : ℕ
max_cursor_length = 4096

abbrev pub nullable : Option Text → Value
nullable none = null
nullable (some s) = str s

-- the `value` of `encode_cursor`
unfoldable pub cursor_value : CursorCodec → CursorState → Value
cursor_value codec c = obj (
    field (codes "v") (int (pos 4)) (
      field (codes "t") (str (codec.isoformat c.created_at)) (
        field (codes "i") (str c.document_id) (
          field (codes "s") (nullable c.status) (
            field (codes "p") (int c.page_size) (
              field (codes "k") (str (kind_value c.partition.kind))
                (field (codes "q") (str c.partition.partition_id) end)))))))

-- `s.lstrip("=")`, on the reversed text
unfoldable pub lstrip_equals : Text → Text
lstrip_equals [] = []
lstrip_equals (c ∷ s) = let rest = lstrip_equals s in if c == b'=' then rest else c ∷ s

-- `s.rstrip("=")`
unfoldable pub rstrip_equals : Text → Text
rstrip_equals s = reverse (lstrip_equals (reverse s))

-- `"=" * (-len(s) % 4)`
unfoldable pub padding : Text → Text
padding s = replicate ((4 - length s % 4) % 4) b'='

-- `status.value if status is not None else None`
abbrev pub status_text : Option DocumentStatus → Option Text
status_text none = none
status_text (some status) = some (status_value status)

-- none is the ValidationError
unfoldable pub encode_cursor :
    CursorCodec → DateTime → Text → Option DocumentStatus → ℤ → DocumentPartition → Option Text
encode_cursor codec created_at document_id status page_size partition =
    let value : Value = cursor_value codec (record {
      created_at = created_at;
      document_id = document_id;
      status = status_text status;
      page_size = page_size;
      partition = partition;
    }) in
    let encoded : Text = rstrip_equals (codec.b64encode (codec.dumps value)) in
    if is_blank document_id || not (is_positive page_size)
    then none
    else if ltb max_cursor_length (length encoded)
    then none
    else some encoded

-- `value.get(key)`
unfoldable pub get_field : Text → Fields → Option Value
get_field key end = none
get_field key (field k v fields) = if text_eq k key then some v else get_field key fields

abbrev pub keys_of : Fields → List Text
keys_of end = []
keys_of (field k v fields) = k ∷ keys_of fields

abbrev pub expected_keys : List Text
expected_keys =
    codes "v" ∷ codes "t" ∷ codes "i" ∷ codes "s" ∷ codes "p" ∷ codes "k" ∷ codes "q" ∷ []

-- `set(value) == expected_keys`
unfoldable pub has_expected_keys : Fields → Bool
has_expected_keys fields =
    all (λ k. any (text_eq k) expected_keys) (keys_of fields)
    && all (λ k. any (text_eq k) (keys_of fields)) expected_keys

-- A value that is a text, and one that is a text with other characters than blanks.
abbrev pub text_of : Option Value → Option Text
text_of (some (str s)) = some s
text_of _ = none

abbrev pub int_of : Option Value → Option ℤ
int_of (some (int n)) = some n
int_of _ = none

unfoldable pub filled : Option Text → Option Text
filled none = none
filled (some s) = if is_blank s then none else some s

-- `value["s"]`: null, or the value of a status
unfoldable pub cursor_status : Option Value → Option (Option Text)
cursor_status (some null) = some none
cursor_status (some (str s)) = elim (status_of s) [ none ↦ none | some _ ↦ some (some s) ]
cursor_status _ = none

unfoldable pub is_version : Option Value → Bool
is_version (some (int (pos n))) = n == 4
is_version _ = false

unfoldable pub page_size_of : Option ℤ → Option ℤ
page_size_of none = none
page_size_of (some n) = if is_positive n then some n else none

-- a time stamp with a time zone
unfoldable pub instant_of : Option ReadDateTime → Option DateTime
instant_of none = none
instant_of (some t) = if t.aware then some (record { ticks = t.ticks }) else none

module _ {A B : Type 0} where
  infixl 5 ◌>>=◌
  abbrev pub ◌>>=◌ : Option A → (A → Option B) → Option B
  none >>= f = none
  some a >>= f = f a

abbrev pub require : Bool → Option (Unit {0})
require true = some tt
require false = none

-- the tests on the payload, and the parts
unfoldable pub read_cursor : CursorCodec → Value → Option CursorState
read_cursor codec (obj fields) = do
  _ ← require (is_version (get_field (codes "v") fields))
  _ ← require (has_expected_keys fields)
  iso ← text_of (get_field (codes "t") fields)
  document_id ← filled (text_of (get_field (codes "i") fields))
  status ← cursor_status (get_field (codes "s") fields)
  page_size ← page_size_of (int_of (get_field (codes "p") fields))
  kind_text ← text_of (get_field (codes "k") fields)
  kind ← kind_of kind_text
  partition_id ← filled (text_of (get_field (codes "q") fields))
  created_at ← instant_of (codec.fromisoformat iso)
  partition ← document_partition kind partition_id
  some (record {
    created_at = created_at;
    document_id = document_id;
    status = status;
    page_size = page_size;
    partition = partition;
  })
read_cursor codec _ = none

-- none is the ValidationError
unfoldable pub decode_cursor : CursorCodec → Text → Option CursorState
decode_cursor codec cursor =
    if is_empty cursor || ltb max_cursor_length (length cursor)
    then none
    else codec.b64decode (cursor ++ padding cursor) >>= λ payload.
        codec.loads payload >>= λ value. read_cursor codec value
