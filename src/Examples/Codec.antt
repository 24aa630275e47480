-- ===== src/Examples/Codec.antt =====
-- A codec of cursors that meets the laws: texts behind their lengths, shifted above "=".
use dms_core.Prelude.{
  ℕ, zero, suc, ◌+◌, ◌-◌, Text, true, Option, none, some, List, [], ◌∷◌, ◌++◌, length, take, drop,
  map, ◌≡◌, ◌≢◌, refl, ap, ◌∙◌, arith, pos, negsuc,
}
use dms_core.Domain.Value.{Value, str, int, null, obj, Fields, end, field}
use dms_core.Domain.Models.{ReadDateTime}
use dms_core.Domain.Interfaces.{Bytes}
use dms_core.Sdk.Cursors.{CursorCodec, CursorState, nullable, cursor_value, rstrip_equals, padding}
use dms_core.Sdk.Cursors.Laws.{is_unpadded, CursorCodecLaws}
use dms_core.Sdk.Cursors.Padding.{rstrip_equals-padding}

abbrev pub put_text : Text → List ℕ → List ℕ
put_text s rest = length s ∷ (s ++ rest)

abbrev head_text : List ℕ → Text
head_text [] = []
head_text (n ∷ r) = take n r

abbrev tail_text : List ℕ → List ℕ
tail_text [] = []
tail_text (n ∷ r) = drop n r

take-length : (s r : Text) → take (length s) (s ++ r) ≡ s
take-length [] r = refl
take-length (c ∷ s) r = ap (λ t. c ∷ t) (take-length s r)

drop-length : (s r : Text) → drop (length s) (s ++ r) ≡ r
drop-length [] r = refl
drop-length (c ∷ s) r = drop-length s r

abbrev pub put_value : Value → List ℕ → List ℕ
put_value (str s) rest = 1 ∷ put_text s rest
put_value (int (pos n)) rest = 2 ∷ n ∷ rest
put_value (int (negsuc n)) rest = 3 ∷ n ∷ rest
put_value _ rest = 0 ∷ rest

abbrev head_value : List ℕ → Value
head_value (suc zero ∷ r) = str (head_text r)
head_value (suc (suc zero) ∷ n ∷ r) = int (pos n)
head_value (suc (suc (suc zero)) ∷ n ∷ r) = int (negsuc n)
head_value _ = null

abbrev tail_value : List ℕ → List ℕ
tail_value (zero ∷ r) = r
tail_value (suc zero ∷ r) = tail_text r
tail_value (suc (suc zero) ∷ n ∷ r) = r
tail_value (suc (suc (suc zero)) ∷ n ∷ r) = r
tail_value _ = []

unfoldable pub put_fields : Fields → List ℕ
put_fields end = []
put_fields (field k v fields) = put_text k (put_value v (put_fields fields))

pub read_fields : ℕ → List ℕ → Fields
read_fields zero l = end
read_fields (suc n) l =
    field (head_text l) (head_value (tail_text l)) (read_fields n (tail_value (tail_text l)))

abbrev dump : Value → Bytes
dump (obj fields) = 1 ∷ put_fields fields
dump _ = 0 ∷ []

abbrev load : Bytes → Option Value
load [] = none
load (_ ∷ l) = some (obj (read_fields 7 l))

abbrev encode : Bytes → Text
encode b = let s : Text = map (λ n. n + 62) b in s ++ padding s

abbrev decode : Text → Option Bytes
decode t = some (map (λ n. n - 62) (rstrip_equals t))

abbrev read_iso : Text → Option ReadDateTime
read_iso [] = none
read_iso (n ∷ _) = some (record { aware = true; ticks = n })

abbrev pub codec : CursorCodec
codec = record {
  b64encode = encode;
  b64decode = decode;
  dumps = dump;
  loads = load;
  isoformat = λ t. t.ticks ∷ [];
  fromisoformat = read_iso;
}

shifted : (b : Bytes) → is_unpadded (map (λ n. n + 62) b) ≡ true
shifted [] = refl
shifted (c ∷ b) = ground (arith, shifted b)

unshifted : (b : Bytes) → map (λ n. n - 62) (map (λ n. n + 62) b) ≡ b
unshifted [] = refl
unshifted (c ∷ b) = ground (arith, unshifted b)

abbrev Simple : Value → Type 0
Simple (str s) = Unit
Simple (int n) = Unit
Simple null = Unit
Simple _ = ⊥

abbrev AllSimple : Fields → Type 0
AllSimple end = Unit
AllSimple (field k v fields) = Simple v × AllSimple fields

abbrev count_fields : Fields → ℕ
count_fields end = 0
count_fields (field k v fields) = suc (count_fields fields)

value_back :
    (v : Value) (r : List ℕ)
    → Simple v
    → (head_value (put_value v r) ≡ v) × (tail_value (put_value v r) ≡ r)
value_back (str s) r h = (ap str (take-length s r), drop-length s r)
value_back (int (pos n)) r h = (refl, refl)
value_back (int (negsuc n)) r h = (refl, refl)
value_back null r h = (refl, refl)
value_back v r h = absurd h

fields_back :
    (fields : Fields)
    → AllSimple fields
    → read_fields (count_fields fields) (put_fields fields) ≡ fields
unfolding read_fields put_fields
fields_back end h = refl
fields_back (field k v fields) h =
    let (head, tail) = value_back v (put_fields fields) h.0 in
    rw
      (
        take-length k (put_value v (put_fields fields)),
        drop-length k (put_value v (put_fields fields)),
        head,
        tail,
        fields_back fields h.1,
      )
      refl

nullable-Simple : (s : Option Text) → Simple (nullable s)
nullable-Simple none = tt
nullable-Simple (some s) = tt

pub loads_dumps :
    (c : CursorState) → load (dump (cursor_value codec c)) ≡ some (cursor_value codec c)
unfolding cursor_value
loads_dumps c =
    ap (λ f. some (obj f))
      (fields_back _ (tt, (tt, (tt, (nullable-Simple c.status, (tt, (tt, (tt, tt))))))))

pub encode_inhabited : (b : Bytes) → b ≢ [] → encode b ≢ []
encode_inhabited [] n = absurd (n refl)
encode_inhabited (c ∷ b) n = λ e. cc

pub dumps_inhabited : (v : Value) → dump v ≢ []
dumps_inhabited (obj fields) = λ e. cc
dumps_inhabited _ = λ e. cc

unfoldable pub codec_laws : CursorCodecLaws codec
unfolding shifted unshifted
codec_laws = record {
  padded = λ b. (map (λ n. n + 62) b, shifted b, refl);
  decodes = λ b. ap some (
      ap (map (λ n. n - 62)) (rstrip_equals-padding (map (λ n. n + 62) b) (shifted b))
      ∙ unshifted b);
  loads_dumps = loads_dumps;
  iso = λ t. refl;
  dumps_inhabited = dumps_inhabited;
  encode_inhabited = encode_inhabited;
}
