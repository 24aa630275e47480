-- ===== src/Examples/Client.antt =====
-- A MinIO client in memory that meets the laws of the client, and the theorems on the object store
-- run over it.
use dms_core.Prelude.{
  ℕ, Text, codes, starts_with, text_eq, text_eq_iff, true, ◌&&◌, Option, none, some, List, [], ◌∷◌,
  ◌≡◌, refl, arith, any, is_some, length, take, concat, append_nil, Bool-cases, Option-cases, inl,
  inr, if◌then◌else◌,
}
use dms_core.Domain.Errors.{s3_error}
use dms_core.Domain.Exec.{ok, raised, Exec, pure}
use dms_core.Domain.Interfaces.{Bytes}
use dms_core.Infrastructure.Storage.Client.{
  MinioClient, ObjectStat, Response, ClientObject, metadata_value, ClientLaws, ClientPuts,
  ClientStats, ClientGets, ClientReads, ClientRemoves, ClientLists,
}
use dms_core.Examples.Memory.{
  Cells, lookup, lookup-without, lookup-cons_without, view, write, erase, when_up,
}

abbrev pub Store : Type 0
Store = Cells ClientObject

abbrev shown : List (Text × Text) → Text → Option Text
shown metadata name =
    if text_eq name (codes "X-Amz-Meta-Checksum")
    then metadata_value (codes "checksum") metadata
    else none

abbrev stat : Option ClientObject → Exec Store ObjectStat
stat none s = (raised (s3_error (codes "NoSuchKey")), s)
stat (some c) s = (ok (record { size = some (length c.content); metadata = shown c.metadata }), s)

abbrev respond : Option ClientObject → Exec Store Response
respond none s = (raised (s3_error (codes "NoSuchKey")), s)
respond (some c) s =
    (ok (record { stream = c.content; length = none; content_type = some c.content_type }), s)

unfoldable pub names_under : Text → List (Text × ClientObject) → List Text
names_under prefix [] = []
names_under prefix ((k, c) ∷ l) =
    let rest = names_under prefix l in if starts_with k prefix then k ∷ rest else rest

abbrev put_cell : Text → Bytes → ℕ → Text → List (Text × Text) → Exec Store (List Bytes)
put_cell key stream size content_type metadata s = (
  ok (take size stream ∷ []),
  write key
      (record {
        content = concat (take size stream ∷ []);
        content_type = content_type;
        metadata = metadata;
      })
      s,
)

abbrev pub client : MinioClient Store
client = record {
  bucket_exists = when_up (pure true);
  make_bucket = when_up (pure tt);
  put_object = λ key stream size content_type metadata.
      when_up (put_cell key stream size content_type metadata);
  stat_object = λ key. when_up (λ s. stat (view s key) s);
  get_object = λ key. when_up (λ s. respond (view s key) s);
  read_response = λ response. when_up (pure response.stream);
  remove_object = λ key. when_up (λ s. (ok tt, erase key s));
  list_objects = λ prefix. when_up (λ s. (ok (names_under prefix s.entries), s));
  path_name = λ key. key;
}

pub puts :
    (key : Text) (stream : Bytes) (size : ℕ) (content_type : Text) (metadata : List (Text × Text))
    (s : Store)
    → ClientPuts view
        (view s)
        key
        stream
        size
        content_type
        metadata
        (client.put_object key stream size content_type metadata s)
puts key stream size content_type metadata s = elim (Bool-cases s.down) [
  | inl e ↦ rw e (λ j n. refl)
  | inr e ↦ rw e (append_nil (take size stream), lookup-cons_without key _ s.entries)
]

pub stats : (key : Text) (s : Store) → ClientStats view (view s) key (client.stat_object key s)
unfolding text_eq
stats key s = elim (Bool-cases s.down) [
  | inl e ↦ rw e ((λ h. absurd h), refl)
  | inr e ↦ elim (Option-cases (view s key)) [
    | inl f ↦ rw (e, f) ((λ h. f), refl)
    | inr (c, f) ↦ rw (e, f) ((c, f, refl, refl), refl)
  ]
]

pub gets : (key : Text) (s : Store) → ClientGets view (view s) key (client.get_object key s)
gets key s = elim (Bool-cases s.down) [
  | inl e ↦ rw e refl
  | inr e ↦ elim (Option-cases (view s key)) [
    | inl f ↦ rw (e, f) refl
    | inr (c, f) ↦ rw (e, f) ((c, f, refl), refl)
  ]
]

pub reads :
    (response : Response) (s : Store)
    → ClientReads view (view s) response (client.read_response response s)
reads response s = elim (Bool-cases s.down) [ inl e ↦ rw e refl | inr e ↦ rw e (refl, refl) ]

pub removes :
    (key : Text) (s : Store) → ClientRemoves view (view s) key (client.remove_object key s)
removes key s = elim (Bool-cases s.down) [
  | inl e ↦ rw e (λ j n. refl)
  | inr e ↦ rw e (lookup-without key s.entries)
]

names_under-any :
    (prefix : Text) (l : List (Text × ClientObject)) (j : Text)
    → any (text_eq j) (names_under prefix l) ≡ (is_some (lookup l j) && starts_with j prefix)
unfolding names_under lookup
names_under-any prefix [] j = refl
names_under-any prefix ((k, c) ∷ l) j =
    ground (arith, names_under-any prefix l j, text_eq_iff j k, text_eq_iff k j)

pub lists :
    (prefix : Text) (s : Store) → ClientLists view (view s) prefix (client.list_objects prefix s)
lists prefix s = elim (Bool-cases s.down) [
  | inl e ↦ rw e refl
  | inr e ↦ rw e ((λ j. names_under-any prefix s.entries j), refl)
]

unfoldable pub client_laws : ClientLaws client
client_laws = record {
  objects = view;
  puts = puts;
  stats = stats;
  gets = gets;
  reads = reads;
  removes = removes;
  lists = lists;
}
