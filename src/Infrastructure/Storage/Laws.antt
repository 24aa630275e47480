-- ===== src/Infrastructure/Storage/Laws.antt =====
-- The calls of `MinioObjectStore`, one by one, over a client that keeps its laws.
use dms_core.Prelude.{
  Text, codes, text_eq, text_eq_iff, Bool, true, false, Option, none, some, [], ◌++◌, ◌≡◌, inl, inr,
  refl, sym, ap, ◌∙◌, fun_ext, arith, put, remove, is_some, drop, take-drop, take_all, length,
  Bool-cases, if◌then◌else◌,
}
use dms_core.Domain.Errors.{Exc, s3_error}
use dms_core.Domain.Exec.{Outcome, ok, raised, pure, raise, ◌>>=◌}
use dms_core.Domain.Exec.Rules.{bind-ensures, catch-ensures, ensures-weaken}
use dms_core.Domain.Interfaces.{PutObjectRequest, PutObjectStreamRequest, StoredObject}
use dms_core.Domain.Laws.{Bucket, OnlyAt, Puts, PutsStream, DeletesObject, TestsObject}
use dms_core.Infrastructure.Storage.{
  is_missing, checksum_entry, put_metadata, in_memory_stream, put_object, put_object_stream,
  delete_object, object_exists,
}
use dms_core.Infrastructure.Storage.Client.{
  MinioClient, ClientObject, metadata_value, Objects, SaysAbsent, ClientLaws, ClientPuts,
  ClientStats, ClientRemoves, Untouched,
}

-- What the services see of an object of the client.
unfoldable pub stored_of : (Text → Text) → Text → ClientObject → StoredObject
unfolding metadata_value
stored_of path_name key c = record {
  document_id = elim (metadata_value (codes "document_id") c.metadata) [ none ↦ [] | some id ↦ id ];
  storage_key = key;
  content = c.content;
  content_type = c.content_type;
  filename = path_name key;
  size = length c.content;
  checksum = metadata_value (codes "checksum") c.metadata;
}

abbrev pub seen_object : (Text → Text) → Text → Option ClientObject → Option StoredObject
seen_object path_name key none = none
seen_object path_name key (some c) = some (stored_of path_name key c)

abbrev pub seen : (Text → Text) → Objects → Bucket
seen path_name o key = seen_object path_name key (o key)

module _ (path_name : Text → Text) where
  pub seen-put :
      (o : Objects) (key : Text) (c : ClientObject)
      → seen path_name (put o key c) ≡ put (seen path_name o) key (stored_of path_name key c)
  seen-put o key c = fun_ext (λ j. ground (arith, text_eq_iff key j))

  pub seen-remove :
      (o : Objects) (key : Text) → seen path_name (remove o key) ≡ remove (seen path_name o) key
  seen-remove o key = fun_ext (λ j. ground arith)

  pub is_some-seen : (o : Objects) (key : Text) → is_some (seen path_name o key) ≡ is_some (o key)
  is_some-seen o key = ground arith

module _ {B : Type 0} (client : MinioClient B) (laws : ClientLaws client) where
  abbrev pub bucket : B → Bucket
  bucket b = seen client.path_name (laws.objects b)

  -- What is put, seen as the services see it.
  put-seen :
      (b s : B) (key : Text) (c : ClientObject)
      → laws.objects s ≡ put (laws.objects b) key c
      → bucket s ≡ put (bucket b) key (stored_of client.path_name key c)
  put-seen b s key c h = ap (seen client.path_name) h ∙ seen-put client.path_name _ key c

  pub Untouched-OnlyAt :
      (b s : B) (key : Text)
      → Untouched laws.objects (laws.objects b) key s
      → OnlyAt bucket (bucket b) key s
  Untouched-OnlyAt b s key h j n = ap (seen_object client.path_name j) (h j n)

  pub same-seen : (b s : B) → laws.objects s ≡ laws.objects b → bucket s ≡ bucket b
  same-seen b s h = ap (seen client.path_name) h

  pub put_object_stream-PutsStream :
      (r : PutObjectStreamRequest) (b : B)
      → PutsStream bucket (bucket b) r (put_object_stream client r b)
  unfolding put_object_stream stored_of
  put_object_stream-PutsStream r b =
      bind-ensures
        (ClientPuts laws.objects (laws.objects b) r.storage_key r.stream r.size r.content_type
          (put_metadata r))
        (PutsStream bucket (bucket b) r)
        (client.put_object r.storage_key r.stream r.size r.content_type (put_metadata r))
        (λ reads. pure (record { storage_key = r.storage_key; reads = reads })) b
        (laws.puts r.storage_key r.stream r.size r.content_type (put_metadata r) b)
        (λ reads s h. (
          refl,
          (
            drop r.size r.stream,
            sym (ap (λ t. t ++ drop r.size r.stream) h.0 ∙ take-drop r.size r.stream),
          ),
          (_, refl, put-seen b s r.storage_key _ h.1),
        ))
        (λ e s h. Untouched-OnlyAt b s r.storage_key h)

  checksum_entry-value :
      (checksum : Option Text)
      → metadata_value (codes "checksum") (checksum_entry checksum) ≡ checksum
  unfolding metadata_value text_eq
  checksum_entry-value none = refl
  checksum_entry-value (some checksum) = refl

  checksum_put :
      (r : PutObjectStreamRequest) → metadata_value (codes "checksum") (put_metadata r) ≡ r.checksum
  unfolding metadata_value put_metadata text_eq
  checksum_put r = checksum_entry-value r.checksum

  pub put_object-Puts :
      (r : PutObjectRequest) (b : B) → Puts bucket (bucket b) r (put_object client r b)
  unfolding put_object put_object_stream in_memory_stream stored_of
  put_object-Puts r b =
      bind-ensures
        (ClientPuts laws.objects (laws.objects b) r.storage_key r.content (length r.content)
          r.content_type (put_metadata (in_memory_stream r)))
        (λ x. Puts bucket (bucket b) r (((λ (_ : B). x) >>= λ put. pure put.storage_key) b))
        (client.put_object r.storage_key r.content (length r.content) r.content_type
          (put_metadata (in_memory_stream r)))
        (λ reads. pure (record { storage_key = r.storage_key; reads = reads })) b
        (laws.puts r.storage_key r.content (length r.content) r.content_type
          (put_metadata (in_memory_stream r)) b)
        (λ reads s h. (
          refl,
          (
            _,
            h.0 ∙ take_all (length r.content) r.content (omega arith),
            checksum_put (in_memory_stream r),
            put-seen b s r.storage_key _ h.1,
          ),
        ))
        (λ e s h. Untouched-OnlyAt b s r.storage_key h)

  pub delete_object-DeletesObject :
      (id key : Text) (b : B) → DeletesObject bucket (bucket b) key (delete_object client id key b)
  unfolding delete_object
  delete_object-DeletesObject id key b =
      ensures-weaken (ClientRemoves laws.objects (laws.objects b) key)
        (DeletesObject bucket (bucket b) key) (client.remove_object key b) (laws.removes key b)
        (λ _ s h. ap (seen client.path_name) h ∙ seen-remove client.path_name _ key)
        (λ e s h. Untouched-OnlyAt b s key h)

  says_absent : (code : Text) → is_missing (s3_error code) ≡ true → SaysAbsent (s3_error code)
  unfolding is_missing
  says_absent code h = ground (
    arith,
    text_eq_iff code (codes "NoSuchBucket"),
    text_eq_iff code (codes "NoSuchKey"),
    text_eq_iff code (codes "NoSuchObject"),
    text_eq_iff code (codes "ResourceNotFound"),
  )

  missing-none :
      (key : Text) (b s : B) (e : Exc)
      → ClientStats laws.objects (laws.objects b) key (raised e, s)
      → is_missing e ≡ true
      → laws.objects b key ≡ none
  unfolding is_missing
  missing-none key b s (s3_error code) h g = h.0 (says_absent code g)
  missing-none key b s e h g = cc

  not_there :
      (key : Text) (b s : B) (e : Exc)
      → ClientStats laws.objects (laws.objects b) key (raised e, s)
      → TestsObject bucket (bucket b) key ((if is_missing e then pure false else raise e) s)
  not_there key b s e h = elim (Bool-cases (is_missing e)) [
    | inl m ↦ rw m (
      ap (λ o. is_some (seen_object client.path_name key o)) (sym (missing-none key b s e h m)),
      same-seen b s h.1,
    )
    | inr m ↦ rw m (same-seen b s h.1)
  ]

  -- A stat that returned, its result left out.
  abbrev Exists : Text → B → Outcome Bool × B → Type 0
  Exists key b (ok t, s) = TestsObject bucket (bucket b) key (ok t, s)
  Exists key b (raised e, s) = ClientStats laws.objects (laws.objects b) key (raised e, s)

  stat-Exists : (key : Text) (b : B) → Exists key b ((client.stat_object key >>= λ _. pure true) b)
  stat-Exists key b =
      bind-ensures (ClientStats laws.objects (laws.objects b) key) (Exists key b)
        (client.stat_object key) (λ _. pure true) b (laws.stats key b)
        (λ stat s h.
          (ap (λ o. is_some (seen_object client.path_name key o)) (sym h.0.1), same-seen b s h.1))
        (λ e s h. h)

  pub object_exists-TestsObject :
      (id key : Text) (b : B) → TestsObject bucket (bucket b) key (object_exists client id key b)
  unfolding object_exists
  object_exists-TestsObject id key b =
      catch-ensures (Exists key b) (TestsObject bucket (bucket b) key)
        (client.stat_object key >>= λ _. pure true)
        (λ exc. if is_missing exc then pure false else raise exc) b (stat-Exists key b) (λ t s h. h)
        (λ e s h. not_there key b s e h)
