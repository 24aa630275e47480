-- ===== src/Infrastructure/Storage/Reading.antt =====
-- `get_object` and `get_object_stream` of `MinioObjectStore`: three calls of the client in turn.
use dms_core.Prelude.{first_text, ℕ, Text, codes, Option, none, some, length, ◌≡◌, sym, ap, ◌∙◌}
use dms_core.Domain.Exec.{ok, Exec, pure, ◌>>=◌}
use dms_core.Domain.Exec.Rules.{bind-ensures}
use dms_core.Domain.Interfaces.{Bytes, StoredObject, StoredObjectStream}
use dms_core.Domain.Laws.{GetsObject, GetsStream}
use dms_core.Infrastructure.Storage.{
  ObjectAttributes, first_given, or_else, object_attributes, opened, get_object, get_object_stream,
}
use dms_core.Infrastructure.Storage.Client.{
  MinioClient, ObjectStat, Response, ClientObject, metadata_value, ClientLaws, ClientStats,
  ClientGets, ClientReads,
}
use dms_core.Infrastructure.Storage.Laws.{stored_of, seen_object, bucket, same-seen}

module _ {B : Type 0} (client : MinioClient B) (laws : ClientLaws client) (id key : Text) where
  -- What is known once the object was looked up: the object, and its checksum in the result.
  abbrev Known : B → ObjectStat → Response → Type 0
  Known b stat response =
      (c : ClientObject) × (laws.objects b key ≡ some c)
      × ((object_attributes client stat response key).checksum
          ≡ metadata_value (codes "checksum") c.metadata)
      × (response.stream ≡ c.content)

  known :
      (b s : B) (stat : ObjectStat) (response : Response) (u : B)
      → ClientStats laws.objects (laws.objects b) key (ok stat, s)
      → ClientGets laws.objects (laws.objects s) key (ok response, u)
      → Known b stat response
  unfolding object_attributes
  known b s stat response u h g =
      let (c, ec, e1, e2) = h.0 in
      let (d, ed, es) = g.0 in
      let e : laws.objects b key ≡ some d = ap (λ o. o key) (sym h.1) ∙ ed in
      let same : c ≡ d = cc in
      (
        d,
        e,
        ap (λ x. first_text x (stat.metadata (codes "X-Amz-Meta-Checksum"))) e1
            ∙ e2
            ∙ ap (λ o. metadata_value (codes "checksum") o.metadata) same,
        es,
      )

  abbrev after_read : ObjectStat → Response → Bytes → Exec B StoredObject
  after_read stat response content =
      let attributes : ObjectAttributes = object_attributes client stat response key in
      pure (record {
        document_id = id;
        storage_key = key;
        content = content;
        content_type = attributes.content_type;
        filename = attributes.filename;
        size = or_else stat.size (length content);
        checksum = attributes.checksum;
      })

  abbrev after_get : ObjectStat → Response → Exec B StoredObject
  after_get stat response = client.read_response response >>= after_read stat response

  abbrev after_stat : ObjectStat → Exec B StoredObject
  after_stat stat = client.get_object key >>= after_get stat

  after_get-GetsObject :
      (b u : B) (stat : ObjectStat) (response : Response)
      → Known b stat response
      → laws.objects u ≡ laws.objects b
      → GetsObject (bucket client laws) (bucket client laws b) key (after_get stat response u)
  unfolding stored_of
  after_get-GetsObject b u stat response (c, ec, es, er) same =
      bind-ensures (ClientReads laws.objects (laws.objects u) response)
        (GetsObject (bucket client laws) (bucket client laws b) key) (client.read_response response)
        (after_read stat response) u (laws.reads response u)
        (λ content v h. (
          (_, ap (seen_object client.path_name key) ec, h.0 ∙ er, es),
          same-seen client laws b v (h.1 ∙ same),
        ))
        (λ e v h. same-seen client laws b v (h ∙ same))

  after_stat-GetsObject :
      (b s : B) (stat : ObjectStat)
      → ClientStats laws.objects (laws.objects b) key (ok stat, s)
      → GetsObject (bucket client laws) (bucket client laws b) key (after_stat stat s)
  after_stat-GetsObject b s stat h =
      bind-ensures (ClientGets laws.objects (laws.objects s) key)
        (GetsObject (bucket client laws) (bucket client laws b) key) (client.get_object key)
        (after_get stat) s (laws.gets key s)
        (λ response u g.
          after_get-GetsObject b u stat response (known b s stat response u h g) (g.1 ∙ h.1))
        (λ e u g. same-seen client laws b u (g ∙ h.1))

  pub get_object-GetsObject :
      (b : B)
      → GetsObject (bucket client laws) (bucket client laws b) key (get_object client id key b)
  unfolding get_object
  get_object-GetsObject b =
      bind-ensures (ClientStats laws.objects (laws.objects b) key)
        (GetsObject (bucket client laws) (bucket client laws b) key) (client.stat_object key)
        after_stat b (laws.stats key b) (λ stat s h. after_stat-GetsObject b s stat h)
        (λ e s h. same-seen client laws b s h.1)

  opened-GetsStream :
      (b u : B) (stat : ObjectStat) (response : Response) (size : Option ℕ)
      → Known b stat response
      → laws.objects u ≡ laws.objects b
      → GetsStream
          (bucket client laws)
          (bucket client laws b)
          key
          (opened client id key stat response size u)
  unfolding stored_of
  opened-GetsStream b u stat response none k same = same-seen client laws b u same
  opened-GetsStream b u stat response (some size) (c, ec, es, er) same =
      ((_, ap (seen_object client.path_name key) ec, er, es), same-seen client laws b u same)

  abbrev open_response : ObjectStat → Response → Exec B StoredObjectStream
  open_response stat response =
      opened client id key stat response (first_given stat.size response.length)

  abbrev open_after_stat : ObjectStat → Exec B StoredObjectStream
  open_after_stat stat = client.get_object key >>= open_response stat

  open_after_stat-GetsStream :
      (b s : B) (stat : ObjectStat)
      → ClientStats laws.objects (laws.objects b) key (ok stat, s)
      → GetsStream (bucket client laws) (bucket client laws b) key (open_after_stat stat s)
  open_after_stat-GetsStream b s stat h =
      bind-ensures (ClientGets laws.objects (laws.objects s) key)
        (GetsStream (bucket client laws) (bucket client laws b) key) (client.get_object key)
        (open_response stat) s (laws.gets key s)
        (λ response u g.
          opened-GetsStream b u stat response _ (known b s stat response u h g) (g.1 ∙ h.1))
        (λ e u g. same-seen client laws b u (g ∙ h.1))

  pub get_object_stream-GetsStream :
      (b : B)
      → GetsStream
          (bucket client laws)
          (bucket client laws b)
          key
          (get_object_stream client id key b)
  unfolding get_object_stream
  get_object_stream-GetsStream b =
      bind-ensures (ClientStats laws.objects (laws.objects b) key)
        (GetsStream (bucket client laws) (bucket client laws b) key) (client.stat_object key)
        open_after_stat b (laws.stats key b) (λ stat s h. open_after_stat-GetsStream b s stat h)
        (λ e s h. same-seen client laws b s h.1)
