-- ===== src/Infrastructure/Storage/Client.antt =====
-- The MinIO client that dms/infrastructure/storage/minio.py calls, for one bucket, and what the
-- store relies on of it.
use dms_core.Prelude.{
  ℕ, Text, codes, text_eq, starts_with, Bool, Option, none, some, List, [], ◌∷◌, ◌&&◌, ◌≡◌, ◌≢◌,
  ◌⊎◌, View, put, remove, is_some, any, take, concat, if◌then◌else◌,
}
use dms_core.Domain.Errors.{Exc, s3_error}
use dms_core.Domain.Exec.{Outcome, ok, raised, Exec}
use dms_core.Domain.Interfaces.{Bytes}

-- What `stat_object` returns: the size, where it has one, and `metadata.get`.
pub record ObjectStat : Type 0 where
  pub size : Option ℕ
  pub metadata : Text → Option Text

-- What `get_object` returns: what can be read from it, its `length`, and its Content-Type.
pub record Response : Type 0 where
  pub stream : Bytes
  pub length : Option ℕ
  pub content_type : Option Text

pub record MinioClient (B : Type 0) : Type 0 where
  pub bucket_exists : Exec B Bool
  pub make_bucket : Exec B (Unit {0})
  -- The object's name, a stream, its size, the content type and the metadata; what each `read` of
  -- the stream gave is told.
  pub put_object : Text → Bytes → ℕ → Text → List (Text × Text) → Exec B (List Bytes)
  pub stat_object : Text → Exec B ObjectStat
  pub get_object : Text → Exec B Response
  -- `response.data`, or `response.read()`
  pub read_response : Response → Exec B Bytes
  pub remove_object : Text → Exec B (Unit {0})
  -- The names under a prefix, all read.
  pub list_objects : Text → Exec B (List Text)
  -- `Path(key).name`
  pub path_name : Text → Text

-- An object of the bucket, with the metadata that was put with it.
pub record ClientObject : Type 0 where
  pub content : Bytes
  pub content_type : Text
  pub metadata : List (Text × Text)

unfoldable pub metadata_value : Text → List (Text × Text) → Option Text
metadata_value name [] = none
metadata_value name ((n, v) ∷ l) = if text_eq n name then some v else metadata_value name l

abbrev pub Objects : Type 0
Objects = View ClientObject

-- The error codes of the S3 protocol for an object that is not there.
abbrev pub SaysAbsent : Exc → Type 0
SaysAbsent (s3_error code) =
    (code ≡ codes "NoSuchBucket")
    ⊎ ((code ≡ codes "NoSuchKey")
        ⊎ ((code ≡ codes "NoSuchObject") ⊎ (code ≡ codes "ResourceNotFound")))
SaysAbsent _ = ⊥

-- How the calls of the client may end, from the objects `o`.
module _ {B : Type 0} (objects : B → Objects) (o : Objects) where
  abbrev pub Untouched : Text → B → Type 0
  Untouched key s = (j : Text) → key ≢ j → objects s j ≡ o j

  -- As much of the stream is read and put as the size says, or less where it ends before.
  abbrev pub ClientPuts :
      Text → Bytes → ℕ → Text → List (Text × Text) → Outcome (List Bytes) × B → Type 0
  ClientPuts key stream size content_type metadata (ok reads, s) =
      (concat reads ≡ take size stream)
      × (objects s
          ≡ put o key
              (record { content = concat reads; content_type = content_type; metadata = metadata }))
  ClientPuts key stream size content_type metadata (raised e, s) = Untouched key s

  -- User metadata is shown under the name of its header.
  abbrev pub ClientStats : Text → Outcome ObjectStat × B → Type 0
  ClientStats key (ok stat, s) =
      ((c : ClientObject) × (o key ≡ some c)
        × (stat.metadata (codes "checksum") ≡ none)
        × (stat.metadata (codes "X-Amz-Meta-Checksum")
            ≡ metadata_value (codes "checksum") c.metadata))
      × (objects s ≡ o)
  ClientStats key (raised e, s) = (SaysAbsent e → o key ≡ none) × (objects s ≡ o)

  abbrev pub ClientGets : Text → Outcome Response × B → Type 0
  ClientGets key (ok response, s) =
      ((c : ClientObject) × (o key ≡ some c) × (response.stream ≡ c.content)) × (objects s ≡ o)
  ClientGets key (raised e, s) = objects s ≡ o

  abbrev pub ClientReads : Response → Outcome Bytes × B → Type 0
  ClientReads response (ok content, s) = (content ≡ response.stream) × (objects s ≡ o)
  ClientReads response (raised e, s) = objects s ≡ o

  abbrev pub ClientRemoves : Text → Outcome (Unit {0}) × B → Type 0
  ClientRemoves key (ok _, s) = objects s ≡ remove o key
  ClientRemoves key (raised e, s) = Untouched key s

  abbrev pub ClientLists : Text → Outcome (List Text) × B → Type 0
  ClientLists prefix (ok names, s) =
      ((j : Text) → any (text_eq j) names ≡ (is_some (o j) && starts_with j prefix))
      × (objects s ≡ o)
  ClientLists prefix (raised e, s) = objects s ≡ o

pub record ClientLaws {B : Type 0} (client : MinioClient B) : Type 0 where
  pub objects : B → Objects
  pub puts :
      (key : Text) (stream : Bytes) (size : ℕ) (content_type : Text) (metadata : List (Text × Text))
      (b : B)
      → ClientPuts objects
          (objects b)
          key
          stream
          size
          content_type
          metadata
          (client.put_object key stream size content_type metadata b)
  pub stats : (key : Text) (b : B) → ClientStats objects (objects b) key (client.stat_object key b)
  pub gets : (key : Text) (b : B) → ClientGets objects (objects b) key (client.get_object key b)
  pub reads :
      (response : Response) (b : B)
      → ClientReads objects (objects b) response (client.read_response response b)
  pub removes :
      (key : Text) (b : B) → ClientRemoves objects (objects b) key (client.remove_object key b)
  pub lists :
      (prefix : Text) (b : B)
      → ClientLists objects (objects b) prefix (client.list_objects prefix b)
