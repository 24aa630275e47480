-- ===== src/Sdk/Upload/Namespace.antt =====
-- Storage keys and the namespaces of partitions and documents.
use dms_core.Prelude.{
  ℕ, Text, codes, starts_with, starts_with-append, replace_char, replace_dots, strip, Bool, true,
  false, not, ◌&&◌, [], ◌∷◌, ◌++◌, ◌==◌, all, length, ◌≡◌, ◌≢◌, refl, arith,
}
use mathlib.Core.List.{append_assoc}
use dms_core.Domain.Models.{PartitionKind, DocumentPartition, kind_value}
use dms_core.Domain.Interfaces.{Bytes}
use dms_core.Sdk.Contracts.{partition_storage_segment, partition_storage_prefix}
use dms_core.Sdk.Upload.Keys.{sanitize_filename, document_prefix, build_storage_key}

-- A character that does not separate path segments.
abbrev pub is_plain : ℕ → Bool
is_plain c = not (c == b'/') && not (c == b'\\')

abbrev is_not : ℕ → ℕ → Bool
is_not a c = not (c == a)

replace_char-clears : (a b : ℕ) (s : Text) → a ≢ b → all (is_not a) (replace_char a b s) ≡ true
unfolding replace_char
replace_char-clears a b [] n = refl
replace_char-clears a b (c ∷ s) n = ground (arith, replace_char-clears a b s n)

replace_char-keeps :
    (a b d : ℕ) (s : Text)
    → d ≢ b
    → all (is_not d) s ≡ true
    → all (is_not d) (replace_char a b s) ≡ true
unfolding replace_char
replace_char-keeps a b d [] n h = refl
replace_char-keeps a b d (c ∷ s) n h = ground (arith, replace_char-keeps a b d s n)

all-is_plain :
    (s : Text) → all (is_not b'/') s ≡ true → all (is_not b'\\') s ≡ true → all is_plain s ≡ true
all-is_plain [] h g = refl
all-is_plain (c ∷ s) h g = ground (arith, all-is_plain s)

-- A sanitised filename has no slash and no backslash, so it is one segment of the storage key.
pub sanitize_filename_plain : (filename : Text) → all is_plain (sanitize_filename filename) ≡ true
unfolding sanitize_filename
sanitize_filename_plain filename =
    let dotless : Text = replace_dots (strip filename) in
    let slashless : Text = replace_char b'/' b'-' dotless in
    all-is_plain (replace_char b'\\' b'-' slashless)
      (replace_char-keeps b'\\' b'-' b'/' slashless (omega arith)
        (replace_char-clears b'/' b'-' dotless (omega arith)))
      (replace_char-clears b'\\' b'-' slashless (omega arith))

-- The key of an upload lies in the namespace of its document.
pub build_storage_key_owned :
    (sha256 : Bytes → Text) (id filename : Text) (p : DocumentPartition)
    → starts_with (build_storage_key sha256 id filename p) (document_prefix sha256 p id) ≡ true
unfolding build_storage_key
build_storage_key_owned sha256 id filename p =
    starts_with-append (document_prefix sha256 p id) (sanitize_filename filename)

-- Two texts of one length: a text that starts with one does not start with the other.
starts_with_other :
    (s t u v : Text) → length s ≡ length t → s ≢ t → starts_with (s ++ u) (t ++ v) ≡ false
unfolding starts_with
starts_with_other [] [] u v l n = absurd (n refl)
starts_with_other [] (b ∷ t) u v l n = absurd (omega arith)
starts_with_other (a ∷ s) [] u v l n = absurd (omega arith)
starts_with_other (a ∷ s) (b ∷ t) u v l n = ground (arith, starts_with_other s t u v)

partition_path :
    (p q : DocumentPartition) → p.kind ≡ q.kind → p.partition_id ≡ q.partition_id → p ≡ q
partition_path p q k i = ground arith

-- The digests stand at one place of the prefixes, behind the kinds.
kinds_apart :
    (j k : PartitionKind) (s t u v : Text)
    → length s ≡ length t
    → (j ≡ k → s ≢ t)
    → starts_with
        (codes "documents/partitions/" ++ (kind_value j ++ (codes "/" ++ (s ++ u))))
        (codes "documents/partitions/" ++ (kind_value k ++ (codes "/" ++ (t ++ v))))
      ≡ false
unfolding starts_with
kinds_apart PartitionKind.personal PartitionKind.personal s t u v l n =
    starts_with_other s t u v l (n refl)
kinds_apart PartitionKind.personal PartitionKind.group s t u v l n = refl
kinds_apart PartitionKind.group PartitionKind.personal s t u v l n = refl
kinds_apart PartitionKind.group PartitionKind.group s t u v l n =
    starts_with_other s t u v l (n refl)

-- Where SHA-256 gives digests of one length and does not confuse the identifiers of two different
-- partitions, no storage key of the one starts with the prefix of the other, so that what clears
-- the one by its prefix never reaches an object of the other.
pub build_storage_key_isolated :
    (sha256 : Bytes → Text) (id filename : Text) (p q : DocumentPartition)
    → length (partition_storage_segment sha256 p) ≡ length (partition_storage_segment sha256 q)
    → (partition_storage_segment sha256 p ≡ partition_storage_segment sha256 q
        → p.partition_id ≡ q.partition_id)
    → p ≢ q
    → starts_with (build_storage_key sha256 id filename p) (partition_storage_prefix sha256 q)
      ≡ false
unfolding build_storage_key document_prefix partition_storage_prefix
build_storage_key_isolated sha256 id filename p q l injective n = simp append_assoc (
    kinds_apart p.kind q.kind (partition_storage_segment sha256 p)
      (partition_storage_segment sha256 q) _ _ l (λ k e. n (partition_path p q k (injective e))))
