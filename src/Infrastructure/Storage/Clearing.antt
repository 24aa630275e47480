-- ===== src/Infrastructure/Storage/Clearing.antt =====
-- `_clear_prefix` of `MinioObjectStore`: the loop over the objects under a prefix.
use dms_core.Prelude.{
  ℕ, suc, ◌+◌, Text, starts_with, text_eq, true, false, ◌&&◌, none, List, [], ◌∷◌, ◌≡◌, ◌≢◌, ◌⊎◌,
  refl, sym, ap, ◌∙◌, arith, is_some, any, length, Option-cases, Bool-cases, inl, inr,
}
use dms_core.Domain.Models.{DocumentPartition}
use dms_core.Domain.Errors.{Exc, other_error}
use dms_core.Domain.Exec.{Outcome, ok, raised, Exec, ◌>>=◌}
use dms_core.Domain.Exec.Rules.{bind-ensures}
use dms_core.Domain.Interfaces.{Bytes}
use dms_core.Sdk.Contracts.{partition_storage_segment, partition_storage_prefix}
use dms_core.Sdk.Upload.Keys.{build_storage_key}
use dms_core.Sdk.Upload.Namespace.{build_storage_key_isolated}
use dms_core.Infrastructure.Storage.{
  Removal, remove_each, finish_removal, clear_prefix, clear_partition,
}
use dms_core.Infrastructure.Storage.Attempts.{Attempts, AttemptsTo, remove_each-AttemptsTo}
use dms_core.Infrastructure.Storage.Client.{MinioClient, ClientLaws, ClientLists}
use dms_core.Infrastructure.Storage.Removing.{RemovesEach, remove_each-RemovesEach}
use dms_core.Infrastructure.Storage.Laws.{bucket, seen_object, is_some-seen}

module _ {B : Type 0} (client : MinioClient B) (laws : ClientLaws client) where
  -- The names under a prefix were listed, and `remove_object` was called for each of them, whichever
  -- call raised, so that `n` calls returned and `f` raised.
  abbrev pub GoesThrough : Text → B → ℕ → ℕ → B → Type 0
  GoesThrough prefix b n f s =
      (names : List Text) × (t : B) × (client.list_objects prefix b ≡ (ok names, t))
      × ((j : Text)
          → any (text_eq j) names ≡ (is_some (bucket client laws b j) && starts_with j prefix))
      × (n + f ≡ length names)
      × Attempts client names t n f s

  -- How clearing a prefix ends: returned, nothing is left under it and the count is of the objects
  -- that stood there, each of which was removed; raised, they could not be listed, or all of them
  -- were attempted, some failed, and the exception carries the count of the others; in any case
  -- nothing has changed elsewhere.
  abbrev pub Clears : Text → B → Outcome ℕ × B → Type 0
  Clears prefix b (ok n, s) =
      ((j : Text) → starts_with j prefix ≡ true → bucket client laws s j ≡ none)
      × ((j : Text)
          → starts_with j prefix ≡ false
          → bucket client laws s j ≡ bucket client laws b j)
      × GoesThrough prefix b n 0 s
  Clears prefix b (raised e, s) =
      ((j : Text) → starts_with j prefix ≡ false → bucket client laws s j ≡ bucket client laws b j)
      × (((client.list_objects prefix b ≡ (raised e, s)) × (laws.objects s ≡ laws.objects b))
          ⊎ ((n : ℕ) × (f : ℕ) × (e ≡ other_error n) × GoesThrough prefix b n (suc f) s))

  abbrev after_loop : Removal → Exec B ℕ
  after_loop r = finish_removal client r.removed r.failures

  abbrev no_removal : Removal
  no_removal = record { removed = 0; failures = [] }

  -- What is not listed under the prefix was not there.
  unlisted :
      (prefix : Text) (b t : B) (names : List Text)
      → ClientLists laws.objects (laws.objects b) prefix (ok names, t)
      → (j : Text) → starts_with j prefix ≡ true
      → any (text_eq j) names ≡ false
      → laws.objects t j ≡ none
  unlisted prefix b t names h j st u = elim (Option-cases (laws.objects b j)) [
    | inl e ↦ ap (λ o. o j) h.1 ∙ e
    | inr (c, e) ↦ absurd (ground (arith, h.0 j))
  ]

  elsewhere :
      (prefix : Text) (b t s : B) (names : List Text) (r : Removal)
      → ClientLists laws.objects (laws.objects b) prefix (ok names, t)
      → RemovesEach client laws names no_removal t (ok r, s)
      → (j : Text) → starts_with j prefix ≡ false
      → bucket client laws s j ≡ bucket client laws b j
  elsewhere prefix b t s names r h g j st =
      ap (seen_object client.path_name j) (g.0 j (ground (arith, h.0 j)) ∙ ap (λ o. o j) h.1)

  -- A turn for each name.
  turns :
      (names : List Text) (b s : B) (n f : ℕ) → Attempts client names b n f s → n + f ≡ length names
  turns [] b s n f h = omega arith
  turns (key ∷ names) b s n f (t, inl (r, (k, e, h))) = let g = turns names t s k f h in omega arith
  turns (key ∷ names) b s n f (t, inr (x, r, (k, e, h))) =
      let g = turns names t s n k h in omega arith

  listed :
      (prefix : Text) (b t : B) (names : List Text)
      → ClientLists laws.objects (laws.objects b) prefix (ok names, t)
      → (j : Text)
      → any (text_eq j) names ≡ (is_some (bucket client laws b j) && starts_with j prefix)
  listed prefix b t names h j =
      h.0 j
      ∙ ap (λ x. x && starts_with j prefix) (sym (is_some-seen client.path_name (laws.objects b) j))

  -- The attempts of a loop that began with no removal.
  counted :
      (names : List Text) (t s : B) (n f : ℕ) (failures : List Exc)
      → length failures ≡ f
      → AttemptsTo client names no_removal t (ok (record { removed = n; failures = failures }), s)
      → Attempts client names t n f s
  counted names t s n f failures e (m, g, a, c, d) =
      let i : m ≡ n = omega arith in let j : g ≡ f = omega arith in rw (← i, ← j) a

  after_loop-Clears :
      (prefix : Text) (b t s : B) (names : List Text) (n : ℕ) (failures : List Exc)
      → ClientLists laws.objects (laws.objects b) prefix (ok names, t)
      → client.list_objects prefix b ≡ (ok names, t)
      → RemovesEach client laws names no_removal t
          (ok (record { removed = n; failures = failures }), s)
      → AttemptsTo client names no_removal t (ok (record { removed = n; failures = failures }), s)
      → Clears prefix b (finish_removal client n failures s)
  after_loop-Clears prefix b t s names n [] h l g a = (
    (λ j st. ap (seen_object client.path_name j) (elim (Bool-cases (any (text_eq j) names)) [
      | inl i ↦ g.3 refl j i
      | inr i ↦ g.0 j i ∙ unlisted prefix b t names h j st i
    ])),
    elsewhere prefix b t s names (record { removed = n; failures = [] }) h g,
    (let c = counted names t s n 0 [] refl a in
        (names, t, l, listed prefix b t names h, turns names t s n 0 c, c)),
  )
  after_loop-Clears prefix b t s names n (e ∷ r) h l g a = (
    elsewhere prefix b t s names (record { removed = n; failures = e ∷ r }) h g,
    inr (
      n,
      length r,
      refl,
      (let c = counted names t s n (suc (length r)) (e ∷ r) (omega arith) a in
          (names, t, l, listed prefix b t names h, turns names t s n (suc (length r)) c, c)),
    ),
  )

  after_list-Clears :
      (prefix : Text) (b t : B) (names : List Text)
      → ClientLists laws.objects (laws.objects b) prefix (ok names, t)
      → client.list_objects prefix b ≡ (ok names, t)
      → Clears prefix b ((remove_each client names no_removal >>= after_loop) t)
  after_list-Clears prefix b t names h l =
      bind-ensures
        (λ x. RemovesEach client laws names no_removal t x × AttemptsTo client names no_removal t x)
        (Clears prefix b) (remove_each client names no_removal) after_loop t
        (
          remove_each-RemovesEach client laws names no_removal t,
          remove_each-AttemptsTo client names no_removal t,
        )
        (λ r s g. after_loop-Clears prefix b t s names r.removed r.failures h l g.0 g.1)
        (λ e s g. absurd g.0)

  pub clear_prefix-Clears : (prefix : Text) (b : B) → Clears prefix b (clear_prefix client prefix b)
  unfolding clear_prefix
  clear_prefix-Clears prefix b =
      bind-ensures
        (λ x.
          ClientLists laws.objects (laws.objects b) prefix x × (client.list_objects prefix b ≡ x))
        (Clears prefix b) (client.list_objects prefix)
        (λ names. remove_each client names no_removal >>= after_loop) b (laws.lists prefix b, refl)
        (λ names t h. after_list-Clears prefix b t names h.0 h.1)
        (λ e t h. ((λ j st. ap (λ o. seen_object client.path_name j (o j)) h.0), inl (h.1, h.0)))

  -- What `Clears` says of an object that is not under the prefix, however the call ended.
  spared :
      (prefix : Text) (b : B) (x : Outcome ℕ × B)
      → Clears prefix b x
      → (j : Text) → starts_with j prefix ≡ false
      → bucket client laws x.1 j ≡ bucket client laws b j
  spared prefix b (ok n, s) h = h.1
  spared prefix b (raised e, s) h = h.0

  -- Clearing a partition, over a client that keeps its laws. Once the objects under the prefix of
  -- the partition are listed, `remove_object` is called for each of them in turn, whichever call
  -- raises. It returns if none raises: no object is left under the prefix, and the result is the
  -- number of their names. If it raises, the objects could not be listed and none has changed, or
  -- at least one removal raised and the exception carries the number of those that returned.
  -- Whether it returns or raises, no object elsewhere has changed.
  pub clear_partition-Clears :
      (sha256 : Bytes → Text) (p : DocumentPartition) (b : B)
      → Clears (partition_storage_prefix sha256 p) b (clear_partition client sha256 p b)
  unfolding clear_partition
  clear_partition-Clears sha256 p b = clear_prefix-Clears (partition_storage_prefix sha256 p) b

  -- Clearing a partition, whether it returns or raises, leaves alone the object of every upload to
  -- another partition, over a client that keeps its laws and where SHA-256 gives digests of one
  -- length and does not confuse the identifiers of the two partitions.
  pub clear_partition_spares :
      (sha256 : Bytes → Text) (p q : DocumentPartition) (id filename : Text) (b : B)
      → length (partition_storage_segment sha256 q) ≡ length (partition_storage_segment sha256 p)
      → (partition_storage_segment sha256 q ≡ partition_storage_segment sha256 p
          → q.partition_id ≡ p.partition_id)
      → q ≢ p
      → bucket client laws
          (clear_partition client sha256 p b).1
          (build_storage_key sha256 id filename q)
        ≡ bucket client laws b (build_storage_key sha256 id filename q)
  clear_partition_spares sha256 p q id filename b l injective n =
      spared (partition_storage_prefix sha256 p) b _ (clear_partition-Clears sha256 p b)
        (build_storage_key sha256 id filename q)
        (build_storage_key_isolated sha256 id filename q p l injective n)
