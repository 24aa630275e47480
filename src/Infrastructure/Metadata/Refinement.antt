-- ===== src/Infrastructure/Metadata/Refinement.antt =====
-- The store keeps what the services rely on of a metadata store.
use dms_core.Prelude.{
  Text, text_eq, text_eq_iff, true, false, not, ◌&&◌, Option, none, some, is_some, List, [], ◌∷◌,
  put, ◌≡◌, ◌≢◌, refl, ap, sym, ◌∙◌, arith, if◌then◌else◌, Bool-cases, Option-cases, inl, inr,
}
use dms_core.Domain.Models.{DocumentMetadata, DocumentPartition, partition_eq}
use dms_core.Domain.Errors.{
  Exc, is_lookup_error, is_conflict_error, is_integrity_error, lookup_error,
  metadata_conflict_error,
}
use dms_core.Domain.Exec.{Outcome, ok, raised, Exec, pure, raise, catch, raise_if, ◌>>=◌, ◌>>◌}
use dms_core.Domain.Laws.{Table, found, Saves, Updates, Gets}
use dms_core.Infrastructure.Operations.{transaction}
use dms_core.Infrastructure.Metadata.{
  Row, Sessions, from_domain, to_domain, one_document, domain_of, read_found, get_metadata,
  save_metadata, update_metadata,
}
use dms_core.Infrastructure.Metadata.Laws.{
  SessionsLaws, Scalar, Adds, Merges, by_id, selects, holds, read_back,
}
use dms_core.Infrastructure.Metadata.Columns.{to_domain-only}
use dms_core.Infrastructure.Metadata.Selecting.{selects-in_partition}

-- A transaction that raises has left everything as it was.
pub transaction-ensures :
    {D A : Type 0} (P Q : Outcome A × D → Type 0) (m : Exec D A) (d : D)
    → P (m d)
    → ((a : A) (t : D) → P (ok a, t) → Q (ok a, t))
    → ((e : Exc) (t : D) → P (raised e, t) → Q (raised e, d))
    → Q (transaction m d)
transaction-ensures {D = D} {A = A} P Q m d p returns raises = go (m d).0 (m d).1 p
  where
    go : (r : Outcome A) (t : D) → P (r, t) → Q (transaction (λ (_ : D). (r, t)) d)
    go (ok a) t p = returns a t p
    go (raised e) t p = raises e t p

module _ {D : Type 0} (sessions : Sessions D) (laws : SessionsLaws sessions) where
  abbrev pub table : D → Table
  table d = by_id (laws.documents d)

  one_document_selects :
      (id : Text) (p : DocumentPartition) (m : DocumentMetadata)
      → selects laws.before (one_document id p).conditions m
        ≡ text_eq m.document_id id && partition_eq m.partition p
  unfolding selects holds from_domain
  one_document_selects id p m =
      ap (λ b. text_eq m.document_id id && b) (selects-in_partition laws.before p m)

  -- What a `scalar` for one document finds.
  abbrev pub Finds : Text → DocumentPartition → D → Outcome (Option Row) × D → Type 0
  Finds id p d (ok none, d') = (found (table d) id p ≡ none) × (table d' ≡ table d)
  Finds id p d (ok (some r), d') =
      (m : DocumentMetadata) × (r ≡ read_back laws.aware (from_domain m))
      × (found (table d) id p ≡ some m)
      × (m.document_id ≡ id)
      × (table d' ≡ table d)
  Finds id p d (raised e, d') = (is_lookup_error e ≡ false) × (table d' ≡ table d)

  pub by_id_keyed :
      (l : List DocumentMetadata) (id : Text) (m : DocumentMetadata)
      → by_id l id ≡ some m
      → m.document_id ≡ id
  unfolding by_id
  by_id_keyed [] id m h = cc
  by_id_keyed (n ∷ l) id m h = ground (arith, by_id_keyed l id m, text_eq_iff n.document_id id)

  none_selected :
      (id : Text) (p : DocumentPartition) (d : D)
      → ((j : Text) (m : DocumentMetadata)
          → table d j ≡ some m
          → selects laws.before (one_document id p).conditions m ≡ false)
      → found (table d) id p ≡ none
  unfolding found
  none_selected id p d h = elim (Option-cases (table d id)) [
    | inl e ↦ rw (e, found) refl
    | inr (m, e) ↦
        let key : text_eq m.document_id id ≡ true =
          (text_eq_iff m.document_id id).1 (by_id_keyed (laws.documents d) id m e) in
        let out : text_eq m.document_id id && partition_eq m.partition p ≡ false =
          sym (one_document_selects id p m) ∙ h id m e in
        rw (e, found) ground arith
  ]

  one_selected :
      (id : Text) (p : DocumentPartition) (d : D) (m : DocumentMetadata)
      → table d m.document_id ≡ some m
      → selects laws.before (one_document id p).conditions m ≡ true
      → (found (table d) id p ≡ some m) × (m.document_id ≡ id)
  unfolding found
  one_selected id p d m e h =
      let both : text_eq m.document_id id && partition_eq m.partition p ≡ true =
        sym (one_document_selects id p m) ∙ h in
      let key : m.document_id ≡ id = (text_eq_iff m.document_id id).0 (ground arith) in
      let at : table d id ≡ some m = ap (table d) (sym key) ∙ e in
      (rw (at, found) ground arith, key)

  pub scalar-Finds :
      (id : Text) (p : DocumentPartition) (d : D)
      → Finds id p d (sessions.scalar (one_document id p) d)
  scalar-Finds id p d =
      go (sessions.scalar (one_document id p) d) (laws.scalar (one_document id p).conditions d)
    where
      go :
          (x : Outcome (Option Row) × D)
          → Scalar laws.documents laws.before laws.aware (one_document id p).conditions d x
          → Finds id p d x
      go (ok none, d') (empty, kept) = (none_selected id p d empty, ap by_id kept)
      go (ok (some r), d') (m, e, at, sel, kept) =
          let (f, k) = one_selected id p d m at sel in (m, e, f, k, ap by_id kept)
      go (raised e, d') (l, kept) = (l, ap by_id kept)

  abbrev conflict_or : Exc → Exc
  conflict_or e = if is_integrity_error e then metadata_conflict_error else e

  fails :
      {X : Type 0} (e : Exc)
      → is_conflict_error e ≡ false
      → (is_integrity_error e ≡ true → X)
      → is_conflict_error (conflict_or e) ≡ true
      → X
  fails e clear there h = elim (Bool-cases (is_integrity_error e)) [
    | inl i ↦ there i
    | inr i ↦ absurd (cc (rw i at h))
  ]

  pub save_metadata-Saves :
      (m : DocumentMetadata) (d : D) → Saves table (table d) m (save_metadata sessions m d)
  unfolding save_metadata
  save_metadata-Saves m d = go (sessions.add (from_domain m) d) (laws.adds m d)
    where
      go :
          (x : Outcome (Unit {0}) × D)
          → Adds laws.documents m d x
          → Saves table
              (table d)
              m
              ((catch (transaction (λ (_ : D). x)) (λ e. raise (conflict_or e)) >> pure m) d)
      go (ok _, d') (absent, put_there) = (refl, absent, put_there)
      go (raised e, d') (clear, there) = (fails e clear there, refl)

  pub get_metadata-Gets :
      (id : Text) (p : DocumentPartition) (d : D)
      → Gets table (table d) id p (get_metadata sessions id p d)
  unfolding get_metadata read_found domain_of
  get_metadata-Gets id p d = go (sessions.scalar (one_document id p) d) (scalar-Finds id p d)
    where
      read :
          (o : Option DocumentMetadata) (m : DocumentMetadata) (d' : D)
          → ((n : DocumentMetadata) → o ≡ some n → n ≡ m)
          → found (table d) id p ≡ some m
          → m.document_id ≡ id
          → table d' ≡ table d
          → Gets table (table d) id p (domain_of sessions o d')
      read none m d' h f k kept = ((λ z. cc), kept)
      read (some n) m d' h f k kept =
          let same : n ≡ m = h n refl in
          (f ∙ ap some (sym same), ap (λ z. z.document_id) same ∙ k, kept)

      go :
          (x : Outcome (Option Row) × D)
          → Finds id p d x
          → Gets table (table d) id p (((λ (_ : D). x) >>= read_found sessions) d)
      go (ok none, d') (f, kept) = ((λ _. f), kept)
      go (ok (some r), d') (m, e, f, k, kept) =
          read (to_domain r) m d' (λ n u. to_domain-only laws.aware m n (ap to_domain (sym e) ∙ u))
            f k kept
      go (raised e, d') (l, kept) = ((λ h. cc), kept)

  pub update_metadata-Updates :
      (m : DocumentMetadata) (d : D) → Updates table (table d) m (update_metadata sessions m d)
  unfolding update_metadata
  update_metadata-Updates m d =
      go (sessions.scalar (one_document m.document_id m.partition) d)
        (scalar-Finds m.document_id m.partition d)
    where
      merge :
          (d' : D) (x : Outcome (Unit {0}) × D)
          → table d' ≡ table d
          → found (table d) m.document_id m.partition ≢ none
          → Merges laws.documents m d' x
          → Updates table (table d) m ((transaction (λ (_ : D). x) >> pure m) d)
      merge d' (ok _, v) kept f h = (refl, f, h ∙ ap (λ t. put t m.document_id m) kept)
      merge d' (raised e, v) kept f h = refl

      go :
          (x : Outcome (Option Row) × D)
          → Finds m.document_id m.partition d x
          → Updates table (table d) m (
              (transaction (
                    (λ (_ : D). x) >>= λ r.
                    raise_if (not (is_some r)) lookup_error >> sessions.merge (from_domain m))
                  >> pure m)
                d)
      go (ok none, d') h = refl
      go (ok (some r), d') (n, e, f, k, kept) =
          merge d' (sessions.merge (from_domain m) d') kept (λ z. cc (f, z)) (laws.merges m d')
      go (raised e, d') h = refl
