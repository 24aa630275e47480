-- ===== src/Infrastructure/Metadata/Keeping.antt =====
-- The store keeps what the services rely on of a metadata store: deletions, tests, allocation, and
-- the laws put together.
use dms_core.Prelude.{
  ℕ, zero, suc, Text, text_eq, text_eq_iff, true, false, ◌&&◌, Option, none, some, is_some, [], ◌∷◌,
  put, remove, ◌≡◌, refl, ap, sym, subst, ◌∙◌, arith, Option-cases, inl, inr,
}
use dms_core.Domain.Models.{DocumentMetadata, DocumentPartition}
use dms_core.Domain.Exec.{Outcome, ok, raised, Exec, pure, gets, ◌>>=◌}
use dms_core.Domain.Exec.Rules.{bind-ensures}
use dms_core.Domain.Laws.{
  Table, found, found-partition, Gets, Updates, Saves, MarksDeleted, HardDeletes, Tests, Allocates,
  MetadataStoreLaws,
}
use dms_core.Infrastructure.Operations.{transaction}
use dms_core.Infrastructure.Metadata.{
  Row, Condition, Sessions, from_domain, one_document, selecting, get_metadata, update_metadata,
  mark_deleted, deleted_at_now, delete_found, hard_delete, exists, allocate_within, sql_store,
}
use dms_core.Infrastructure.Metadata.Laws.{
  SessionsLaws, Scalar, Deletes, GetsRow, by_id, selects, holds, read_back,
}
use dms_core.Infrastructure.Metadata.Refinement.{
  table, Finds, scalar-Finds, by_id_keyed, transaction-ensures, save_metadata-Saves,
  get_metadata-Gets, update_metadata-Updates,
}

module _ {D : Type 0} (sessions : Sessions D) (laws : SessionsLaws sessions) where
  abbrev pub t_of : D → Table
  t_of d = table sessions laws d

  pub mark_deleted-MarksDeleted :
      (id : Text) (p : DocumentPartition) (d : D)
      → MarksDeleted t_of (t_of d) id p (mark_deleted sessions id p d)
  unfolding mark_deleted
  mark_deleted-MarksDeleted id p d =
      go (get_metadata sessions id p d) (get_metadata-Gets sessions laws id p d)
    where
      updated :
          (m : DocumentMetadata) (d' : D) (x : Outcome DocumentMetadata × D)
          → found (t_of d) id p ≡ some m
          → m.document_id ≡ id
          → t_of d' ≡ t_of d
          → Updates t_of (t_of d') (deleted_at_now m (sessions.utcnow d')) x
          → MarksDeleted t_of (t_of d) id p x
      updated m d' (ok n, v) f k kept h = (
        ap (λ z. z.status) h.0,
        ap (λ z. z.partition) h.0 ∙ found-partition (t_of d) id p m f,
        ap (λ z. is_some z.deleted_at) h.0,
        (λ z. cc (f, z)),
        h.2
            ∙ ap (λ t. put t m.document_id (deleted_at_now m (sessions.utcnow d'))) kept
            ∙ ap (λ i. put (t_of d) i (deleted_at_now m (sessions.utcnow d'))) k
            ∙ ap (put (t_of d) id) (sym h.0),
      )
      updated m d' (raised e, v) f k kept h = h ∙ kept

      go :
          (x : Outcome DocumentMetadata × D)
          → Gets t_of (t_of d) id p x
          → MarksDeleted t_of (t_of d) id p (
              ((λ (_ : D). x) >>= λ m.
              gets sessions.utcnow >>= λ now. update_metadata sessions (deleted_at_now m now))
                d)
      go (ok m, d') (f, k, kept) =
          updated m d' (update_metadata sessions (deleted_at_now m (sessions.utcnow d')) d') f k
            kept (update_metadata-Updates sessions laws (deleted_at_now m (sessions.utcnow d')) d')
      go (raised e, d') h = h.1

  pub hard_delete-HardDeletes :
      (id : Text) (p : DocumentPartition) (d : D)
      → HardDeletes t_of (t_of d) id p (hard_delete sessions id p d)
  unfolding hard_delete delete_found read_back from_domain
  hard_delete-HardDeletes id p d =
      go (sessions.scalar (one_document id p) d) (scalar-Finds sessions laws id p d)
    where
      gone :
          (m : DocumentMetadata) (r : Row) (d' : D) (x : Outcome (Unit {0}) × D)
          → r ≡ read_back laws.aware (from_domain m)
          → found (t_of d) id p ≡ some m
          → m.document_id ≡ id
          → t_of d' ≡ t_of d
          → Deletes laws.documents r d' x
          → HardDeletes t_of (t_of d) id p (transaction (λ (_ : D). x) d)
      gone m r d' (ok _, v) e f k kept h = (
        (λ z. cc (f, z)),
        h
            ∙ ap (λ t. remove t r.document_id) kept
            ∙ ap (remove (t_of d)) (ap (λ z. z.document_id) e ∙ k),
      )
      gone m r d' (raised x, v) e f k kept h = refl

      go :
          (x : Outcome (Option Row) × D)
          → Finds sessions laws id p d x
          → HardDeletes t_of
              (t_of d)
              id
              p
              (transaction ((λ (_ : D). x) >>= delete_found sessions) d)
      go (ok none, d') h = refl
      go (ok (some r), d') (m, e, f, k, kept) =
          gone m r d' (sessions.delete r d') e f k kept (laws.deletes r d')
      go (raised e, d') h = refl

  pub exists-Tests : (id : Text) (d : D) → Tests t_of (t_of d) id (exists sessions id d)
  unfolding exists selects holds from_domain
  exists-Tests id d =
      go (sessions.scalar (selecting (Condition.document_id_is id ∷ [])) d)
        (laws.scalar (Condition.document_id_is id ∷ []) d)
    where
      absent :
          ((j : Text) (m : DocumentMetadata)
            → t_of d j ≡ some m
            → selects laws.before (Condition.document_id_is id ∷ []) m ≡ false)
          → false ≡ is_some (t_of d id)
      absent h = elim (Option-cases (t_of d id)) [
        | inl e ↦ rw e refl
        | inr (m, e) ↦
            let other : text_eq m.document_id id && true ≡ false = h id m e in
            let key : text_eq m.document_id id ≡ true =
              (text_eq_iff m.document_id id).1
                (by_id_keyed sessions laws (laws.documents d) id m e) in
            absurd (ground arith)
      ]

      present :
          (m : DocumentMetadata)
          → t_of d m.document_id ≡ some m
          → selects laws.before (Condition.document_id_is id ∷ []) m ≡ true
          → true ≡ is_some (t_of d id)
      present m at s =
          let key : m.document_id ≡ id = (text_eq_iff m.document_id id).0 (ground arith) in
          let there : t_of d id ≡ some m = ap (t_of d) (sym key) ∙ at in rw there refl

      go :
          (x : Outcome (Option Row) × D)
          → Scalar laws.documents laws.before laws.aware (Condition.document_id_is id ∷ []) d x
          → Tests t_of (t_of d) id (((λ (_ : D). x) >>= λ r. pure (is_some r)) d)
      go (ok none, d') (h, kept) = (absent h, ap by_id kept)
      go (ok (some r), d') (m, e, at, s, kept) = (present m at s, ap by_id kept)
      go (raised e, d') h = ap by_id h.1

  abbrev next_round : ℕ → Text → Option Row → Exec D Text
  next_round fuel id none = pure id
  next_round fuel id (some r) = allocate_within sessions fuel

  -- A round leaves the table alone and ends with an unused identifier, or goes on.
  round-Allocates :
      (fuel : ℕ) (id : Text) (d v : D)
      → ((w : D) → Allocates t_of (t_of w) (allocate_within sessions fuel w))
      → t_of v ≡ t_of d
      → Allocates t_of (t_of d) ((sessions.get id >>= next_round fuel id) v)
  round-Allocates fuel id d v again kept = go (sessions.get id v) (laws.get id v)
    where
      go :
          (x : Outcome (Option Row) × D)
          → GetsRow laws.documents id v x
          → Allocates t_of (t_of d) (((λ (_ : D). x) >>= next_round fuel id) v)
      go (ok none, w) (absent, same) = (ap (λ t. t id) (sym kept) ∙ absent, ap by_id same ∙ kept)
      go (ok (some r), w) (there, same) =
          subst (λ t. Allocates t_of t (allocate_within sessions fuel w)) (ap by_id same ∙ kept)
            (again w)
      go (raised e, w) same = ap by_id same ∙ kept

  allocate_within-Allocates :
      (fuel : ℕ) (d : D) → Allocates t_of (t_of d) (allocate_within sessions fuel d)
  unfolding allocate_within
  allocate_within-Allocates zero d = refl
  allocate_within-Allocates (suc fuel) d =
      bind-ensures (λ x. t_of x.1 ≡ t_of d) (Allocates t_of (t_of d)) sessions.next_id
        (λ id. sessions.get id >>= next_round fuel id) d (ap by_id (laws.numbers d))
        (λ id v kept. round-Allocates fuel id d v (allocate_within-Allocates fuel) kept)
        (λ e v kept. kept)

  allocate-Allocates :
      (fuel : ℕ) (d : D)
      → Allocates t_of (t_of d) ((sql_store sessions fuel).allocate_document_id d)
  allocate-Allocates fuel d =
      transaction-ensures (Allocates t_of (t_of d)) (Allocates t_of (t_of d))
        (allocate_within sessions fuel) d (allocate_within-Allocates fuel d) (λ id v h. h)
        (λ e v h. refl)

  -- Where SQLAlchemy's sessions keep their documented behaviour: the store that is built on them
  -- saves, updates, reads, marks and deletes documents, tests for them and allocates identifiers
  -- as the services rely on; a call that raises leaves the table as it was.
  pub sql_store-Keeps :
      (fuel : ℕ) (m : DocumentMetadata) (id : Text) (p : DocumentPartition) (d : D)
      → Saves t_of (t_of d) m ((sql_store sessions fuel).save_metadata m d)
        × Updates t_of (t_of d) m ((sql_store sessions fuel).update_metadata m d)
        × Gets t_of (t_of d) id p ((sql_store sessions fuel).get_metadata id p d)
        × MarksDeleted t_of (t_of d) id p ((sql_store sessions fuel).mark_deleted id p d)
        × HardDeletes t_of (t_of d) id p ((sql_store sessions fuel).hard_delete id p d)
        × Tests t_of (t_of d) id ((sql_store sessions fuel).exists id d)
        × Allocates t_of (t_of d) ((sql_store sessions fuel).allocate_document_id d)
  sql_store-Keeps fuel m id p d = (
    save_metadata-Saves sessions laws m d,
    update_metadata-Updates sessions laws m d,
    get_metadata-Gets sessions laws id p d,
    mark_deleted-MarksDeleted id p d,
    hard_delete-HardDeletes id p d,
    exists-Tests id d,
    allocate-Allocates fuel d,
  )

  -- The interface that the services take, filled by this store.
  pub metadata_laws : (fuel : ℕ) → MetadataStoreLaws (sql_store sessions fuel)
  metadata_laws fuel = record {
    table = t_of;
    saves = save_metadata-Saves sessions laws;
    updates = update_metadata-Updates sessions laws;
    gets = get_metadata-Gets sessions laws;
    marks_deleted = mark_deleted-MarksDeleted;
    hard_deletes = hard_delete-HardDeletes;
    tests = exists-Tests;
    allocates = allocate-Allocates fuel;
  }
