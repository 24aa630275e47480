-- ===== src/Sdk/Documents/Deleting.antt =====
-- A document that is being deleted: what holds once `DocumentService.delete` has marked it.
use dms_core.Prelude.{Text, some, ◌≡◌, ◌⊎◌, inl, inr, ◌∙◌, ap, sym, refl, text_eq_refl}
use dms_core.Domain.Models.{DocumentStatus, DocumentPartition, DocumentMetadata}
use dms_core.Domain.Exec.{ok}
use dms_core.Domain.Laws.{Table, found}
use dms_core.Sdk.World.{World, Backend, BackendLaws, table_of, bucket_of}
use dms_core.Sdk.Documents.{with_status}
use dms_core.Sdk.Documents.Steps.{GetsInternal, SetsStatus}
use dms_core.Sdk.Documents.DeletionSteps.{OthersKept, Holds, SetTo, put-OthersKept}

module _ {D B O : Type 0} (env : Backend D B O) (laws : BackendLaws env) where
  -- The document `m` has been found and its record `m'` is marked as being deleted; nothing else
  -- has changed.
  pub record IsDeleting (id : Text) (p : DocumentPartition) (m m' : DocumentMetadata)
      (w w' : World D B O) : Type 0 where
    pub is_found : found (table_of laws w) id p ≡ some m
    pub same_id : m'.document_id ≡ id
    pub same_key : m'.storage_key ≡ m.storage_key
    pub same_partition : m'.partition ≡ m.partition
    pub held : Holds m DocumentStatus.deleting (table_of laws w' id)
    pub kept : OthersKept id (table_of laws w) (table_of laws w')
    pub bucket : bucket_of laws w' ≡ bucket_of laws w

  module _ (id : Text) (p : DocumentPartition) (w : World D B O) where
    pub SetTo-Holds :
        (m m' : DocumentMetadata) {t : World D B O} {u : Table}
        → SetTo m' DocumentStatus.failed (table_of laws t) u
        → IsDeleting id p m m' w t
        → Holds m DocumentStatus.failed (u id)
    unfolding with_status
    SetTo-Holds m m' (now, k) h = (
      with_status m' DocumentStatus.failed now,
      ap (λ f. f id) k ∙ rw h.same_id (rw text_eq_refl),
      refl,
      h.same_key,
      h.same_partition,
    )

    pub SetTo-OthersKept :
        {m : DocumentMetadata} (m' : DocumentMetadata) {t : World D B O} {u : Table}
        → (u ≡ table_of laws t) ⊎ SetTo m' DocumentStatus.failed (table_of laws t) u
        → IsDeleting id p m m' w t
        → OthersKept id (table_of laws w) u
    SetTo-OthersKept m' (inl k) h j n = rw k (h.kept j n)
    SetTo-OthersKept m' {t = t} (inr (now, k)) h j n =
        ap (λ f. f j) k
        ∙ put-OthersKept m'.document_id (with_status m' DocumentStatus.failed now) (table_of laws t)
            j (λ e. n (sym h.same_id ∙ e))
        ∙ h.kept j n

    pub IsDeleting-set_status :
        (m m' : DocumentMetadata) (t u : World D B O)
        → GetsInternal env laws id p w (ok m, t)
        → SetsStatus env laws m DocumentStatus.deleting t (ok m', u)
        → IsDeleting id p m m' w u
    unfolding with_status
    IsDeleting-set_status m m' t u h g = record {
      is_found = h.0;
      same_id = rw g.0 h.1;
      same_key = rw g.0 refl;
      same_partition = rw g.0 refl;
      held = (
        m',
        ap (λ f. f id) g.1 ∙ rw h.1 (rw text_eq_refl),
        rw g.0 refl,
        rw g.0 refl,
        rw g.0 refl,
      );
      kept = λ j n.
          ap (λ f. f j) g.1
          ∙ put-OthersKept m.document_id m' (table_of laws t) j (λ e. n (sym h.1 ∙ e))
          ∙ ap (λ f. f j) h.2.0;
      bucket = g.2 ∙ h.2.1;
    }
