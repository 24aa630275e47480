-- ===== src/Sdk/Upload/Rollback.antt =====
-- The record of an upload: how saving it and the rollback of a failed save end.
use dms_core.Prelude.{
  ℕ, ap, ◌∙◌, remove-OnlyAt, Text, true, none, put, remove, ◌≡◌, ◌≢◌, refl, if◌then◌else◌,
  Bool-cases, inl, inr,
}
use dms_core.Domain.Models.{DocumentPartition, DocumentMetadata}
use dms_core.Domain.Errors.{Exc, duplicate_document_error, consistency_error, is_conflict_error}
use dms_core.Domain.Exec.{Outcome, Exec, ok, raised, catch, raise}
use dms_core.Domain.Exec.Rules.{bind-ensures, catch-ensures}
use dms_core.Domain.Laws.{OnlyAt, Saves, DeletesObject}
use dms_core.Sdk.Types.{UploadFields}
use dms_core.Sdk.World.{World, Backend, BackendLaws, table_of, bucket_of, on_bucket}
use dms_core.Sdk.Upload.{uploaded_metadata, save_uploaded_metadata, roll_back}

module _ {D B O : Type 0} (env : Backend D B O) (laws : BackendLaws env) (id key : Text) where
  -- After a rollback there is an exception, and the table has not changed.
  abbrev pub RollsBack : Exc → World D B O → Outcome DocumentMetadata × World D B O → Type 0
  RollsBack exc t (ok _, u) = ⊥
  RollsBack exc t (raised duplicate_document_error, u) =
      (table_of laws u ≡ table_of laws t)
      × (is_conflict_error exc ≡ true)
      × (bucket_of laws u ≡ remove (bucket_of laws t) key)
  RollsBack exc t (raised consistency_error, u) =
      (table_of laws u ≡ table_of laws t)
      × OnlyAt laws.objects.bucket (bucket_of laws t) key u.bucket
  RollsBack exc t (raised _, u) = ⊥

  abbrev CleansUp : World D B O → Outcome (Unit {0}) × World D B O → Type 0
  CleansUp t (ok _, u) =
      (table_of laws u ≡ table_of laws t) × (bucket_of laws u ≡ remove (bucket_of laws t) key)
  CleansUp t (raised consistency_error, u) =
      (table_of laws u ≡ table_of laws t)
      × OnlyAt laws.objects.bucket (bucket_of laws t) key u.bucket
  CleansUp t (raised _, u) = ⊥

  abbrev clean_up : Exec (World D B O) (Unit {0})
  clean_up = catch (on_bucket (env.object_store.delete_object id key)) λ e. raise consistency_error

  clean_up-CleansUp : (t : World D B O) → CleansUp t (clean_up t)
  clean_up-CleansUp t =
      catch-ensures
        (λ x.
          (table_of laws x.1 ≡ table_of laws t)
          × DeletesObject laws.objects.bucket (bucket_of laws t) key (x.0, x.1.bucket))
        (CleansUp t) (on_bucket (env.object_store.delete_object id key))
        (λ e. raise consistency_error) t (refl, laws.objects.deletes id key t.bucket) (λ a u h. h)
        (λ e u h. h)

  cleaned-RollsBack :
      (exc : Exc) (t u : World D B O)
      → CleansUp t (ok tt, u)
      → RollsBack exc t (
        raised (if is_conflict_error exc then duplicate_document_error else consistency_error),
        u,
      )
  cleaned-RollsBack exc t u h = elim (Bool-cases (is_conflict_error exc)) [
    | inl e ↦ rw e (h.0, e, h.1)
    | inr e ↦ rw e (h.0, λ j n. rw h.1 (remove-OnlyAt (bucket_of laws t) key j n))
  ]

  not_cleaned-RollsBack :
      (exc e : Exc) (t u : World D B O) → CleansUp t (raised e, u) → RollsBack exc t (raised e, u)
  not_cleaned-RollsBack exc consistency_error t u h = h
  not_cleaned-RollsBack exc e t u h = absurd h

  pub roll_back-RollsBack :
      (exc : Exc) (t : World D B O) → RollsBack exc t (roll_back env id key exc t)
  unfolding roll_back
  roll_back-RollsBack exc t =
      bind-ensures (CleansUp t) (RollsBack exc t) clean_up
        (λ _. raise (if is_conflict_error exc then duplicate_document_error else consistency_error))
        t (clean_up-CleansUp t) (λ _ u h. cleaned-RollsBack exc t u h)
        (λ e u h. not_cleaned-RollsBack exc e t u h)

module _ {D B O : Type 0} (env : Backend D B O) (laws : BackendLaws env) (request : UploadFields)
    (size : ℕ) (id key sum : Text) (p : DocumentPartition) where
  abbrev pub fresh : World D B O → DocumentMetadata
  fresh t = uploaded_metadata env request size id key sum p t

  abbrev SavesUploaded : World D B O → Outcome DocumentMetadata × World D B O → Type 0
  SavesUploaded t x =
      (bucket_of laws x.1 ≡ bucket_of laws t)
      × Saves laws.db.table (table_of laws t) (fresh t) (x.0, x.1.db)

  save-SavesUploaded :
      (t : World D B O) → SavesUploaded t (save_uploaded_metadata env request size id key sum p t)
  unfolding save_uploaded_metadata
  save-SavesUploaded t = (refl, laws.db.saves (fresh t) t.db)

  -- The record was saved, or the object was removed again.
  abbrev pub SavesRecord : World D B O → Outcome DocumentMetadata × World D B O → Type 0
  SavesRecord t (ok m, u) =
      (bucket_of laws u ≡ bucket_of laws t)
      × (m ≡ fresh t)
      × (table_of laws t id ≡ none)
      × (table_of laws u ≡ put (table_of laws t) id m)
  SavesRecord t (raised duplicate_document_error, u) =
      (table_of laws u ≡ table_of laws t)
      × (table_of laws t id ≢ none)
      × (bucket_of laws u ≡ remove (bucket_of laws t) key)
  SavesRecord t (raised consistency_error, u) =
      (table_of laws u ≡ table_of laws t)
      × OnlyAt laws.objects.bucket (bucket_of laws t) key u.bucket
  SavesRecord t (raised _, u) = ⊥

  rolled_back :
      (exc : Exc) (t u : World D B O)
      → SavesUploaded t (raised exc, u)
      → (r : Outcome DocumentMetadata) (v : World D B O) → RollsBack env laws id key exc u (r, v)
      → SavesRecord t (r, v)
  unfolding uploaded_metadata
  rolled_back exc t u h (ok m) v g = absurd g
  rolled_back exc t u h (raised duplicate_document_error) v g =
      (g.0 ∙ h.1.1, h.1.0 g.1, g.2 ∙ ap (λ b. remove b key) h.0)
  rolled_back exc t u h (raised consistency_error) v g =
      (g.0 ∙ h.1.1, λ j n. g.1 j n ∙ ap (λ b. b j) h.0)
  rolled_back exc t u h (raised _) v g = absurd g

  abbrev pub save_step : Exec (World D B O) DocumentMetadata
  save_step =
      catch (save_uploaded_metadata env request size id key sum p) λ exc. roll_back env id key exc

  pub save_step-SavesRecord : (t : World D B O) → SavesRecord t (save_step t)
  unfolding uploaded_metadata
  save_step-SavesRecord t =
      catch-ensures (SavesUploaded t) (SavesRecord t)
        (save_uploaded_metadata env request size id key sum p) (λ exc. roll_back env id key exc) t
        (save-SavesUploaded t) (λ m u h. (h.0, h.1.0, h.1.1, rw (← h.1.0) at h.1.2))
        (λ exc u h.
          rolled_back exc t u h (roll_back env id key exc u).0 (roll_back env id key exc u).1
            (roll_back-RollsBack env laws id key exc u))
