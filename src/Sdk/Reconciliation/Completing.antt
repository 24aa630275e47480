-- ===== src/Sdk/Reconciliation/Completing.antt =====
-- The recovery actions that complete a deletion.
use dms_core.Prelude.{
  text_eq_refl, Text, Bool, true, false, not, ◌||◌, Option, none, some, ◌≡◌, inl, refl,
}
use dms_core.Domain.Models.{DocumentStatus, DocumentPartition, DocumentMetadata}
use dms_core.Domain.Errors.{Exc, validation_error, document_not_found_error, metadata_store_error}
use dms_core.Domain.Exec.{Outcome, Exec, ok, raised, catch, raise, pure, raise_if, unless, ◌>>◌}
use dms_core.Domain.Exec.Rules.{ensures-weaken, bind-ensures, catch-ensures, guard-ensures}
use dms_core.Domain.Laws.{found, HardDeletes, MarksDeleted}
use dms_core.Sdk.Types.{RecoveryAction, DocumentInspection}
use dms_core.Sdk.World.{World, Backend, BackendLaws, table_of, bucket_of, Same, on_db}
use dms_core.Sdk.Documents.DeletionSteps.{OthersKept, Gone, put-OthersKept, remove-OthersKept}
use dms_core.Sdk.Reconciliation.{may_exist, not_deleting, delete_marked, complete_deletion}
use dms_core.Sdk.Reconciliation.Inspection.{report}
use dms_core.Sdk.Reconciliation.Actions.{Acts, complete_guard}

module _ {D B O : Type 0} (env : Backend D B O) (laws : BackendLaws env) (id : Text)
    (key : Option Text) (dry : Bool) (p : DocumentPartition) (w : World D B O) where
  abbrev completing : Bool → RecoveryAction
  completing true = RecoveryAction.complete_deletion_hard
  completing false = RecoveryAction.complete_deletion_soft

  abbrev DeletesMarked : Bool → Outcome (Unit {0}) × World D B O → Type 0
  DeletesMarked hard (ok _, t) =
      Gone hard p (table_of laws t id)
      × OthersKept id (table_of laws w) (table_of laws t)
      × (bucket_of laws t ≡ bucket_of laws w)
  DeletesMarked hard (raised _, t) = Same laws w t

  delete_marked-DeletesMarked : (hard : Bool) → DeletesMarked hard (delete_marked env id hard p w)
  unfolding delete_marked
  delete_marked-DeletesMarked true =
      ensures-weaken
        (λ x.
          (bucket_of laws x.1 ≡ bucket_of laws w)
          × HardDeletes laws.db.table (table_of laws w) id p (x.0, x.1.db))
        (DeletesMarked true) (on_db (env.metadata_store.hard_delete id p) w)
        (refl, laws.db.hard_deletes id p w.db)
        (λ _ t h. (
          rw h.1.1 (rw text_eq_refl),
          (λ j n. rw h.1.1 (remove-OthersKept id (table_of laws w) j n)),
          h.0,
        ))
        (λ e t h. (h.1, h.0))
  delete_marked-DeletesMarked false =
      bind-ensures
        (λ x.
          (bucket_of laws x.1 ≡ bucket_of laws w)
          × MarksDeleted laws.db.table (table_of laws w) id p (x.0, x.1.db))
        (DeletesMarked false) (on_db (env.metadata_store.mark_deleted id p)) (λ _. pure tt) w
        (refl, laws.db.marks_deleted id p w.db)
        (λ m t h. (
          (m, rw h.1.4 (rw text_eq_refl), h.1.0, h.1.1),
          (λ j n. rw h.1.4 (put-OthersKept id m (table_of laws w) j n)),
          h.0,
        ))
        (λ e t h. (h.1, h.0))

  abbrev Completes : Bool → Outcome (Unit {0}) × World D B O → Type 0
  Completes hard x =
      Acts env laws (completing hard) id key dry p (table_of laws w) (bucket_of laws w) x

  -- Once the guards have let the action pass.
  ready-Completes :
      (hard : Bool) (m : DocumentMetadata)
      → found (table_of laws w) id p ≡ some m
      → m.status ≡ DocumentStatus.deleting
      → bucket_of laws w m.storage_key ≡ none
      → (d : Bool) → d ≡ dry
      → Completes hard
          (unless d (catch (delete_marked env id hard p) (λ e. raise metadata_store_error)) w)
  ready-Completes true m f s a true e = rw (← e) ((m, f, s, a), (refl, refl))
  ready-Completes false m f s a true e = rw (← e) ((m, f, s, a), (refl, refl))
  ready-Completes true m f s a false e =
      catch-ensures (DeletesMarked true) (Completes true) (delete_marked env id true p)
        (λ _. raise metadata_store_error) w (delete_marked-DeletesMarked true)
        (λ _ t h. rw (← e) ((m, f, s, a), h)) (λ _ t h. (h.0, inl h.1))
  ready-Completes false m f s a false e =
      catch-ensures (DeletesMarked false) (Completes false) (delete_marked env id false p)
        (λ _. raise metadata_store_error) w (delete_marked-DeletesMarked false)
        (λ _ t h. rw (← e) ((m, f, s, a), h)) (λ _ t h. (h.0, inl h.1))

  refused-Completes : (hard : Bool) (e : Exc) → Completes hard (raised e, w)
  refused-Completes true e = (refl, inl refl)
  refused-Completes false e = (refl, inl refl)

  abbrev complete_step : Bool → Exec (World D B O) (Unit {0})
  complete_step hard =
      unless dry (catch (delete_marked env id hard p) λ e. raise metadata_store_error)

  abbrev known_step : Bool → DocumentInspection → Exec (World D B O) (Unit {0})
  known_step hard i =
      raise_if (not_deleting i.status || may_exist i.object_exists) validation_error
      >> complete_step hard

  pub complete_deletion-Completes :
      (hard : Bool) (i : DocumentInspection)
      → i ≡ report id (found (table_of laws w) id p) (bucket_of laws w)
      → Completes hard (complete_deletion env id hard dry p i w)
  unfolding complete_deletion
  complete_deletion-Completes hard i e =
      guard-ensures (Completes hard) (not i.metadata_exists) document_not_found_error
        (known_step hard i) w (λ _. refused-Completes hard document_not_found_error)
        (λ known.
          guard-ensures (Completes hard) (not_deleting i.status || may_exist i.object_exists)
            validation_error (complete_step hard) w (λ _. refused-Completes hard validation_error)
            (λ ready.
              let (m, f, s, a) =
                complete_guard env laws id (bucket_of laws w) (found (table_of laws w) id p)
                  (rw e at known) (rw e at ready) in
              ready-Completes hard m f s a dry refl))
