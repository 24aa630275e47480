-- ===== src/Sdk/Reconciliation/Actions.antt =====
-- What a recovery action asks for before it changes anything, and what it changes.
use dms_core.Prelude.{
  Text, Bool, true, false, not, ◌||◌, Option, none, some, is_some, starts_with, remove, ◌≡◌, ◌⊎◌,
  refl, arith,
}
use dms_core.Domain.Models.{DocumentStatus, DocumentPartition, DocumentMetadata}
use dms_core.Domain.Exec.{Outcome, ok, raised}
use dms_core.Domain.Interfaces.{Bytes}
use dms_core.Domain.Laws.{Table, Bucket, found, OnlyAt}
use dms_core.Sdk.Types.{RecoveryAction}
use dms_core.Sdk.World.{World, Backend, BackendLaws, table_of, bucket_of}
use dms_core.Sdk.Documents.DeletionSteps.{OthersKept, Gone, Holds}
use dms_core.Sdk.Upload.Keys.{document_prefix}
use dms_core.Sdk.Reconciliation.{may_exist, not_deleting}
use dms_core.Sdk.Reconciliation.Inspection.{report}

-- What an action asks for of the table and the bucket.
abbrev pub Requires :
    (Bytes → Text)
    → RecoveryAction
    → Text
    → Option Text
    → DocumentPartition
    → Table
    → Bucket
    → Type 0
Requires sha256 RecoveryAction.purge_orphan_object id key p t b =
    (k : Text) × (key ≡ some k)
    × (found t id p ≡ none)
    × (starts_with k (document_prefix sha256 p id) ≡ true)
    × (is_some (b k) ≡ true)
Requires sha256 RecoveryAction.mark_failed id key p t b =
    (m : DocumentMetadata) × (found t id p ≡ some m) × (b m.storage_key ≡ none)
Requires sha256 _ id key p t b =
    (m : DocumentMetadata) × (found t id p ≡ some m)
    × (m.status ≡ DocumentStatus.deleting)
    × (b m.storage_key ≡ none)

-- What an action that is no dry run changes.
abbrev pub Changes :
    RecoveryAction
    → Text
    → Option Text
    → DocumentPartition
    → Table
    → Bucket
    → Table
    → Bucket
    → Type 0
Changes RecoveryAction.purge_orphan_object id key p t b t' b' =
    (t' ≡ t) × ((k : Text) × (key ≡ some k) × (b' ≡ remove b k))
Changes RecoveryAction.mark_failed id key p t b t' b' =
    ((m : DocumentMetadata) × (found t id p ≡ some m) × Holds m DocumentStatus.failed (t' id))
    × OthersKept id t t'
    × (b' ≡ b)
Changes RecoveryAction.complete_deletion_hard id key p t b t' b' =
    Gone true p (t' id) × OthersKept id t t' × (b' ≡ b)
Changes RecoveryAction.complete_deletion_soft id key p t b t' b' =
    Gone false p (t' id) × OthersKept id t t' × (b' ≡ b)

abbrev pub Effect :
    Bool
    → RecoveryAction
    → Text
    → Option Text
    → DocumentPartition
    → Table
    → Bucket
    → Table
    → Bucket
    → Type 0
Effect true action id key p t b t' b' = (t' ≡ t) × (b' ≡ b)
Effect false action id key p t b t' b' = Changes action id key p t b t' b'

module _ {D B O : Type 0} (env : Backend D B O) (laws : BackendLaws env) where
  -- An action that raises has changed no record, and at most the object that it was to purge.
  abbrev pub Spares : Bool → RecoveryAction → Option Text → Table → Bucket → World D B O → Type 0
  Spares dry action key t b w' =
      (table_of laws w' ≡ t)
      × ((bucket_of laws w' ≡ b)
          ⊎ ((dry ≡ false)
              × (action ≡ RecoveryAction.purge_orphan_object)
              × ((k : Text) × (key ≡ some k) × OnlyAt laws.objects.bucket b k w'.bucket)))

  abbrev pub Acts :
      RecoveryAction
      → Text
      → Option Text
      → Bool
      → DocumentPartition
      → Table
      → Bucket
      → Outcome (Unit {0}) × World D B O
      → Type 0
  Acts action id key dry p t b (ok _, w') =
      Requires env.sha256 action id key p t b
      × Effect dry action id key p t b (table_of laws w') (bucket_of laws w')
  Acts action id key dry p t b (raised e, w') = Spares dry action key t b w'

  -- The inspection of a document tells whether its deletion can be completed.
  pub complete_guard :
      (id : Text) (b : Bucket) (o : Option DocumentMetadata)
      → not (report id o b).metadata_exists ≡ false
      → (not_deleting (report id o b).status || may_exist (report id o b).object_exists) ≡ false
      → (m : DocumentMetadata) × (o ≡ some m)
        × (m.status ≡ DocumentStatus.deleting)
        × (b m.storage_key ≡ none)
  unfolding report
  complete_guard id b none h g = cc
  complete_guard id b (some m) h g = (m, refl, ground arith, ground arith)

  pub mark_guard :
      (id : Text) (b : Bucket) (o : Option DocumentMetadata)
      → not (report id o b).metadata_exists ≡ false
      → may_exist (report id o b).object_exists ≡ false
      → (m : DocumentMetadata) × (o ≡ some m) × (b m.storage_key ≡ none)
  unfolding report
  mark_guard id b none h g = cc
  mark_guard id b (some m) h g = (m, refl, ground arith)

  pub purge_guard :
      (id : Text) (b : Bucket) (o : Option DocumentMetadata)
      → (report id o b).metadata_exists ≡ false
      → o ≡ none
  unfolding report
  purge_guard id b none h = refl
  purge_guard id b (some m) h = cc
